-- ===== src/Mvcc/Invariant/Gc.antt =====
-- GC against the invariant of Mvcc/Invariant.
use mathlib.Core.Path.{subst}
use mileva_db.Prelude.{
  ℕ, zero, suc, ◌<◌, ◌≡◌, refl, Bool, true, false, not, Option, none, some, [], ◌∷◌, ◌++◌, ltb,
  ◌==◌, ◌||◌, Bool-cases, Option-cases, inl, inr, if◌then◌else◌, arith, All, length,
}
use mileva_db.Bytes.{Bytes, bytes_equal}
use mileva_db.Mvcc.Types.{
  Error, Lock, Value, Result, ok, err, lock_ver, type_put, type_delete, lock_under_safe_point,
  ◌>>=◌,
}
use mileva_db.Mvcc.Env.{Env, IsLawful, Batch, Iterator, delete}
use mileva_db.Mvcc.Lock.{mvcc_encode, mvcc_decode}
use mileva_db.Mvcc.Iter.{Pairs, decode_lock, decode_value_pair}
use mileva_db.Mvcc.Reads.{scan_limit, scan_start, first_key, new_scan_iterator}
use mileva_db.Mvcc.Commit.{Store}
use mileva_db.Mvcc.Ranges.{gc_version, gc_versions, blocks_gc, gc_loop, gc_from, gc}
use mileva_db.Mvcc.Rows.{Load, lock_load, value_load, load_value, value_here, Row, LoadFits}
use mileva_db.Mvcc.Rows.Codec.{decode_value_pair-encode_row}
use mileva_db.Mvcc.Rows.Writing.{delete_at}
use mileva_db.Mvcc.Invariant.{IsWellFormed, IsEncoded, IsEncoded-nil, IsEncoded-append}
use mileva_db.Mvcc.Invariant.Iterators.{
  RowPair, RowPair-iterator, Decoded, decode_lock-Decoded, Collects, write_collected-IsWellFormed,
}

module _ (e : Env) (law : IsLawful e) where
  gc_version-IsEncoded :
      (safe_point : ℕ) (key : Bytes) (keep : Bool) (v : Value)
      → v.commit_ts < lock_ver
      → IsEncoded e (gc_version e safe_point key keep v).0
  unfolding gc_version
  gc_version-IsEncoded safe_point key keep v h = elim (Bool-cases (ltb safe_point v.commit_ts)) [
    | inl young ↦ rw young (IsEncoded-nil e)
    | inr old ↦
        rw old (elim (Bool-cases ((v.value_type == type_put) || (v.value_type == type_delete))) [
          | inr other ↦ rw other dropped
          | inl data_version ↦
              rw data_version (elim (Bool-cases (not keep || (v.value_type == type_delete))) [
                | inl goes ↦ rw goes dropped
                | inr stays ↦ rw stays (IsEncoded-nil e)
              ])
        ])
  ]
    where
      dropped : IsEncoded e (delete (mvcc_encode e key v.commit_ts) ∷ [])
      dropped = record {
        ops = delete_at key v.commit_ts ∷ [];
        encodes = refl;
        fit = (omega arith, tt);
      }

  abbrev Collected : Result (Batch × Bytes × Pairs) → Type 0
  Collected (err er) = Unit
  Collected (ok x) = IsEncoded e x.0 × All (RowPair e law) x.2

  abbrev ValueOk : Option Value → Type 0
  ValueOk none = Unit
  ValueOk (some v) = v.commit_ts < lock_ver

  value_here-ValueOk : (key : Bytes) (r : Row) → LoadFits e r.load → ValueOk (value_here key r)
  value_here-ValueOk key r fit = load-ValueOk (bytes_equal r.key key) r.load fit
    where
      load-ValueOk :
          (b : Bool) (l : Load) → LoadFits e l → ValueOk (if b then load_value l else none)
      load-ValueOk false l fit = tt
      load-ValueOk true (lock_load l) fit = tt
      load-ValueOk true (value_load v) fit = fit.1

  next-Collected :
      (r : Result (Bytes × ℕ)) (here : Pairs)
      → All (RowPair e law) here
      → Collected (r >>= λ x. ok ([], x.0, here))
  next-Collected (err er) here h = tt
  next-Collected (ok x) here h = (IsEncoded-nil e, h)

  append-Collected :
      (batch : Batch) (r : Result (Batch × Bytes × Pairs))
      → IsEncoded e batch
      → Collected r
      → Collected (r >>= λ x. ok (batch ++ x.0, x.1, x.2))
  append-Collected batch (err er) h k = tt
  append-Collected batch (ok (more, next_key, pairs)) h (enc, k) =
      (IsEncoded-append e batch more h enc, k)

  gc_versions-Collected :
      (safe_point : ℕ) (key : Bytes) (keep : Bool) (pairs : Pairs)
      → All (RowPair e law) pairs
      → Collected (gc_versions e safe_point key keep pairs)
  unfolding gc_versions
  gc_versions-Collected safe_point key keep [] h = (IsEncoded-nil e, tt)
  gc_versions-Collected safe_point key keep ((k, w) ∷ rest) ((r, q, fit), h) =
      let decodes : decode_value_pair e key (k, w) ≡ ok (value_here key r) =
        rw q (decode_value_pair-encode_row e law key r fit) in
      let value_ok = value_here-ValueOk key r fit in
      elim (Option-cases (value_here key r)) [
        | inl absent ↦
            rw (decodes, absent, gc_versions)
              (next-Collected (mvcc_decode e k) ((k, w) ∷ rest) ((r, q, fit), h))
        | inr (v, here) ↦
            let bound : v.commit_ts < lock_ver = subst ValueOk here value_ok in
            rw (decodes, here, gc_versions)
              (append-Collected (gc_version e safe_point key keep v).0
                (gc_versions e safe_point key (gc_version e safe_point key keep v).1 rest)
                (gc_version-IsEncoded safe_point key keep v bound)
                (gc_versions-Collected safe_point key (gc_version e safe_point key keep v).1 rest
                  h))
      ]

  LoopsGc : ℕ → Type 0
  LoopsGc fuel =
      (safe_point : ℕ) (key : Bytes) (pairs : Pairs) (failure : Option Error) (acc : Batch)
      → All (RowPair e law) pairs
      → IsEncoded e acc
      → Collects e law (gc_loop e fuel safe_point key pairs failure acc)

  after_versions-Collects :
      (fuel safe_point : ℕ) (failure : Option Error) (acc : Batch)
      (r : Result (Batch × Bytes × Pairs))
      → LoopsGc fuel
      → Collected r
      → IsEncoded e acc
      → Collects e law (elim r [
        | err er ↦ some (err er)
        | ok (batch, next_key, next) ↦
            gc_loop e fuel safe_point next_key next failure (acc ++ batch)
      ])
  unfolding LoopsGc
  after_versions-Collects fuel safe_point failure acc (err er) loops h k = tt
  after_versions-Collects fuel safe_point failure acc (ok (batch, next_key, next)) loops (enc, h)
        k =
      loops safe_point next_key next failure (acc ++ batch) h (IsEncoded-append e acc batch k enc)

  unblocked-Collects :
      (blocked : Option ℕ) (er : ℕ → Error) (c : Option (Result Batch))
      → Collects e law c
      → Collects e law (elim blocked [ some start_ts ↦ some (err (er start_ts)) | none ↦ c ])
  unblocked-Collects none er c h = h
  unblocked-Collects (some start_ts) er c h = tt

  after_lock-Collects :
      (fuel safe_point : ℕ) (key : Bytes) (failure : Option Error) (acc : Batch)
      (r : Result (Option Lock × Pairs))
      → LoopsGc fuel
      → Decoded e law r
      → IsEncoded e acc
      → Collects e law (elim r [
        | err er ↦ some (err er)
        | ok (found, here) ↦ elim (blocks_gc e safe_point found) [
          | some start_ts ↦ some (err (lock_under_safe_point key start_ts safe_point))
          | none ↦ elim (gc_versions e safe_point key true here) [
            | err er ↦ some (err er)
            | ok (batch, next_key, next) ↦
                gc_loop e fuel safe_point next_key next failure (acc ++ batch)
          ]
        ]
      ])
  after_lock-Collects fuel safe_point key failure acc (err er) loops h k = tt
  after_lock-Collects fuel safe_point key failure acc (ok (l, here)) loops (fit, h) k =
      unblocked-Collects (blocks_gc e safe_point l)
        (λ start_ts. lock_under_safe_point key start_ts safe_point) _
        (after_versions-Collects fuel safe_point failure acc
          (gc_versions e safe_point key true here) loops
          (gc_versions-Collected safe_point key true here h) k)

  gc_loop-Collects : (fuel : ℕ) → LoopsGc fuel
  unfolding LoopsGc gc_loop
  gc_loop-Collects zero safe_point key pairs failure acc h k = tt
  gc_loop-Collects (suc fuel) safe_point key [] failure acc h k = k
  gc_loop-Collects (suc fuel) safe_point key (p ∷ rest) failure acc h k =
      after_lock-Collects fuel safe_point key failure acc (decode_lock e key (p ∷ rest) failure)
        (gc_loop-Collects fuel) (decode_lock-Decoded e law key (p ∷ rest) failure h) k

  gc_from-Collects :
      (s : Store e) (safe_point : ℕ) (it : Iterator) (first : Result Bytes)
      → All (RowPair e law) it.rest
      → Collects e law (gc_from e s safe_point (first >>= λ key. ok (it, key)))
  unfolding gc_from LoopsGc
  gc_from-Collects s safe_point it (err er) h = tt
  gc_from-Collects s safe_point it (ok key) h =
      gc_loop-Collects (suc (suc (length it.rest))) safe_point key it.rest it.failure [] h
        (IsEncoded-nil e)

  pub gc-IsWellFormed :
      (s t : Store e) (start_key end_key : Bytes) (safe_point : ℕ) (r : Result (Unit {0}))
      → IsWellFormed e s.edb
      → gc e s start_key end_key safe_point ≡ some (r, t)
      → IsWellFormed e t.edb
  unfolding gc new_scan_iterator
  gc-IsWellFormed s t start_key end_key safe_point r w q =
      let it = e.new_iterator s.edb (scan_start e start_key) (scan_limit e end_key) in
      write_collected-IsWellFormed e law s t
        (gc_from e s safe_point (new_scan_iterator e s.edb start_key end_key)) r w
        (gc_from-Collects s safe_point it (first_key e start_key it.rest)
          (RowPair-iterator e law s.edb (scan_start e start_key) (scan_limit e end_key) w))
        q
