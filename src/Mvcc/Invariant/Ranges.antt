-- ===== src/Mvcc/Invariant/Ranges.antt =====
-- ResolveLock, BatchResolveLock and the deletions of ranges against the invariant of
-- Mvcc/Invariant.
use mileva_db.Prelude.{
  ℕ, zero, suc, ◌<◌, ◌≡◌, refl, Bool, Option, none, some, List, [], ◌∷◌, ◌++◌, map, ltb, ◌==◌,
  Bool-cases, Option-cases, inl, inr, arith, All, length,
}
use mileva_db.Bytes.{Bytes}
use mileva_db.Mvcc.Types.{Error, Lock, Result, ok, err, lock_ver, ◌>>=◌}
use mileva_db.Mvcc.Env.{Env, IsLawful, Batch, Iterator, delete}
use mileva_db.Mvcc.Iter.{Pairs, decode_lock, skip_key}
use mileva_db.Mvcc.Reads.{scan_limit, scan_start, first_key, new_scan_iterator}
use mileva_db.Mvcc.Commit.{Store}
use mileva_db.Mvcc.Ranges.{
  lock_loop, for_each_lock, resolve, resolve_body, txn_info, batch_resolve_body, resolve_lock,
  batch_resolve_lock,
}
use mileva_db.Mvcc.Raw.{do_raw_delete_range}
use mileva_db.Mvcc.Rows.{load_ver, encode_row}
use mileva_db.Mvcc.Rows.Codec.{load_ver-lt}
use mileva_db.Mvcc.Rows.Writing.{apply_rows, delete_at, write-Holds}
use mileva_db.Mvcc.Invariant.{
  IsWellFormed, IsEncoded, IsEncoded-nil, IsEncoded-append, LockOk, commit_lock-IsEncoded,
  rollback_lock-IsEncoded,
}
use mileva_db.Mvcc.Invariant.Iterators.{
  RowPair, RowPair-iterator, Decoded, decode_lock-Decoded, Skips, skip_key-Skips, Collects,
  write_collected-IsWellFormed,
}

-- Both timestamps of each transaction are below the maximum.
abbrev pub InfosFit : List (ℕ × ℕ) → Type 0
InfosFit = All (λ (info : ℕ × ℕ). (info.0 < lock_ver) × (info.1 < lock_ver))

module _ (e : Env) (law : IsLawful e) (body : Bytes → Option Lock → Batch)
    (body_encodes : (key : Bytes) (l : Option Lock) → LockOk e l → IsEncoded e (body key l)) where
  Loops : ℕ → Type 0
  Loops fuel =
      (key : Bytes) (pairs : Pairs) (failure : Option Error) (acc : Batch)
      → All (RowPair e law) pairs
      → IsEncoded e acc
      → Collects e law (lock_loop e fuel body key pairs failure acc)

  after_skip-Collects :
      (fuel : ℕ) (failure : Option Error) (acc : Batch) (r : Result (Bool × Bytes × Pairs))
      → Loops fuel
      → Skips e law r
      → IsEncoded e acc
      → Collects e law (elim r [
        | err er ↦ some (err er)
        | ok (more, next_key, next) ↦ lock_loop e fuel body next_key next failure acc
      ])
  unfolding Loops
  after_skip-Collects fuel failure acc (err er) loops h k = tt
  after_skip-Collects fuel failure acc (ok (more, next_key, next)) loops h k =
      loops next_key next failure acc h k

  after_decode-Collects :
      (fuel : ℕ) (key : Bytes) (failure : Option Error) (acc : Batch)
      (r : Result (Option Lock × Pairs))
      → Loops fuel
      → Decoded e law r
      → IsEncoded e acc
      → Collects e law (elim r [
        | err er ↦ some (err er)
        | ok (found, here) ↦ elim (skip_key e key here failure) [
          | err er ↦ some (err er)
          | ok (more, next_key, next) ↦
              lock_loop e fuel body next_key next failure (acc ++ body key found)
        ]
      ])
  after_decode-Collects fuel key failure acc (err er) loops h k = tt
  after_decode-Collects fuel key failure acc (ok (l, here)) loops (fit, h) k =
      after_skip-Collects fuel failure (acc ++ body key l) (skip_key e key here failure) loops
        (skip_key-Skips e law key here failure h)
        (IsEncoded-append e acc (body key l) k (body_encodes key l fit))

  lock_loop-Collects : (fuel : ℕ) → Loops fuel
  unfolding Loops lock_loop
  lock_loop-Collects zero key pairs failure acc h k = tt
  lock_loop-Collects (suc fuel) key [] failure acc h k = k
  lock_loop-Collects (suc fuel) key (p ∷ rest) failure acc h k =
      after_decode-Collects fuel key failure acc (decode_lock e key (p ∷ rest) failure)
        (lock_loop-Collects fuel) (decode_lock-Decoded e law key (p ∷ rest) failure h) k

  started-Collects :
      (it : Iterator) (first : Result Bytes)
      → All (RowPair e law) it.rest
      → (let started : Result (Iterator × Bytes) = first >>= λ key. ok (it, key) in
          Collects e law (elim started [
            | err er ↦ some (err er)
            | ok (from, key) ↦
                lock_loop e (suc (suc (length from.rest))) body key from.rest from.failure []
          ]))
  unfolding Loops
  started-Collects it (err er) h = tt
  started-Collects it (ok key) h =
      lock_loop-Collects (suc (suc (length it.rest))) key it.rest it.failure [] h (IsEncoded-nil e)

  for_each_lock-Collects :
      (db : e.Db) (start_key end_key : Bytes)
      → IsWellFormed e db
      → Collects e law (for_each_lock e db start_key end_key body)
  unfolding for_each_lock new_scan_iterator
  for_each_lock-Collects db start_key end_key w =
      let it = e.new_iterator db (scan_start e start_key) (scan_limit e end_key) in
      started-Collects it (first_key e start_key it.rest)
        (RowPair-iterator e law db (scan_start e start_key) (scan_limit e end_key) w)

module _ (e : Env) (law : IsLawful e) where
  resolve-IsEncoded :
      (key : Bytes) (l : Lock) (commit_ts : ℕ)
      → LockOk e (some l)
      → l.start_ts < lock_ver
      → commit_ts < lock_ver
      → IsEncoded e (resolve e key l commit_ts)
  unfolding resolve
  resolve-IsEncoded key l commit_ts fit h k = elim (Bool-cases (ltb 0 commit_ts)) [
    | inl q ↦ rw q (commit_lock-IsEncoded e l key l.start_ts commit_ts fit h k)
    | inr q ↦ rw q (rollback_lock-IsEncoded e key l.start_ts h)
  ]

  resolve_body-IsEncoded :
      (start_ts commit_ts : ℕ)
      → start_ts < lock_ver
      → commit_ts < lock_ver
      → (key : Bytes) (l : Option Lock) → LockOk e l
      → IsEncoded e (resolve_body e start_ts commit_ts key l)
  unfolding resolve_body
  resolve_body-IsEncoded start_ts commit_ts h k key none fit = IsEncoded-nil e
  resolve_body-IsEncoded start_ts commit_ts h k key (some l) fit =
      elim (Bool-cases (l.start_ts == start_ts)) [
        | inl q ↦ rw q (resolve-IsEncoded key l commit_ts fit (ground arith) k)
        | inr q ↦ rw q (IsEncoded-nil e)
      ]

  pub resolve_lock-IsWellFormed :
      (s t : Store e) (start_key end_key : Bytes) (start_ts commit_ts : ℕ) (r : Result (Unit {0}))
      → start_ts < lock_ver
      → commit_ts < lock_ver
      → IsWellFormed e s.edb
      → resolve_lock e s start_key end_key start_ts commit_ts ≡ some (r, t)
      → IsWellFormed e t.edb
  unfolding resolve_lock
  resolve_lock-IsWellFormed s t start_key end_key start_ts commit_ts r h k w q =
      write_collected-IsWellFormed e law s t
        (for_each_lock e s.edb start_key end_key (resolve_body e start_ts commit_ts)) r w
        (for_each_lock-Collects e law (resolve_body e start_ts commit_ts)
          (resolve_body-IsEncoded start_ts commit_ts h k) s.edb start_key end_key w)
        q

  txn_info-fits :
      (infos : List (ℕ × ℕ)) (start_ts commit_ts : ℕ)
      → InfosFit infos
      → txn_info e infos start_ts ≡ some commit_ts
      → (start_ts < lock_ver) × (commit_ts < lock_ver)
  txn_info-fits [] start_ts commit_ts h q = absurd (cc)
  txn_info-fits ((ts, c) ∷ infos) start_ts commit_ts h q = elim (Bool-cases (start_ts == ts)) [
    | inl same ↦ let e' : c ≡ commit_ts = ground arith in (ground (arith, h.0), ground (arith, h.0))
    | inr other ↦ txn_info-fits infos start_ts commit_ts h.1 (ground arith)
  ]

  batch_resolve_body-IsEncoded :
      (infos : List (ℕ × ℕ))
      → InfosFit infos
      → (key : Bytes) (l : Option Lock) → LockOk e l
      → IsEncoded e (batch_resolve_body e infos key l)
  unfolding batch_resolve_body
  batch_resolve_body-IsEncoded infos h key none fit = IsEncoded-nil e
  batch_resolve_body-IsEncoded infos h key (some l) fit =
      elim (Option-cases (txn_info e infos l.start_ts)) [
        | inl q ↦ rw (q, batch_resolve_body) (IsEncoded-nil e)
        | inr (commit_ts, q) ↦
            let fits = txn_info-fits infos l.start_ts commit_ts h q in
            rw (q, batch_resolve_body) (resolve-IsEncoded key l commit_ts fit fits.0 fits.1)
      ]

  pub batch_resolve_lock-IsWellFormed :
      (s t : Store e) (start_key end_key : Bytes) (infos : List (ℕ × ℕ)) (r : Result (Unit {0}))
      → InfosFit infos
      → IsWellFormed e s.edb
      → batch_resolve_lock e s start_key end_key infos ≡ some (r, t)
      → IsWellFormed e t.edb
  unfolding batch_resolve_lock
  batch_resolve_lock-IsWellFormed s t start_key end_key infos r h w q =
      write_collected-IsWellFormed e law s t
        (for_each_lock e s.edb start_key end_key (batch_resolve_body e infos)) r w
        (for_each_lock-Collects e law (batch_resolve_body e infos)
          (batch_resolve_body-IsEncoded infos h) s.edb start_key end_key w)
        q

  -- The deletions of the pairs that an iterator gives.
  deletes-IsEncoded :
      (pairs : Pairs)
      → All (RowPair e law) pairs
      → IsEncoded e (map (λ (kv : Bytes × Bytes). delete kv.0) pairs)
  unfolding encode_row
  deletes-IsEncoded [] h = IsEncoded-nil e
  deletes-IsEncoded (p ∷ rest) ((r, q, fit), h) =
      let later = deletes-IsEncoded rest h in
      record {
        ops = delete_at r.key (load_ver r.load) ∷ later.ops;
        encodes = rw (q, later.encodes) refl;
        fit = (load_ver-lt e law r.load fit, later.fit);
      }

  pub do_raw_delete_range-IsWellFormed :
      (s : Store e) (start_key : Bytes) (end_key : Option Bytes)
      → IsWellFormed e s.edb
      → IsWellFormed e (do_raw_delete_range e s start_key end_key).1.edb
  unfolding do_raw_delete_range
  do_raw_delete_range-IsWellFormed s start_key end_key w =
      let pairs = (e.new_iterator s.edb start_key end_key).rest in
      let enc = deletes-IsEncoded pairs (RowPair-iterator e law s.edb start_key end_key w) in
      let (db, written, holds) = write-Holds e law s.edb w.rows enc.ops w.holds enc.fit in
      let kept : IsWellFormed e db = record { rows = apply_rows enc.ops w.rows; holds = holds } in
      rw (enc.encodes, do_raw_delete_range, written) kept
