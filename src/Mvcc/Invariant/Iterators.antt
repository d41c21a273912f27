-- ===== src/Mvcc/Invariant/Iterators.antt =====
-- The pairs that an iterator gives on a well-formed database, and what the decoders make of them.
use mathlib.Core.Option.{some-injective}
use mathlib.Core.Path.{subst}
use mileva_db.Prelude.{
  ℕ, ◌≡◌, refl, Bool, true, false, not, Option, none, some, List, [], ◌∷◌, map, ◌&&◌, Bool-cases,
  inl, inr, if◌then◌else◌, All,
}
use mileva_db.Bytes.{Bytes, bytes_equal}
use mileva_db.Mvcc.Types.{Error, Lock, Result, ok, err, ◌>>=◌}
use mileva_db.Mvcc.Env.{Env, IsLawful, Batch, in_range, is_below, below_limit}
use mileva_db.Mvcc.Lock.{mvcc_decode}
use mileva_db.Mvcc.Iter.{Pairs, advance_lock, decode_lock, skip_loop, skip_key}
use mileva_db.Mvcc.Commit.{Store}
use mileva_db.Mvcc.Ranges.{write_collected}
use mileva_db.Mvcc.Rows.{
  Load, lock_load, value_load, load_lock, lock_here, Row, encode_row, LoadFits, RowsFit,
}
use mileva_db.Mvcc.Rows.Codec.{decode_lock_pair-encode_row}
use mileva_db.Mvcc.Invariant.{IsWellFormed, Yields, LockOk, write_batch-IsWellFormed}

-- What iterators give: pairs that encode rows.
module _ (e : Env) (law : IsLawful e) where
  abbrev pub RowPair : Bytes × Bytes → Type 0
  RowPair p = (r : Row) × (p ≡ encode_row e r) × LoadFits e r.load

  RowPair-map : (rows : List Row) → RowsFit e rows → All RowPair (map (encode_row e) rows)
  RowPair-map [] fit = tt
  RowPair-map (r ∷ rs) fit = ((r, refl, fit.0), RowPair-map rs fit.1)

  RowPair-in_range :
      (start : Bytes) (limit : Option Bytes) (l : Pairs)
      → All RowPair l
      → All RowPair (in_range start limit l)
  unfolding in_range
  RowPair-in_range start limit [] h = tt
  RowPair-in_range start limit ((k, v) ∷ l) h =
      elim (Bool-cases (not (is_below k start) && below_limit limit k)) [
        | inl q ↦ rw q (h.0, RowPair-in_range start limit l h.1)
        | inr q ↦ rw q (RowPair-in_range start limit l h.1)
      ]

  pub RowPair-iterator :
      (db : e.Db) (start : Bytes) (limit : Option Bytes)
      → IsWellFormed e db
      → All RowPair (e.new_iterator db start limit).rest
  RowPair-iterator db start limit w =
      let from : All RowPair (in_range start limit (map (encode_row e) w.rows)) =
        RowPair-in_range start limit (map (encode_row e) w.rows) (RowPair-map w.rows w.holds.fit) in
      rw (law.iterates db start limit, w.holds.stored) from

  abbrev pub Decoded : Result (Option Lock × Pairs) → Type 0
  Decoded (err er) = Unit
  Decoded (ok (l, here)) = LockOk e l × All RowPair here

  lock_here-LockOk : (key : Bytes) (r : Row) → LoadFits e r.load → LockOk e (lock_here key r)
  lock_here-LockOk key r fit = load-LockOk (bytes_equal r.key key) r.load fit
    where
      load-LockOk :
          (b : Bool) (l : Load) → LoadFits e l → LockOk e (if b then load_lock l else none)
      load-LockOk false l fit = tt
      load-LockOk true (lock_load l) fit = fit
      load-LockOk true (value_load v) fit = tt

  advance-Decoded :
      (l : Option Lock) (here next : Pairs)
      → LockOk e l
      → All RowPair here
      → All RowPair next
      → Decoded (ok (advance_lock e here next l))
  advance-Decoded none here next fit h k = (fit, h)
  advance-Decoded (some l) here next fit h k = (fit, k)

  pub decode_lock-Decoded :
      (key : Bytes) (pairs : Pairs) (failure : Option Error)
      → All RowPair pairs
      → Decoded (decode_lock e key pairs failure)
  unfolding decode_lock
  decode_lock-Decoded key [] none h = (tt, tt)
  decode_lock-Decoded key [] (some er) h = tt
  decode_lock-Decoded key (p ∷ rest) failure ((r, q, fit), h) =
      let front : All RowPair (encode_row e r ∷ rest) = ((r, refl, fit), h) in
      rw (q, decode_lock_pair-encode_row e law key r fit)
        (advance-Decoded (lock_here key r) (encode_row e r ∷ rest) rest (lock_here-LockOk key r fit)
          front h)

  abbrev pub Skips : Result (Bool × Bytes × Pairs) → Type 0
  Skips (err er) = Unit
  Skips (ok x) = All RowPair x.2

  skip-Skips :
      (curr_key : Bytes) (r : Result (Bytes × ℕ)) (further : Result (Bool × Bytes × Pairs))
      (here : Pairs)
      → Skips further
      → All RowPair here
      → Skips (r >>= λ x. if bytes_equal x.0 curr_key then further else ok (true, x.0, here))
  skip-Skips curr_key (err er) further here h k = tt
  skip-Skips curr_key (ok (key, ver)) further here h k =
      elim (Bool-cases (bytes_equal key curr_key)) [ inl q ↦ rw q h | inr q ↦ rw q k ]

  skip_loop-Skips :
      (curr_key : Bytes) (pairs : Pairs) → All RowPair pairs → Skips (skip_loop e curr_key pairs)
  unfolding skip_loop
  skip_loop-Skips curr_key [] h = tt
  skip_loop-Skips curr_key ((k, v) ∷ rest) h =
      skip-Skips curr_key (mvcc_decode e k) (skip_loop e curr_key rest) ((k, v) ∷ rest)
        (skip_loop-Skips curr_key rest h.1) h

  pub skip_key-Skips :
      (curr_key : Bytes) (pairs : Pairs) (failure : Option Error)
      → All RowPair pairs
      → Skips (skip_key e curr_key pairs failure)
  unfolding skip_key
  skip_key-Skips curr_key [] none h = tt
  skip_key-Skips curr_key [] (some er) h = tt
  skip_key-Skips curr_key (p ∷ rest) failure h = skip_loop-Skips curr_key (p ∷ rest) h

  -- What a loop collects, if it ends without an error, is a batch of encoded records.
  abbrev pub Collects : Option (Result Batch) → Type 0
  Collects none = Unit
  Collects (some r) = Yields e r

  pub write_collected-IsWellFormed :
      (s t : Store e) (c : Option (Result Batch)) (r : Result (Unit {0}))
      → IsWellFormed e s.edb
      → Collects c
      → write_collected e s c ≡ some (r, t)
      → IsWellFormed e t.edb
  write_collected-IsWellFormed s t none r w h q = absurd (cc)
  write_collected-IsWellFormed s t (some (err er)) r w h q =
      subst (λ x. IsWellFormed e x.1.edb) (some-injective _ _ q) w
  write_collected-IsWellFormed s t (some (ok batch)) r w h q =
      subst (λ x. IsWellFormed e x.1.edb) (some-injective _ _ q)
        (write_batch-IsWellFormed e law s batch tt w h)
