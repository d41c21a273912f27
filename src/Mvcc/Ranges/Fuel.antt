-- ===== src/Mvcc/Ranges/Fuel.antt =====
-- The fuel of the loops over keys: one unit for each pair, and one for a start key that is not there.
use mileva_db.Prelude.{ℕ, ◌≤◌, ◌≡◌, Bool, Option, none, some, List, [], ◌∷◌, ◌++◌, length}
use mileva_db.Bytes.{Bytes}
use mileva_db.Mvcc.Types.{Lock, Error, Result, ok, err}
use mileva_db.Mvcc.Env.{Env}
use mileva_db.Mvcc.Lock.{mvcc_decode}
use mileva_db.Mvcc.Iter.{Pairs, skip_key}
use mileva_db.Mvcc.Ranges.{lock_loop}

module _ (e : Env) where
  -- The first pair, if there is one, belongs to the key.
  abbrev HeadKey : Bytes → Pairs → Type 0
  HeadKey key [] = Unit
  HeadKey key (p ∷ rest) = (ver : ℕ) × (mvcc_decode e p.0 ≡ ok (key, ver))

  -- What a skip leaves, of pairs that are `n` at most.
  data Skipped (n : ℕ) : Result (Bool × Bytes × Pairs) → Type 0 where
    failed : (er : Error) → Skipped n (err er)
    left :
        (more : Bool) (key : Bytes) (next : Pairs)
        → length next ≤ n
        → HeadKey key next
        → Skipped n (ok (more, key, next))

  data Advanced (p : Bytes × Bytes) (rest : Pairs) : Result (Option Lock × Pairs) → Type 0 where
    undecoded : (er : Error) → Advanced p rest (err er)
    stays : Advanced p rest (ok (none, p ∷ rest))
    moves : (l : Lock) → Advanced p rest (ok (some l, rest))

module _ (e : Env) {A : Type 0} (body : Bytes → Option Lock → List A) (failure : Option Error) where
  abbrev Ends : ℕ → Bytes → Pairs → List A → Type 0
  Ends fuel curr_key pairs acc =
      (r : Result (List A)) × (lock_loop e fuel body curr_key pairs failure acc ≡ some r)

  abbrev next_round : ℕ → List A → Result (Bool × Bytes × Pairs) → Option (Result (List A))
  next_round fuel acc sk = elim sk [
    | err er ↦ some (err er)
    | ok (more, next_key, next) ↦ lock_loop e fuel body next_key next failure acc
  ]

  first_round : ℕ → Bytes → List A → Result (Option Lock × Pairs) → Option (Result (List A))
  first_round fuel curr_key acc d = elim d [
    | err er ↦ some (err er)
    | ok (found, here) ↦
        next_round fuel (acc ++ body curr_key found) (skip_key e curr_key here failure)
  ]
