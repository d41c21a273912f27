-- ===== src/Mvcc/Scan.antt =====
-- Scan of causetstore/mockstore/mockeinsteindb/mvcc_leveldb.go, and regionContains and MvccKey of
-- mvcc.go.
use mileva_db.Prelude.{
  ℕ, zero, suc, Bool, true, false, not, ◌&&◌, Option, none, some, List, [], ◌∷◌, ◌++◌, length,
}
use mileva_db.Bytes.{Bytes}
use mileva_db.Mvcc.Types.{Error, Result, ok, err}
use mileva_db.Mvcc.Env.{Env, Iterator, is_below}
use mileva_db.Mvcc.Lock.{IsolationLevel}
use mileva_db.Mvcc.Iter.{Pairs, skip_key}
use mileva_db.Mvcc.Reads.{Pair, batch_pair, get_value_at, new_scan_iterator}

-- How many pairs Scan may still append.
abbrev pub room_after : ℕ → List Pair → ℕ
room_after room [] = room
room_after zero (p ∷ found) = zero
room_after (suc room) (p ∷ found) = room

abbrev pub append_found : List Pair → Option (List Pair) → Option (List Pair)
append_found found none = none
append_found found (some more) = some (found ++ more)

module _ (e : Env) (ts : ℕ) (iso : IsolationLevel) (resolved : List ℕ) where
  -- The loop of Scan: the pair of the current key, if it reads as one, then the next key. An error
  -- met on the way to the next key is logged and ends the loop. `none`: the fuel ran out.
  unfoldable pub scan_loop : ℕ → (room : ℕ) → Bytes → Pairs → Option Error → Option (List Pair)
  scan_loop zero room curr_key pairs failure = none
  scan_loop (suc fuel) zero curr_key pairs failure = some []
  scan_loop (suc fuel) (suc room) curr_key pairs failure =
      let (value, here) = get_value_at e curr_key ts iso resolved pairs failure in
      let found = batch_pair e curr_key value [] in
      elim (skip_key e curr_key here failure) [
        | err er ↦ some found
        | ok (more, next_key, next) ↦ elim more [
          | false ↦ some found
          | true ↦
              append_found found
                (scan_loop fuel (room_after (suc room) found) next_key next failure)
        ]
      ]

  unfoldable pub scan_from : ℕ → Result (Iterator × Bytes) → Option (List Pair)
  unfolding scan_loop
  scan_from limit (err er) = some []
  scan_from limit (ok (it, curr_key)) =
      scan_loop (suc (suc (length it.rest))) limit curr_key it.rest it.failure

  unfoldable pub scan : e.Db → Bytes → Bytes → ℕ → Option (List Pair)
  unfolding scan_from
  scan db start_key end_key limit = scan_from limit (new_scan_iterator e db start_key end_key)

-- bytes.Compare with the bounds; an empty end is no bound
unfoldable pub region_contains : (start_key end_key key : Bytes) → Bool
region_contains start_key [] key = not (is_below key start_key)
region_contains start_key (b ∷ bs) key = not (is_below key start_key) && is_below key (b ∷ bs)

module _ (e : Env) where
  unfoldable pub new_mvcc_key : Bytes → Bytes
  new_mvcc_key [] = []
  new_mvcc_key (b ∷ bs) = e.encode_bytes [] (b ∷ bs)

  -- MvccKey.Raw; `none` where it panics
  unfoldable pub raw_key : Bytes → Option Bytes
  raw_key [] = some []
  raw_key (b ∷ bs) = elim (e.decode_bytes (b ∷ bs)) [ none ↦ none | some (rest, key) ↦ some key ]
