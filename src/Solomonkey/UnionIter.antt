-- ===== src/Solomonkey/UnionIter.antt =====
-- The iterator on a buffer of writes over a snapshot, solomonkey/union_iter.go. The iterators below
-- it are an interface: each is given by the pairs it stands at and what its Next returns there.
pub mod Order
pub mod Terminates
pub mod Overlay
use mileva_db.Prelude.{
  ℕ, zero, suc, ◌+◌, ◌≡◌, Bool, true, false, not, ◌&&◌, Option, none, some, List, [], ◌∷◌, ◌++◌,
  Ordering, lt, gt, eq, if◌then◌else◌,
}
use mileva_db.Bytes.{Bytes}
use mileva_db.Solomonkey.Key.{cmp_key}

-- An Iterator of the interface: not valid, or at a pair. The Boolean says whether Next has an error
-- there.
pub data Cursor : Type 0 where
  finished : (fails : Bool) → Cursor
  at : (key value : Bytes) (fails : Bool) (later : Cursor) → Cursor

abbrev pub cursor_valid : Cursor → Bool
cursor_valid (finished fails) = false
cursor_valid (at k v fails later) = true

abbrev pub cursor_key : Cursor → Bytes
cursor_key (finished fails) = []
cursor_key (at k v fails later) = k

abbrev pub cursor_value : Cursor → Bytes
cursor_value (finished fails) = []
cursor_value (at k v fails later) = v

abbrev pub cursor_next : Cursor → Cursor
cursor_next (finished fails) = finished fails
cursor_next (at k v fails later) = later

abbrev pub next_fails : Cursor → Bool
next_fails (finished fails) = fails
next_fails (at k v fails later) = fails

unfoldable pub cursor_size : Cursor → ℕ
cursor_size (finished fails) = 0
cursor_size (at k v fails later) = suc (cursor_size later)

pub record UnionIter : Type 0 where
  pub dirty_it : Cursor
  pub snapshot_it : Cursor
  pub dirty_valid : Bool
  pub snapshot_valid : Bool
  pub cur_is_dirty : Bool
  pub is_valid : Bool
  pub reverse : Bool

-- How uFIDelateCur ends: with an error, with nil, or at the end of the fuel.
pub data Outcome : Type 0 where
  out_of_fuel : Outcome
  failed settled : UnionIter → Outcome

abbrev pub set_valid : Bool → UnionIter → UnionIter
set_valid b iter = record {
  dirty_it = iter.dirty_it;
  snapshot_it = iter.snapshot_it;
  dirty_valid = iter.dirty_valid;
  snapshot_valid = iter.snapshot_valid;
  cur_is_dirty = iter.cur_is_dirty;
  is_valid = b;
  reverse = iter.reverse;
}

abbrev pub set_cur : Bool → UnionIter → UnionIter
set_cur b iter = record {
  dirty_it = iter.dirty_it;
  snapshot_it = iter.snapshot_it;
  dirty_valid = iter.dirty_valid;
  snapshot_valid = iter.snapshot_valid;
  cur_is_dirty = b;
  is_valid = iter.is_valid;
  reverse = iter.reverse;
}

-- dirtyNext and snapshotNext, then the rest of the work unless there was an error.
unfoldable pub dirty_next : UnionIter → (UnionIter → Outcome) → Outcome
dirty_next iter go_on =
    let moved : UnionIter = record {
      dirty_it = cursor_next iter.dirty_it;
      snapshot_it = iter.snapshot_it;
      dirty_valid = cursor_valid (cursor_next iter.dirty_it);
      snapshot_valid = iter.snapshot_valid;
      cur_is_dirty = iter.cur_is_dirty;
      is_valid = iter.is_valid;
      reverse = iter.reverse;
    } in
    if next_fails iter.dirty_it then failed moved else go_on moved

unfoldable pub snapshot_next : UnionIter → (UnionIter → Outcome) → Outcome
snapshot_next iter go_on =
    let moved : UnionIter = record {
      dirty_it = iter.dirty_it;
      snapshot_it = cursor_next iter.snapshot_it;
      dirty_valid = iter.dirty_valid;
      snapshot_valid = cursor_valid (cursor_next iter.snapshot_it);
      cur_is_dirty = iter.cur_is_dirty;
      is_valid = iter.is_valid;
      reverse = iter.reverse;
    } in
    if next_fails iter.snapshot_it then failed moved else go_on moved

abbrev pub is_empty : Bytes → Bool
is_empty [] = true
is_empty (b ∷ bs) = false

-- `cmp = -cmp` when the order is reversed.
unfoldable pub negate : Ordering → Ordering
negate lt = gt
negate eq = eq
negate gt = lt

unfoldable pub iter_cmp : Bool → Bytes → Bytes → Ordering
iter_cmp reverse j k = if reverse then negate (cmp_key j k) else cmp_key j k

-- The branch in which both iterators are valid; `again` is `continue`.
unfoldable pub both_valid : (UnionIter → Outcome) → UnionIter → Outcome
both_valid again iter =
    elim (iter_cmp iter.reverse (cursor_key iter.dirty_it) (cursor_key iter.snapshot_it)) [
      | eq ↦
          if is_empty (cursor_value iter.dirty_it)
          then dirty_next iter (λ moved. snapshot_next moved again)
          else snapshot_next iter (λ moved. settled (set_cur true moved))
      | gt ↦ settled (set_cur false iter)
      | lt ↦
          if is_empty (cursor_value iter.dirty_it)
          then dirty_next iter again
          else settled (set_cur true iter)
    ]

-- One round of the loop of uFIDelateCur.
unfoldable pub update_round : (UnionIter → Outcome) → UnionIter → Outcome
update_round again iter =
    if not iter.dirty_valid && not iter.snapshot_valid
    then settled (set_valid false iter)
    else if not iter.dirty_valid
    then settled (set_cur false iter)
    else if not iter.snapshot_valid
    then if is_empty (cursor_value iter.dirty_it)
      then dirty_next (set_cur true iter) again
      else settled (set_cur true iter)
    else both_valid again iter

unfoldable pub update_loop : ℕ → UnionIter → Outcome
update_loop zero iter = out_of_fuel
update_loop (suc fuel) iter = update_round (update_loop fuel) iter

-- uFIDelateCur: each `continue` comes after a move of the dirty iterator.
unfoldable pub update_cur : UnionIter → Outcome
update_cur iter = update_loop (suc (cursor_size iter.dirty_it)) (set_valid true iter)

unfoldable pub new_union_iter : Cursor → Cursor → Bool → Outcome
new_union_iter dirty snapshot reverse = update_cur record {
  dirty_it = dirty;
  snapshot_it = snapshot;
  dirty_valid = cursor_valid dirty;
  snapshot_valid = cursor_valid snapshot;
  cur_is_dirty = false;
  is_valid = false;
  reverse = reverse;
}

unfoldable pub union_next : UnionIter → Outcome
union_next iter =
    if iter.cur_is_dirty then dirty_next iter update_cur else snapshot_next iter update_cur

unfoldable pub union_key : UnionIter → Bytes
union_key iter = if iter.cur_is_dirty then cursor_key iter.dirty_it else cursor_key iter.snapshot_it

unfoldable pub union_value : UnionIter → Bytes
union_value iter =
    if iter.cur_is_dirty then cursor_value iter.dirty_it else cursor_value iter.snapshot_it

-- `for it.Valid() { use it.Key(), it.Value(); it.Next() }`: the pairs that a client reads, and
-- whether the loop came to its end without an error.
unfoldable pub drain : ℕ → Outcome → List (Bytes × Bytes) × Bool
drain fuel out_of_fuel = ([], false)
drain fuel (failed iter) = ([], false)
drain zero (settled iter) = ([], not iter.is_valid)
drain (suc fuel) (settled iter) =
    if iter.is_valid
    then (let rest = drain fuel (union_next iter) in
        ((union_key iter, union_value iter) ∷ rest.0, rest.1))
    else ([], true)
