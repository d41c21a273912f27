-- ===== src/Solomonkey/UnionIter/Terminates.antt =====
-- The loop of uFIDelateCur ends.
use mileva_db.Prelude.{
  Order-cases, is_lt, is_eq, is_gt, ℕ, zero, suc, ◌<◌, ◌≡◌, refl, sym, Bool, true, false, arith,
  Bool-cases, inl, inr,
}
use mathlib.Core.Path.{subst}
use mileva_db.Solomonkey.UnionIter.{
  Cursor, finished, at, cursor_size, cursor_valid, UnionIter, Outcome, out_of_fuel, failed, settled,
  dirty_next, snapshot_next, both_valid, update_round, update_loop, update_cur, new_union_iter,
  union_next, iter_cmp, is_empty, cursor_next, next_fails,
}

-- The flags that the iterator keeps are those of the iterators below it.
abbrev pub iter_at : Cursor → Cursor → Bool → Bool → Bool → UnionIter
iter_at d s cur valid reverse = record {
  dirty_it = d;
  snapshot_it = s;
  dirty_valid = cursor_valid d;
  snapshot_valid = cursor_valid s;
  cur_is_dirty = cur;
  is_valid = valid;
  reverse = reverse;
}

abbrev pub IsConsistent : UnionIter → Type 0
IsConsistent i = i ≡ iter_at i.dirty_it i.snapshot_it i.cur_is_dirty i.is_valid i.reverse

-- An outcome that is not the end of the fuel, with flags that are right.
abbrev pub Ends : Outcome → Type 0
Ends out_of_fuel = ⊥
Ends (failed i) = IsConsistent i
Ends (settled i) = IsConsistent i

dirty_next-Ends :
    (d s : Cursor) (cur valid reverse : Bool) (again : UnionIter → Outcome)
    → Ends (again (iter_at (cursor_next d) s cur valid reverse))
    → Ends (dirty_next (iter_at d s cur valid reverse) again)
unfolding dirty_next
dirty_next-Ends d s cur valid reverse again h = elim (Bool-cases (next_fails d)) [
  | inl e ↦ rw e refl
  | inr e ↦ rw e h
]

snapshot_next-Ends :
    (d s : Cursor) (cur valid reverse : Bool) (again : UnionIter → Outcome)
    → Ends (again (iter_at d (cursor_next s) cur valid reverse))
    → Ends (snapshot_next (iter_at d s cur valid reverse) again)
unfolding snapshot_next
snapshot_next-Ends d s cur valid reverse again h = elim (Bool-cases (next_fails s)) [
  | inl e ↦ rw e refl
  | inr e ↦ rw e h
]

update_loop-Ends :
    (fuel : ℕ) (d s : Cursor) (cur valid reverse : Bool)
    → cursor_size d < fuel
    → Ends (update_loop fuel (iter_at d s cur valid reverse))
unfolding update_loop update_round both_valid cursor_size iter_cmp
update_loop-Ends zero d s cur valid reverse h = absurd (omega (arith, h))
update_loop-Ends (suc fuel) (finished fails) (finished f) cur valid reverse h = refl
update_loop-Ends (suc fuel) (finished fails) (at j w f s) cur valid reverse h = refl
update_loop-Ends (suc fuel) (at k v fails d) (finished f) cur valid reverse h =
    elim (Bool-cases (is_empty v)) [
      | inl e ↦ rw e (
          dirty_next-Ends (at k v fails d) (finished f) true valid reverse _
            (update_loop-Ends fuel d (finished f) true valid reverse (omega (arith, h))))
      | inr e ↦ rw e refl
    ]
update_loop-Ends (suc fuel) (at k v fails d) (at j w f s) cur valid reverse h =
    let next = λ (t : Cursor). update_loop-Ends fuel d t cur valid reverse (omega (arith, h)) in
    elim (Order-cases (iter_cmp reverse k j)) [
      | is_lt e ↦ rw e (elim (Bool-cases (is_empty v)) [
        | inl p ↦
            rw p (
              dirty_next-Ends (at k v fails d) (at j w f s) cur valid reverse _ (next (at j w f s)))
        | inr p ↦ rw p refl
      ])
      | is_eq e ↦ rw e (elim (Bool-cases (is_empty v)) [
        | inl p ↦ rw p (
            dirty_next-Ends (at k v fails d) (at j w f s) cur valid reverse _
              (snapshot_next-Ends d (at j w f s) cur valid reverse _ (next s)))
        | inr p ↦ rw p (snapshot_next-Ends (at k v fails d) (at j w f s) cur valid reverse _ refl)
      ])
      | is_gt e ↦ rw e refl
    ]

update_cur-Ends :
    (d s : Cursor) (cur valid reverse : Bool) → Ends (update_cur (iter_at d s cur valid reverse))
unfolding update_cur
update_cur-Ends d s cur valid reverse =
    update_loop-Ends (suc (cursor_size d)) d s cur true reverse (omega arith)

-- A new union iterator is settled, or failed by an error of an iterator below it, with flags that are
-- right: the loop of uFIDelateCur ends.
pub new_union_iter-Ends : (d s : Cursor) (reverse : Bool) → Ends (new_union_iter d s reverse)
unfolding new_union_iter
new_union_iter-Ends d s reverse = update_cur-Ends d s false false reverse

next-Ends :
    (d s : Cursor) (cur valid reverse : Bool) → Ends (union_next (iter_at d s cur valid reverse))
unfolding union_next
next-Ends d s true valid reverse =
    dirty_next-Ends d s true valid reverse update_cur
      (update_cur-Ends (cursor_next d) s true valid reverse)
next-Ends d s false valid reverse =
    snapshot_next-Ends d s false valid reverse update_cur
      (update_cur-Ends d (cursor_next s) false valid reverse)

-- Next of a union iterator whose flags are those of the iterators below it ends, whatever these are:
-- it is settled, or failed by an error of one of them, and its flags are right again.
pub union_next-Ends : (i : UnionIter) → IsConsistent i → Ends (union_next i)
unfolding union_next
union_next-Ends i h =
    subst (λ j. Ends (union_next j)) (sym h)
      (next-Ends i.dirty_it i.snapshot_it i.cur_is_dirty i.is_valid i.reverse)
