-- ===== src/Solomonkey/UnionIter/Overlay/Loop.antt =====
-- Where the loop of uFIDelateCur stops, on iterators that meet no error.
use mathlib.Core.Path.{subst}
use mileva_db.Prelude.{
  ℕ, zero, suc, ◌<◌, ◌≡◌, inl, inr, refl, sym, Bool, true, false, [], ◌∷◌, lt, arith, length,
  Order-cases, is_lt, is_eq, is_gt, Bool-cases,
}
use mileva_db.Bytes.{Bytes, bytes_equal, eq_of_bytes_equal}
use mileva_db.Mvcc.Env.{find_pair}
use mileva_db.Solomonkey.UnionIter.{
  UnionIter, Outcome, dirty_next, snapshot_next, both_valid, is_empty, update_round, update_loop,
  update_cur, iter_cmp,
}
use mileva_db.Solomonkey.UnionIter.Terminates.{iter_at}
use mileva_db.Solomonkey.UnionIter.Order.{
  eq_of_iter_cmp, lt_of_iter_gt, After, Ordered, After-trans, find_pair-After, overlay,
}
use mileva_db.Solomonkey.UnionIter.Overlay.{
  Pairs, source, cursor_size-source, Settles, skipped, dirty_first, snapshot_first,
}

-- The deletion at the front of the buffer does not count where nothing else has its key.
deletion_same :
    (r : Bool) (k v q : Bytes) (d s s' : Pairs)
    → is_empty v ≡ true
    → After r k d
    → After r k s'
    → (bytes_equal k q ≡ false → find_pair q s ≡ find_pair q s')
    → overlay q ((k, v) ∷ d) s ≡ overlay q d s'
unfolding overlay find_pair
deletion_same r k v q d s s' e ad ba same = elim (Bool-cases (bytes_equal k q)) [
  | inl p ↦
      let i : k ≡ q = eq_of_bytes_equal k q p in
      rw (p, sym i, find_pair-After r k d ad, find_pair-After r k s' ba) (ground (arith, e))
  | inr p ↦ rw (p, same p) refl
]

not_first :
    (k j w q : Bytes) (s : Pairs)
    → k ≡ j
    → bytes_equal k q ≡ false
    → find_pair q ((j, w) ∷ s) ≡ find_pair q s
unfolding find_pair
not_first k j w q s e h = ground (arith, h, e)

module _ (r : Bool) where
  both_valid-Settles :
      (k v : Bytes) (d : Pairs) (j w : Bytes) (s : Pairs) (again : UnionIter → Outcome) (cur : Bool)
      → Ordered r ((k, v) ∷ d)
      → Ordered r ((j, w) ∷ s)
      → ((t : Pairs)
          → Ordered r t
          → Settles r d t (again (iter_at (source d) (source t) cur true r)))
      → Settles r
          ((k, v) ∷ d)
          ((j, w) ∷ s)
          (both_valid again (iter_at (source ((k, v) ∷ d)) (source ((j, w) ∷ s)) cur true r))
  unfolding both_valid dirty_next snapshot_next iter_cmp overlay
  both_valid-Settles k v d j w s again cur od os go_on = elim (Order-cases (iter_cmp r k j)) [
    | is_lt e ↦
        let behind : After r k ((j, w) ∷ s) = (e, After-trans r k j s e os.0) in
        elim (Bool-cases (is_empty v)) [
          | inl p ↦
              rw (e, p)
                (skipped r ((k, v) ∷ d) ((j, w) ∷ s) d ((j, w) ∷ s) _
                  (λ q. deletion_same r k v q d ((j, w) ∷ s) ((j, w) ∷ s) p od.0 behind (λ n. refl))
                  (λ k' a b. (a.1, b)) (omega arith) (go_on ((j, w) ∷ s) os))
          | inr p ↦ inr (
              dirty_first r k v d ((j, w) ∷ s) ((j, w) ∷ s) _ (rw (e, p) refl) p od os behind
                (omega arith) (λ q n. refl))
        ]
    | is_eq e ↦
        let i : k ≡ j = eq_of_iter_cmp r k j e in
        let behind : After r k s = subst (λ x. After r x s) (sym i) os.0 in
        elim (Bool-cases (is_empty v)) [
          | inl p ↦
              rw (e, p)
                (skipped r ((k, v) ∷ d) ((j, w) ∷ s) d s _
                  (λ q.
                    deletion_same r k v q d ((j, w) ∷ s) s p od.0 behind (not_first k j w q s i))
                  (λ k' a b. (a.1, b.1)) (omega arith) (go_on s os.1))
          | inr p ↦ inr (
              dirty_first r k v d ((j, w) ∷ s) s _ (rw (e, p) refl) p od os.1 behind (omega arith)
                (λ q. not_first k j w q s i))
        ]
    | is_gt e ↦
        let c : iter_cmp r j k ≡ lt = lt_of_iter_gt r k j e in
        inr
          (snapshot_first r j w ((k, v) ∷ d) s _ (rw e refl) od os (c, After-trans r j k d c od.0))
  ]

  update_loop-Settles :
      (fuel : ℕ) (d s : Pairs) (cur : Bool)
      → length d < fuel
      → Ordered r d
      → Ordered r s
      → Settles r d s (update_loop fuel (iter_at (source d) (source s) cur true r))
  unfolding update_loop update_round dirty_next
  update_loop-Settles zero d s cur h od os = absurd (omega (arith, h))
  update_loop-Settles (suc fuel) [] [] cur h od os =
      unfold overlay find_pair in inl ((cur, refl), λ q. refl)
  update_loop-Settles (suc fuel) [] ((j, w) ∷ s) cur h od os =
      inr (snapshot_first r j w [] s _ refl od os tt)
  update_loop-Settles (suc fuel) ((k, v) ∷ d) [] cur h od os = elim (Bool-cases (is_empty v)) [
    | inl e ↦ rw e (
        skipped r ((k, v) ∷ d) [] d [] _ (λ q. deletion_same r k v q d [] [] e od.0 tt (λ p. refl))
          (λ k' a b. (a.1, tt)) (omega arith)
          (update_loop-Settles fuel d [] true (omega (arith, h)) od.1 tt))
    | inr e ↦ inr (dirty_first r k v d [] [] _ (rw e refl) e od tt tt (omega arith) (λ q p. refl))
  ]
  update_loop-Settles (suc fuel) ((k, v) ∷ d) ((j, w) ∷ s) cur h od os =
      both_valid-Settles k v d j w s (update_loop fuel) cur od os
        (λ t ot. update_loop-Settles fuel d t cur (omega (arith, h)) od.1 ot)

  pub update_cur-Settles :
      (d s : Pairs) (cur valid : Bool)
      → Ordered r d
      → Ordered r s
      → Settles r d s (update_cur (iter_at (source d) (source s) cur valid r))
  unfolding update_cur
  update_cur-Settles d s cur valid od os =
      update_loop-Settles _ d s cur (omega (arith, cursor_size-source d)) od os
