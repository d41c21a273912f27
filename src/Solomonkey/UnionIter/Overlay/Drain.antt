-- ===== src/Solomonkey/UnionIter/Overlay/Drain.antt =====
-- The loop of a client over a union iterator, from NewUnionIter to the end.
use mileva_db.Prelude.{
  ℕ, zero, suc, ◌+◌, ◌≤◌, ◌≡◌, inl, inr, refl, sym, Bool, true, false, ◌∷◌, arith, length,
}
use mileva_db.Bytes.{Bytes}
use mileva_db.Mvcc.Env.{find_pair}
use mileva_db.Solomonkey.UnionIter.{
  UnionIter, union_key, union_value, Outcome, settled, drain, new_union_iter, union_next,
}
use mileva_db.Solomonkey.UnionIter.Order.{After, After-trans, Ordered, overlay}
use mileva_db.Solomonkey.UnionIter.Overlay.{Pairs, source, Settles}
use mileva_db.Solomonkey.UnionIter.Overlay.Loop.{update_cur-Settles}

drain_pair :
    (fuel : ℕ) (iter : UnionIter)
    → iter.is_valid ≡ true
    → drain (suc fuel) (settled iter) ≡ (
      (union_key iter, union_value iter) ∷ (drain fuel (union_next iter)).0,
      (drain fuel (union_next iter)).1,
    )
unfolding drain
drain_pair fuel iter e = simp e refl

module _ (r : Bool) where
  -- What a client reads is the overlay, in order, to its end.
  abbrev Reads : Pairs → Pairs → Pairs × Bool → Type 0
  Reads d s read =
      (read.1 ≡ true)
      × Ordered r read.0
      × ((q : Bytes) → find_pair q read.0 ≡ overlay q d s)
      × ((k : Bytes) → After r k d → After r k s → After r k read.0)

  drain-Reads :
      (fuel : ℕ) (d s : Pairs) (o : Outcome)
      → length d + length s ≤ fuel
      → Settles r d s o
      → Reads d s (drain fuel o)
  unfolding drain find_pair
  drain-Reads zero d s o h (inl ((cur, e), gone)) = rw e (refl, tt, λ q. sym (gone q), λ k a b. tt)
  drain-Reads (suc fuel) d s o h (inl ((cur, e), gone)) =
      rw e (refl, tt, λ q. sym (gone q), λ k a b. tt)
  drain-Reads zero d s o h (inr p) = absurd (omega (arith, h, p.shorter))
  drain-Reads (suc fuel) d s o h (inr p) =
      let later =
        drain-Reads fuel p.dirty p.snapshot (union_next p.iter) (omega (arith, h, p.shorter)) (
          rw p.goes_on (
            update_cur-Settles r p.dirty p.snapshot p.cur true p.ordered_dirty
              p.ordered_snapshot)) in
      rw (p.settles, drain_pair fuel p.iter p.valid, p.has_key, p.has_value)
        (
          later.0,
          (later.3 p.key p.after_dirty p.after_snapshot, later.1),
          λ q. rw (p.finds q, later.2 q) refl,
          λ k a b. (
            p.comes_after k a b,
            After-trans r k p.key _ (p.comes_after k a b)
                (later.3 p.key p.after_dirty p.after_snapshot),
          ),
        )

-- A client that reads a union iterator to its end, over a buffer and a snapshot that are both in
-- the iterator's order, reads without an error the pairs of one ordered sequence without doubles: a
-- key is in it with the buffer's value, unless that is empty, and with the snapshot's value where the
-- buffer does not have the key. As many rounds as there are pairs are enough.
pub drain-overlay :
    (reverse : Bool) (fuel : ℕ) (d s : Pairs)
    → Ordered reverse d
    → Ordered reverse s
    → length d + length s ≤ fuel
    → ((drain fuel (new_union_iter (source d) (source s) reverse)).1 ≡ true)
      × Ordered reverse (drain fuel (new_union_iter (source d) (source s) reverse)).0
      × ((q : Bytes)
          → find_pair q (drain fuel (new_union_iter (source d) (source s) reverse)).0
            ≡ overlay q d s)
unfolding new_union_iter
drain-overlay reverse fuel d s od os h =
    let read =
      drain-Reads reverse fuel d s (new_union_iter (source d) (source s) reverse) h
        (update_cur-Settles reverse d s false false od os) in
    (read.0, read.1, read.2)
