-- ===== src/Solomonkey/UnionIter/Overlay.antt =====
-- A client that reads a union iterator to its end reads the snapshot overlaid by the buffer.

pub mod Drain
pub mod Loop
use mileva_db.Prelude.{
  ℕ, zero, suc, ◌+◌, ◌≤◌, ◌<◌, ◌≡◌, ◌⊎◌, ◌∙◌, ap, inl, inr, refl, sym, Bool, true, false, List, [],
  ◌∷◌, lt, eq, gt, arith, All, none, some, Option, if◌then◌else◌, length, Order-cases, is_lt, is_eq,
  is_gt, Bool-cases,
}
use mileva_db.Bytes.{Bytes, bytes_equal, bytes_equal_refl, eq_of_bytes_equal}
use mileva_db.Mvcc.Env.{find_pair}
use mileva_db.Solomonkey.UnionIter.{
  Cursor, finished, at, cursor_size, UnionIter, Outcome, out_of_fuel, failed, settled, dirty_next,
  snapshot_next, both_valid, is_empty, update_round, update_loop, update_cur, union_next, union_key,
  union_value, iter_cmp,
}
use mileva_db.Solomonkey.UnionIter.Terminates.{iter_at}
use mileva_db.Solomonkey.UnionIter.Order.{
  iter_cmp-lt_trans, eq_of_iter_cmp, lt_of_iter_gt, ne_of_iter_lt, ne_of_iter_gt, After, Ordered,
  After-trans, find_pair-After, overlaid, overlay,
}

abbrev pub Pairs : Type 0
Pairs = List (Bytes × Bytes)

-- An iterator over a sequence of pairs that meets no error.
abbrev pub source : Pairs → Cursor
source [] = finished false
source ((k, v) ∷ l) = at k v false (source l)

pub cursor_size-source : (l : Pairs) → cursor_size (source l) ≡ length l
unfolding cursor_size
cursor_size-source [] = refl
cursor_size-source ((k, v) ∷ l) = ap suc (cursor_size-source l)

module _ (r : Bool) where
  -- The outcome stands at a pair of the overlay of `s` by `d`, and goes on with `dirty` and `snapshot`.
  pub record Produces (d s : Pairs) (o : Outcome) : Type 0 where
    pub iter : UnionIter
    pub key : Bytes
    pub value : Bytes
    pub dirty : Pairs
    pub snapshot : Pairs
    pub cur : Bool
    pub settles : o ≡ settled iter
    pub valid : iter.is_valid ≡ true
    pub has_key : union_key iter ≡ key
    pub has_value : union_value iter ≡ value
    pub goes_on : union_next iter ≡ update_cur (iter_at (source dirty) (source snapshot) cur true r)
    pub ordered_dirty : Ordered r dirty
    pub ordered_snapshot : Ordered r snapshot
    pub after_dirty : After r key dirty
    pub after_snapshot : After r key snapshot
    pub shorter : length dirty + length snapshot < length d + length s
    pub finds :
        (q : Bytes)
        → overlay q d s ≡ (if bytes_equal key q then some value else overlay q dirty snapshot)
    pub comes_after : (k : Bytes) → After r k d → After r k s → iter_cmp r k key ≡ lt

  -- The outcome is the end of the iterator, and the overlay is empty.
  abbrev pub Exhausted : Pairs → Pairs → Outcome → Type 0
  Exhausted d s o =
      ((cur : Bool) × (o ≡ settled (iter_at (finished false) (finished false) cur false r)))
      × ((q : Bytes) → overlay q d s ≡ none)

  abbrev pub Settles : Pairs → Pairs → Outcome → Type 0
  Settles d s o = Exhausted d s o ⊎ Produces d s o

  -- `continue`: what was passed over is no part of the overlay.
  pub skipped :
      (d s d' s' : Pairs) (o : Outcome)
      → ((q : Bytes) → overlay q d s ≡ overlay q d' s')
      → ((k : Bytes) → After r k d → After r k s → After r k d' × After r k s')
      → length d' + length s' < length d + length s
      → Settles d' s' o
      → Settles d s o
  skipped d s d' s' o same after short (inl (end, none_left)) = inl (end, λ q. same q ∙ none_left q)
  skipped d s d' s' o same after short (inr p) = inr record {
    iter = p.iter;
    key = p.key;
    value = p.value;
    dirty = p.dirty;
    snapshot = p.snapshot;
    cur = p.cur;
    settles = p.settles;
    valid = p.valid;
    has_key = p.has_key;
    has_value = p.has_value;
    goes_on = p.goes_on;
    ordered_dirty = p.ordered_dirty;
    ordered_snapshot = p.ordered_snapshot;
    after_dirty = p.after_dirty;
    after_snapshot = p.after_snapshot;
    shorter = omega (arith, short, p.shorter);
    finds = λ q. same q ∙ p.finds q;
    comes_after = λ k a b. let c = after k a b in p.comes_after k c.0 c.1;
  }

  -- The pair at the front of the buffer.
  pub dirty_first :
      (k v : Bytes) (d s s' : Pairs) (o : Outcome)
      → o ≡ settled (iter_at (source ((k, v) ∷ d)) (source s') true true r)
      → is_empty v ≡ false
      → Ordered r ((k, v) ∷ d)
      → Ordered r s'
      → After r k s'
      → length s' ≤ length s
      → ((q : Bytes) → bytes_equal k q ≡ false → find_pair q s ≡ find_pair q s')
      → Produces ((k, v) ∷ d) s o
  unfolding union_key union_value union_next dirty_next overlay find_pair
  dirty_first k v d s s' o e full od os behind le same = record {
    iter = iter_at (source ((k, v) ∷ d)) (source s') true true r;
    key = k;
    value = v;
    dirty = d;
    snapshot = s';
    cur = true;
    settles = e;
    valid = refl;
    has_key = refl;
    has_value = refl;
    goes_on = refl;
    ordered_dirty = od.1;
    ordered_snapshot = os;
    after_dirty = od.0;
    after_snapshot = behind;
    shorter = omega (arith, le);
    finds = λ q. ground (arith, same q, full);
    comes_after = λ k' a b. a.0;
  }

  snapshot_finds :
      (k v q : Bytes) (d s : Pairs)
      → After r k d
      → overlay q d ((k, v) ∷ s) ≡ (if bytes_equal k q then some v else overlay q d s)
  unfolding overlay find_pair
  snapshot_finds k v q d s a = elim (Bool-cases (bytes_equal k q)) [
    | inl p ↦ rw (p, sym (eq_of_bytes_equal k q p), find_pair-After r k d a) refl
    | inr p ↦ rw p refl
  ]

  -- The pair at the front of the snapshot.
  pub snapshot_first :
      (k v : Bytes) (d s : Pairs) (o : Outcome)
      → o ≡ settled (iter_at (source d) (source ((k, v) ∷ s)) false true r)
      → Ordered r d
      → Ordered r ((k, v) ∷ s)
      → After r k d
      → Produces d ((k, v) ∷ s) o
  unfolding union_key union_value union_next snapshot_next overlay find_pair
  snapshot_first k v d s o e od os ad = record {
    iter = iter_at (source d) (source ((k, v) ∷ s)) false true r;
    key = k;
    value = v;
    dirty = d;
    snapshot = s;
    cur = false;
    settles = e;
    valid = refl;
    has_key = refl;
    has_value = refl;
    goes_on = refl;
    ordered_dirty = od;
    ordered_snapshot = os.1;
    after_dirty = ad;
    after_snapshot = os.0;
    shorter = omega arith;
    finds = λ q. snapshot_finds k v q d s ad;
    comes_after = λ k' a b. b.0;
  }
