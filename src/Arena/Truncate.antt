-- ===== src/Arena/Truncate.antt =====
-- Truncating an arena to a checkpoint undoes the allocations made since.
use mathlib.Core.Path.{subst}
use mileva_db.Prelude.{
  ℕ, ◌-◌, ◌≤◌, ◌≡◌, refl, sym, ap, ◌∙◌, Bool, List, [], ◌∷◌, ◌++◌, length, drop, arith, inl, inr,
  length-append, drop-append,
}
use mileva_db.Arena.{
  max_block_size, Addr, Block, MemCam, Allocated, allocated, alloc, checkpoint, truncate,
  set_last_length, last_length,
}
use mileva_db.Arena.Alloc.{IsArena, Placed, alloc-Placed}

-- A sequence of allocations.
pub data Allocs (a : MemCam) : MemCam → Type 0 where
  no_alloc : Allocs a a
  one_more :
      (b : MemCam)
      → Allocs a b
      → (size : ℕ) (align : Bool) (addr : Addr) (after : MemCam) → size ≤ max_block_size
      → alloc size align b ≡ allocated addr after
      → Allocs a after

abbrev with_length : ℕ → Block → Block
with_length n b = record { buf_len = b.buf_len; length = n }

-- Blocks in front, and the last one used further.
abbrev Grown : List Block → List Block → Type 0
Grown [] cs = Unit
Grown (b ∷ bs) cs = (new : List Block) × (n : ℕ) × (cs ≡ new ++ (with_length n b ∷ bs))

same_block : (last b : Block) → b.buf_len ≡ last.buf_len → last ≡ with_length last.length b
same_block last b e = λ i. record { buf_len = sym e i; length = last.length }

allocated_inj :
    (addr addr' : Addr) (after after' : MemCam)
    → allocated addr after ≡ allocated addr' after'
    → after ≡ after'
allocated_inj addr addr' after after' e = cc

grow_last :
    (b : Block) (bs new : List Block) (n : ℕ) (old last : Block) (rest : List Block)
    → new ++ (with_length n b ∷ bs) ≡ old ∷ rest
    → old.buf_len ≡ last.buf_len
    → Grown (b ∷ bs) (last ∷ rest)
grow_last b bs [] n old last rest e len =
    let p : with_length n b ≡ old = cc in
    let q : bs ≡ rest = cc in
    (
      [],
      last.length,
      subst (λ x. last ∷ rest ≡ x ∷ bs) (same_block last b (ap (λ x. x.buf_len) p ∙ len))
          (ap (λ x. last ∷ x) (sym q)),
    )
grow_last b bs (x ∷ new) n old last rest e len =
    let q : new ++ (with_length n b ∷ bs) ≡ rest = cc in (last ∷ new, n, ap (λ l. last ∷ l) (sym q))

Grown-Placed :
    (bs : List Block) (size : ℕ) (align : Bool) (a : MemCam) (o : Allocated)
    → Grown bs a.blocks
    → (p : Placed size align a o) → Grown bs p.after.blocks
Grown-Placed [] size align a o g p = tt
Grown-Placed (b ∷ bs) size align a o (new, n, e) p =
    subst (Grown (b ∷ bs)) (sym p.last_of) (elim p.fresh [
      | inl q ↦ (p.last ∷ new, n, ap (λ l. p.last ∷ l) (q ∙ e))
      | inr (old, q, len, behind) ↦ grow_last b bs new n old p.last p.rest (sym e ∙ q) len
    ])

self-Grown : (bs : List Block) → Grown bs bs
self-Grown [] = tt
self-Grown (b ∷ bs) = ([], b.length, refl)

drop_all : (cs : List Block) → drop (length cs) cs ≡ []
drop_all [] = refl
drop_all (c ∷ cs) = drop_all cs

Allocs-Grown : (a b : MemCam) → IsArena a → Allocs a b → IsArena b × Grown a.blocks b.blocks
Allocs-Grown a _ w no_alloc = (w, self-Grown a.blocks)
Allocs-Grown a _ w (one_more b run size align addr after le e) =
    let before = Allocs-Grown a b w run in
    let p = alloc-Placed size align b before.0 le in
    let same : p.after ≡ after = allocated_inj p.addr addr p.after after (sym p.is_allocated ∙ e) in
    (
      subst IsArena same p.arena,
      subst (λ x. Grown a.blocks x.blocks) same (Grown-Placed a.blocks size align b _ before.1 p),
    )

cut_back :
    (bs cs : List Block)
    → Grown bs cs
    → set_last_length (last_length bs) (drop (length cs - length bs) cs) ≡ bs
cut_back [] cs g = let len : length cs - 0 ≡ length cs = omega arith in rw (len, drop_all cs) refl
cut_back (b ∷ bs) cs (new, n, e) =
    let len : length cs - length (b ∷ bs) ≡ length new =
      omega (arith, ap length e, length-append new (with_length n b ∷ bs)) in
    rw (len, e, drop-append new (with_length n b ∷ bs)) refl

-- After any sequence of allocations, truncate brings an arena back to the state in which its
-- checkpoint was made.
pub truncate-checkpoint : (a b : MemCam) → IsArena a → Allocs a b → truncate b (checkpoint a) ≡ a
unfolding truncate checkpoint
truncate-checkpoint a b w run =
    let e = cut_back a.blocks b.blocks (Allocs-Grown a b w run).1 in
    λ i. record { block_size = a.block_size; blocks = e i }
