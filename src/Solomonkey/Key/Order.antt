-- ===== src/Solomonkey/Key/Order.antt =====
-- The order of keys around Key.Next and Key.PrefixNext.
use mileva_db.Prelude.{
  ℕ, ◌+◌, ◌≤◌, ◌<◌, ◌≡◌, ◌≢◌, refl, if◌then◌else◌, Bool, true, false, not, ◌&&◌, [], ◌∷◌, ◌++◌,
  length, ◌==◌, arith, Bool-cases, inl, inr, ◌%◌,
}
use mileva_db.Bytes.{Bytes, IsBytes, bytes_compare, is_below, not_below_nil}
use mileva_db.Solomonkey.Key.{next_key, carry, carry_byte, prefix_next, has_prefix}

-- The next key is the immediate successor: a key is above `k` exactly when it is not below the next
-- key of `k`.
pub is_below-next_key : (k j : Bytes) → is_below k j ≡ not (is_below j (next_key k))
unfolding next_key bytes_compare
is_below-next_key [] [] = refl
is_below-next_key [] (y ∷ j) = ground (arith, not_below_nil j)
is_below-next_key (x ∷ k) [] = refl
is_below-next_key (x ∷ k) (y ∷ j) = ground (arith, is_below-next_key k j)

-- Whether every byte is 255: PrefixNext then answers with the next key.
unfoldable pub is_all_255 : Bytes → Bool
is_all_255 [] = true
is_all_255 (b ∷ bs) = (b == 255) && is_all_255 bs

wraps : (b : ℕ) → b < 256 → ((b + 1) % 256 == 0) ≡ (b == 255)
wraps b h = elim (Bool-cases (b == 255)) [
  | inl e ↦ let p : b ≡ 255 = ground arith in rw p refl
  | inr e ↦
      let p : b ≢ 255 = ground arith in
      let q : (b + 1) % 256 ≡ b + 1 = omega arith in rw q (ground arith)
]

pub stays : (b : ℕ) → b < 255 → (b + 1) % 256 ≡ b + 1
stays b h = omega arith

all_255-carry_byte : (b : ℕ) (p : Bool × Bytes) → b < 256 → (carry_byte b p).0 ≡ (b == 255) && p.0
unfolding carry_byte
all_255-carry_byte b (false, bs) h = ground arith
all_255-carry_byte b (true, bs) h = ground (arith, wraps b h)

pub all_255-carry : (k : Bytes) → IsBytes k → (carry k).0 ≡ is_all_255 k
unfolding carry is_all_255
all_255-carry [] h = refl
all_255-carry (b ∷ bs) h = rw (all_255-carry_byte b (carry bs) h.0, all_255-carry bs h.1) refl

bytes-carry_byte :
    (b : ℕ) (p : Bool × Bytes) → (carry_byte b p).1 ≡ (if p.0 then (b + 1) % 256 else b) ∷ p.1
unfolding carry_byte
bytes-carry_byte b (false, bs) = refl
bytes-carry_byte b (true, bs) = refl

-- The bytes that the loop leaves, one step at a time.
pub carry-on :
    (b : ℕ) (bs : Bytes)
    → IsBytes bs
    → is_all_255 bs ≡ true
    → (carry (b ∷ bs)).1 ≡ ((b + 1) % 256) ∷ (carry bs).1
unfolding carry
carry-on b bs h e = rw (bytes-carry_byte b (carry bs), all_255-carry bs h, e) refl

pub carry-stop :
    (b : ℕ) (bs : Bytes)
    → IsBytes bs
    → is_all_255 bs ≡ false
    → (carry (b ∷ bs)).1 ≡ b ∷ (carry bs).1
unfolding carry
carry-stop b bs h e = rw (bytes-carry_byte b (carry bs), all_255-carry bs h, e) refl

-- When the loop runs off the left end, no key as long is below the bytes that it leaves, and one that
-- is not below the key itself begins with it.
overflow-carry :
    (k j : Bytes)
    → IsBytes k
    → IsBytes j
    → length k ≤ length j
    → is_all_255 k ≡ true
    → (is_below j (carry k).1 ≡ false) × (not (is_below j k) ≡ has_prefix j k)
unfolding is_all_255 has_prefix bytes_compare
overflow-carry [] j hk hj le h = unfold carry in (not_below_nil j, ground (arith, not_below_nil j))
overflow-carry (x ∷ k) [] hk hj le h = ground arith
overflow-carry (x ∷ k) (y ∷ j) hk hj le h = elim (Bool-cases (is_all_255 k)) [
  | inl e ↦
      let ih = overflow-carry k j hk.1 hj.1 (omega arith) e in
      let p : x ≡ 255 = ground arith in
      (rw (carry-on x k hk.1 e, p) (ground (arith, ih.0)), rw p (ground (arith, ih.1)))
  | inr e ↦ (ground arith, ground arith)
]

prefix_range_step :
    (k j : Bytes)
    → IsBytes k
    → IsBytes j
    → length k ≤ length j
    → is_all_255 k ≡ false
    → (not (is_below j k) && is_below j (carry k).1) ≡ has_prefix j k
unfolding is_all_255 has_prefix bytes_compare
prefix_range_step [] j hk hj le h = cc
prefix_range_step (x ∷ k) [] hk hj le h = ground arith
prefix_range_step (x ∷ k) (y ∷ j) hk hj le h = elim (Bool-cases (is_all_255 k)) [
  | inl e ↦
      let ih = overflow-carry k j hk.1 hj.1 (omega arith) e in
      rw (carry-on x k hk.1 e, stays x (ground arith)) (ground (arith, ih.0, ih.1))
  | inr e ↦
      rw (carry-stop x k hk.1 e) (ground (arith, prefix_range_step k j hk.1 hj.1 (omega arith) e))
]

-- For a key `k` that is not made of bytes 255 only, the range from `k` to PrefixNext of `k` holds,
-- of the keys that are no shorter than `k`, exactly those that begin with `k`.
pub prefix_next-range :
    (k j : Bytes)
    → IsBytes k
    → IsBytes j
    → length k ≤ length j
    → is_all_255 k ≡ false
    → (not (is_below j k) && is_below j (prefix_next k)) ≡ has_prefix j k
unfolding prefix_next
prefix_next-range k j hk hj le h = rw (all_255-carry k hk, h) (prefix_range_step k j hk hj le h)

below_append_zero : (k : Bytes) → is_below k (k ++ (0 ∷ [])) ≡ true
unfolding bytes_compare
below_append_zero [] = refl
below_append_zero (x ∷ k) = ground (arith, below_append_zero k)

below_carry : (k : Bytes) → IsBytes k → is_all_255 k ≡ false → is_below k (carry k).1 ≡ true
unfolding bytes_compare is_all_255
below_carry [] h e = cc
below_carry (x ∷ k) h e = elim (Bool-cases (is_all_255 k)) [
  | inl p ↦ rw (carry-on x k h.1 p, stays x (ground arith)) (ground arith)
  | inr p ↦ rw (carry-stop x k h.1 p) (ground (arith, below_carry k h.1 p))
]

-- PrefixNext of a key is above it, whichever its bytes are.
pub is_below-prefix_next : (k : Bytes) → IsBytes k → is_below k (prefix_next k) ≡ true
unfolding prefix_next
is_below-prefix_next k h = elim (Bool-cases (is_all_255 k)) [
  | inl e ↦ rw (all_255-carry k h, e) (below_append_zero k)
  | inr e ↦ rw (all_255-carry k h, e) (below_carry k h e)
]
