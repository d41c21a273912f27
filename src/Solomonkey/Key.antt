-- ===== src/Solomonkey/Key.antt =====
-- Keys and ranges of keys: the first half of solomonkey/key.go.
pub mod Order
pub mod Point
use mileva_db.Prelude.{
  ℕ, zero, suc, ◌+◌, ◌%◌, ◌≡◌, Bool, true, false, ◌&&◌, List, [], ◌∷◌, ◌++◌, Ordering, length, take,
  ◌==◌, if◌then◌else◌,
}
use mileva_db.Bytes.{Bytes, bytes_compare, bytes_equal}

-- Key.Next
unfoldable pub next_key : Bytes → Bytes
next_key k = k ++ (0 ∷ [])

-- One round of the loop of Key.PrefixNext, from the right: whether the loop goes on, and the bytes
-- written so far.
unfoldable pub carry_byte : ℕ → Bool × Bytes → Bool × Bytes
carry_byte b (false, bs) = (false, b ∷ bs)
carry_byte b (true, bs) = (((b + 1) % 256 == 0), ((b + 1) % 256) ∷ bs)

unfoldable pub carry : Bytes → Bool × Bytes
carry [] = (true, [])
carry (b ∷ bs) = carry_byte b (carry bs)

unfoldable pub prefix_next : Bytes → Bytes
unfolding carry
prefix_next k = if (carry k).0 then k ++ (0 ∷ []) else (carry k).1

-- Key.Cmp
unfoldable pub cmp_key : Bytes → Bytes → Ordering
cmp_key k another = bytes_compare k another

-- Key.HasPrefix, by bytes.HasPrefix
unfoldable pub has_prefix : Bytes → Bytes → Bool
has_prefix k [] = true
has_prefix [] (p ∷ ps) = false
has_prefix (b ∷ bs) (p ∷ ps) = (b == p) && has_prefix bs ps

pub record KeyRange : Type 0 where
  pub start_key : Bytes
  pub end_key : Bytes

-- Where the loop of IsPoint stands: it has returned false, it has met only bytes 255 so far, or it
-- stopped at a byte, and then the answer for the bytes from there on.
pub data PointScan : Type 0 where
  rejected only_255 : PointScan
  stopped : Bool → PointScan

unfoldable pub point_byte : (s e : ℕ) → PointScan → PointScan
point_byte s e rejected = rejected
point_byte s e (stopped same) = stopped ((s == e) && same)
point_byte s e only_255 =
    if s == 255 then (if e == 0 then only_255 else rejected) else stopped ((s + 1) % 256 == e)

-- The loop of IsPoint, on keys of one length.
unfoldable pub point_scan : Bytes → Bytes → PointScan
point_scan [] es = only_255
point_scan (s ∷ ss) [] = only_255
point_scan (s ∷ ss) (e ∷ es) = point_byte s e (point_scan ss es)

unfoldable pub point_answer : PointScan → Bool
point_answer rejected = false
point_answer only_255 = false
point_answer (stopped same) = same

-- A byte of a key by its index, 0 out of range, where Go panics: IsPoint looks at it in range only.
abbrev pub byte_at : ℕ → Bytes → ℕ
byte_at n [] = 0
byte_at zero (b ∷ bs) = b
byte_at (suc n) (b ∷ bs) = byte_at n bs

-- KeyRange.IsPoint
unfoldable pub is_point : KeyRange → Bool
is_point r =
    if length r.start_key == length r.end_key
    then point_answer (point_scan r.start_key r.end_key)
    else (length r.start_key + 1 == length r.end_key)
      && (byte_at (length r.start_key) r.end_key == 0)
      && bytes_equal r.start_key (take (length r.start_key) r.end_key)
