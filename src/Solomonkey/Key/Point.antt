-- ===== src/Solomonkey/Key/Point.antt =====
-- What KeyRange.IsPoint decides, against Key.Next and Key.PrefixNext.
use mileva_db.Prelude.{
  ℕ, ◌+◌, ◌<◌, ◌≡◌, ◌≢◌, ap, sym, refl, if◌then◌else◌, Bool, true, false, ◌&&◌, ◌||◌, [], ◌∷◌,
  length, take, ◌==◌, arith, Bool-cases, inl, inr, length-append,
}
use mileva_db.Bytes.{Bytes, IsBytes, bytes_equal, eq_of_bytes_equal}
use mileva_db.Solomonkey.Key.{
  next_key, carry, prefix_next, PointScan, rejected, only_255, stopped, point_byte, point_scan,
  point_answer, is_point, byte_at,
}
use mileva_db.Solomonkey.Key.Order.{is_all_255, all_255-carry, carry-on, carry-stop, stays}

-- The first branch of IsPoint: one byte 0 behind the start.
equal-next_key :
    (s e : Bytes)
    → bytes_equal e (next_key s)
      ≡ (length s + 1 == length e)
        && (byte_at (length s) e == 0)
        && bytes_equal s (take (length s) e)
unfolding next_key bytes_equal
equal-next_key [] [] = refl
equal-next_key [] (y ∷ []) = ground arith
equal-next_key [] (y ∷ z ∷ e) = ground arith
equal-next_key (x ∷ s) [] = ground arith
equal-next_key (x ∷ s) (y ∷ e) = ground (arith, equal-next_key s e)

length-carry : (k : Bytes) → IsBytes k → length (carry k).1 ≡ length k
unfolding carry
length-carry [] h = refl
length-carry (b ∷ bs) h = elim (Bool-cases (is_all_255 bs)) [
  | inl e ↦ omega (arith, ap length (carry-on b bs h.1 e), length-carry bs h.1)
  | inr e ↦ omega (arith, ap length (carry-stop b bs h.1 e), length-carry bs h.1)
]

ne_of_false : (m n : ℕ) → (m == n) ≡ false → m ≢ n
ne_of_false m n h p = ground arith

ne_of_length : (s e : Bytes) → length s ≢ length e → bytes_equal e s ≡ false
ne_of_length s e h = elim (Bool-cases (bytes_equal e s)) [
  | inl p ↦ absurd (h (ap length (sym (eq_of_bytes_equal e s p))))
  | inr p ↦ p
]

scan-zero :
    (y : ℕ) (b : Bool)
    → point_byte 255 y (if b then only_255 else rejected)
      ≡ (if (y == 0) && b then only_255 else rejected)
unfolding point_byte
scan-zero y true = ground arith
scan-zero y false = ground arith

not_255 : (x y : ℕ) → x < 255 → point_byte x y only_255 ≡ stopped (x + 1 == y)
unfolding point_byte
not_255 x y h = let p : (x == 255) ≡ false = ground arith in rw (p, stays x h) refl

scan-one :
    (x y : ℕ) (b : Bool)
    → x < 255
    → (point_byte x y (if b then only_255 else rejected) ≢ only_255)
      × (point_answer (point_byte x y (if b then only_255 else rejected)) ≡ (y == x + 1) && b)
unfolding point_answer
scan-one x y true h = rw (not_255 x y h) (λ p. cc, ground arith)
scan-one x y false h = unfold point_byte in (λ p. cc, ground arith)

stopped_early :
    (x y : ℕ) (scan : PointScan)
    → scan ≢ only_255
    → (point_byte x y scan ≢ only_255)
      × (point_answer (point_byte x y scan) ≡ (y == x) && point_answer scan)
unfolding point_byte point_answer
stopped_early x y rejected h = (λ p. cc, ground arith)
stopped_early x y only_255 h = absurd (h refl)
stopped_early x y (stopped b) h = (λ p. cc, ground arith)

-- The scan on keys of one length.
scan-all_255 :
    (s e : Bytes)
    → IsBytes s
    → length s ≡ length e
    → is_all_255 s ≡ true
    → point_scan s e ≡ (if bytes_equal e (carry s).1 then only_255 else rejected)
unfolding point_scan is_all_255 bytes_equal point_byte
scan-all_255 [] [] h le a = unfold carry in refl
scan-all_255 [] (y ∷ e) h le a = ground arith
scan-all_255 (x ∷ s) [] h le a = ground arith
scan-all_255 (x ∷ s) (y ∷ e) h le a =
    let p : x ≡ 255 = ground arith in
    let r : is_all_255 s ≡ true = ground arith in
    rw (carry-on x s h.1 r, p, scan-all_255 s e h.1 (omega (arith, le)) r)
      (scan-zero y (bytes_equal e (carry s).1))

scan-stop :
    (s e : Bytes)
    → IsBytes s
    → length s ≡ length e
    → is_all_255 s ≡ false
    → (point_scan s e ≢ only_255) × (point_answer (point_scan s e) ≡ bytes_equal e (carry s).1)
unfolding point_scan is_all_255 bytes_equal point_byte point_answer
scan-stop [] [] h le a = cc
scan-stop [] (y ∷ e) h le a = ground arith
scan-stop (x ∷ s) [] h le a = ground arith
scan-stop (x ∷ s) (y ∷ e) h le a = elim (Bool-cases (is_all_255 s)) [
  | inl r ↦
      let one = scan-one x y (bytes_equal e (carry s).1) (ground arith) in
      rw (carry-on x s h.1 r, stays x (ground arith), scan-all_255 s e h.1 (omega (arith, le)) r)
        one
  | inr r ↦
      let ih = scan-stop s e h.1 (omega (arith, le)) r in
      let st = stopped_early x y (point_scan s e) ih.0 in
      rw (carry-stop x s h.1 r) (st.0, rw st.1 (ground (arith, ih.1)))
]

not_next_key : (s e : Bytes) → length s ≡ length e → bytes_equal e (next_key s) ≡ false
unfolding next_key
not_next_key s e h = ne_of_length _ e (λ p. omega (arith, p, h, length-append s (0 ∷ [])))

prefix_next-all_255 : (s : Bytes) → IsBytes s → is_all_255 s ≡ true → prefix_next s ≡ next_key s
unfolding prefix_next next_key
prefix_next-all_255 s h r = rw (all_255-carry s h, r) refl

prefix_next-carry : (s : Bytes) → IsBytes s → is_all_255 s ≡ false → prefix_next s ≡ (carry s).1
unfolding prefix_next
prefix_next-carry s h r = rw (all_255-carry s h, r) refl

scan-prefix_next :
    (s e : Bytes)
    → IsBytes s
    → length s ≡ length e
    → point_answer (point_scan s e) ≡ bytes_equal e (prefix_next s)
unfolding point_answer
scan-prefix_next s e h le = elim (Bool-cases (is_all_255 s)) [
  | inl r ↦
      rw (prefix_next-all_255 s h r, not_next_key s e le, scan-all_255 s e h le r) (ground arith)
  | inr r ↦ rw (prefix_next-carry s h r) (scan-stop s e h le r).1
]

-- The two branches of IsPoint, that do not build the next keys, answer as the two comparisons that
-- their comments name: a range is a point exactly when its end is Next or PrefixNext of its start.
pub is_point_lem :
    (s e : Bytes)
    → IsBytes s
    → is_point record { start_key = s; end_key = e }
      ≡ (bytes_equal e (next_key s) || bytes_equal e (prefix_next s))
unfolding is_point
is_point_lem s e h = elim (Bool-cases (length s == length e)) [
  | inl p ↦
      let q : bytes_equal e (next_key s) ≡ false = not_next_key s e (ground arith) in
      rw (p, q) (scan-prefix_next s e h (ground arith))
  | inr p ↦
      rw (p, sym (equal-next_key s e))
        (elim (Bool-cases (is_all_255 s)) [
          | inl r ↦ rw (prefix_next-all_255 s h r) (ground arith)
          | inr r ↦
              let q =
                ne_of_length (carry s).1 e
                  (λ q. omega (arith, q, length-carry s h, ne_of_false (length s) (length e) p)) in
              rw (prefix_next-carry s h r, q) (ground arith)
        ])
]
