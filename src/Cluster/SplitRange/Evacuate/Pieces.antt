-- ===== src/Cluster/SplitRange/Evacuate/Pieces.antt =====
-- What a region loses to a range, and the pieces of it that stay, in each case of the evacuation.
use mileva_db.Prelude.{ℕ, ◌+◌, ◌≡◌, ◌≢◌, refl, Bool, true, false, ◌&&◌, [], ◌∷◌, arith, lt, gt}
use mileva_db.Bytes.{Bytes, bytes_compare, is_below, gt_of_lt, not_below_nil}
use mileva_db.Mvcc.Scan.{region_contains}
use mileva_db.Cluster.Regions.Contains.{count_one, ends_behind, join_contains, not_below_trans}
use mileva_db.Cluster.SplitRange.{end_cmp}

-- 1 for a key that is in the region from `rs` to `re` and in the range.
abbrev pub lost : (start end rs re k : Bytes) → ℕ
lost start end rs re k = count_one (region_contains rs re k && region_contains start end k)

not_below_of_lt : (j k : Bytes) → bytes_compare j k ≡ lt → is_below k j ≡ false
not_below_of_lt j k h = ground (arith, gt_of_lt j k)

below_not : (j k : Bytes) → is_below j k ≡ true → is_below k j ≡ false
below_not j k h = ground (arith, not_below_of_lt j k)

not_below_of_gt : (j k : Bytes) → bytes_compare j k ≡ gt → is_below j k ≡ false
not_below_of_gt j k h = ground arith

ends_behind-gt : (re end : Bytes) → end_cmp re end ≡ gt → ends_behind re end ≡ true
ends_behind-gt [] end h = refl
ends_behind-gt (b ∷ bs) end h = ground (arith, not_below_of_gt (b ∷ bs) end)

both_sides :
    (l m r b : Bool)
    → count_one l + count_one m + count_one r ≡ count_one b
    → count_one b ≡ count_one l + count_one r + count_one (b && m)
both_sides l m r b h = ground arith

behind_trans :
    (start end re : Bytes)
    → is_below end start ≡ false
    → ends_behind re end ≡ true
    → ends_behind re start ≡ true
behind_trans start end [] h e = refl
behind_trans start end (b ∷ bs) h e = ground (arith, not_below_trans start end (b ∷ bs))

not_below_of_not_lt : (j k : Bytes) → bytes_compare j k ≢ lt → is_below j k ≡ false
not_below_of_not_lt j k h = ground (arith, h)

not_above : (j k : Bytes) → bytes_compare j k ≢ gt → is_below k j ≡ false
not_above j k h = ground (arith, h, gt_of_lt k j)

left_case :
    (start end rs re k : Bytes)
    → is_below start rs ≡ false
    → is_below re start ≡ false
    → end_cmp re end ≢ gt
    → start ≢ []
    → count_one (region_contains rs re k)
      ≡ count_one (region_contains rs start k) + lost start end rs re k
unfolding region_contains
left_case start end rs [] k a b g ne = absurd (g refl)
left_case [] end rs (x ∷ re) k a b g ne = absurd (ne refl)
left_case (s ∷ start) [] rs (x ∷ re) k a b g ne = absurd (g (unfold bytes_compare in refl))
left_case (s ∷ start) (e ∷ end) rs (x ∷ re) k a b g ne =
    let c = not_above (x ∷ re) (e ∷ end) g in
    ground (
      arith,
      c,
      not_below_trans (s ∷ start) (x ∷ re) k,
      not_below_trans (x ∷ re) (e ∷ end) k,
      not_below_trans rs (s ∷ start) k,
    )

right_case :
    (start end rs re k : Bytes)
    → is_below rs start ≡ false
    → is_below end rs ≡ false
    → ends_behind re end ≡ true
    → end ≢ []
    → count_one (region_contains rs re k)
      ≡ count_one (region_contains end re k) + lost start end rs re k
unfolding region_contains
right_case start [] rs re k a b g ne = absurd (ne refl)
right_case start (e ∷ end) rs [] k a b g ne =
    ground (arith, not_below_trans start rs k, not_below_trans rs (e ∷ end) k)
right_case start (e ∷ end) rs (x ∷ re) k a b g ne = ground (
  arith,
  not_below_trans start rs k,
  not_below_trans rs (e ∷ end) k,
  not_below_trans (e ∷ end) (x ∷ re) k,
)

inside_case :
    (start end rs re k : Bytes)
    → is_below rs start ≡ false
    → end_cmp re end ≢ gt
    → count_one (region_contains rs re k) ≡ lost start end rs re k
unfolding region_contains
inside_case start end rs [] k a g = absurd (g refl)
inside_case start [] rs (x ∷ re) k a g = absurd (g (unfold bytes_compare in refl))
inside_case start (e ∷ end) rs (x ∷ re) k a g =
    let c = not_above (x ∷ re) (e ∷ end) g in
    ground (arith, c, not_below_trans start rs k, not_below_trans (x ∷ re) (e ∷ end) k)

module _ (start end : Bytes) (order : is_below start end ≡ true) (rs re k : Bytes) where
  start_ne : bytes_compare rs start ≡ lt → start ≢ []
  start_ne h e = ground (arith, not_below_nil rs)

  end_ne : end ≢ []
  end_ne e = ground (arith, not_below_nil start)

  end_start : is_below end start ≡ false
  end_start = ground (arith, not_below_of_lt start end)

  behind_start : end_cmp re end ≡ gt → ends_behind re start ≡ true
  behind_start g = behind_trans start end re end_start (ends_behind-gt re end g)

  pub pieces-around :
      bytes_compare rs start ≡ lt
      → end_cmp re end ≡ gt
      → count_one (region_contains rs re k)
        ≡ count_one (region_contains rs start k)
          + count_one (region_contains end re k)
          + lost start end rs re k
  pieces-around h g =
      both_sides (region_contains rs start k) (region_contains start end k)
        (region_contains end re k) (region_contains rs re k)
        (omega (
          arith,
          join_contains rs start re k (not_below_of_lt rs start h) (behind_start g) (start_ne h),
          join_contains start end re k end_start (ends_behind-gt re end g) end_ne,
        ))

  -- A region that starts below the range and ends in it.
  pub pieces-left :
      bytes_compare rs start ≡ lt
      → end_cmp re end ≢ gt
      → is_below start re ≡ true
      → count_one (region_contains rs re k)
        ≡ count_one (region_contains rs start k) + lost start end rs re k
  pieces-left h g i =
      left_case start end rs re k (not_below_of_lt rs start h) (below_not start re i) g (start_ne h)

  -- A region that starts in the range and ends behind it.
  pub pieces-right :
      bytes_compare rs start ≢ lt
      → end_cmp re end ≡ gt
      → is_below rs end ≡ true
      → count_one (region_contains rs re k)
        ≡ count_one (region_contains end re k) + lost start end rs re k
  pieces-right h g i =
      right_case start end rs re k (not_below_of_not_lt rs start h) (below_not rs end i)
        (ends_behind-gt re end g) end_ne

  -- A region in the range is lost.
  pub pieces-inside :
      bytes_compare rs start ≢ lt
      → end_cmp re end ≢ gt
      → count_one (region_contains rs re k) ≡ lost start end rs re k
  pieces-inside h g = inside_case start end rs re k (not_below_of_not_lt rs start h) g
