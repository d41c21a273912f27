-- ===== src/Solomonkey/Handle/Laws.antt =====
-- HandleMap as a map keyed by Handle.Equal.
use mileva_db.Prelude.{
  ℕ, suc, List, [], ◌∷◌, length, ◌+◌, ◌≡◌, ◌∙◌, refl, Bool, true, false, none, some, if◌then◌else◌,
  ◌==◌, arith, sym, All,
}
use mileva_db.Bytes.{Bytes, bytes_equal, bytes_equal_refl, eq_of_bytes_equal}
use mileva_db.Maps.{
  number_IsEquality, IsEquality, IsUnique, map_get, get-set, get-delete, set-IsUnique,
  delete-IsUnique, times, times-IsUnique, length-set, length-delete, All-set, All-delete, get-All,
}
use mileva_db.Solomonkey.Handle.{
  new_handle_map, CommonHandle, Handle, int_handle, common_handle, HandleMap, StrHandleVal,
  get_handle, set_handle, delete_handle, handle_map_len, equal_handle, range_strs, range_ints,
  range_handles,
}

bytes_IsEquality : IsEquality bytes_equal
bytes_IsEquality = record { same_refl = bytes_equal_refl; eq_of_same = eq_of_bytes_equal }

module _ {V : Type 0} where
  -- Setting a value changes what is found for the handles that Equal takes for the same, and for no
  -- other handle.
  pub get-set_handle :
      (m : HandleMap V) (h k : Handle) (v : V)
      → get_handle (set_handle m h v) k ≡ (if equal_handle h k then some v else get_handle m k)
  unfolding get_handle set_handle equal_handle
  get-set_handle m (int_handle i) (int_handle j) v = get-set ◌==◌ number_IsEquality i j v m.ints
  get-set_handle m (int_handle i) (common_handle d) v = refl
  get-set_handle m (common_handle c) (int_handle j) v = refl
  get-set_handle m (common_handle c) (common_handle d) v =
      rw (get-set bytes_equal bytes_IsEquality c.encoded d.encoded _ m.strs) (ground arith)

  -- Deleting a handle removes the handles that Equal takes for the same, and no other.
  pub get-delete_handle :
      (m : HandleMap V) (h k : Handle)
      → get_handle (delete_handle m h) k ≡ (if equal_handle h k then none else get_handle m k)
  unfolding get_handle delete_handle equal_handle
  get-delete_handle m (int_handle i) (int_handle j) = get-delete ◌==◌ number_IsEquality i j m.ints
  get-delete_handle m (int_handle i) (common_handle d) = refl
  get-delete_handle m (common_handle c) (int_handle j) = refl
  get-delete_handle m (common_handle c) (common_handle d) =
      rw (get-delete bytes_equal bytes_IsEquality c.encoded d.encoded m.strs) (ground arith)

  -- The pair of a handle is stored under the handle's encoding.
  abbrev StoredUnder : Bytes × StrHandleVal V → Type 0
  StoredUnder p = (c : CommonHandle) × (p.1.handle ≡ common_handle c) × (c.encoded ≡ p.0)

  pub IsHandleMap : HandleMap V → Type 0
  IsHandleMap m = IsUnique ◌==◌ m.ints × IsUnique bytes_equal m.strs × All StoredUnder m.strs

  pub set_handle-IsHandleMap :
      (m : HandleMap V) (h : Handle) (v : V) → IsHandleMap m → IsHandleMap (set_handle m h v)
  unfolding IsHandleMap set_handle
  set_handle-IsHandleMap m (int_handle i) v (ints, strs, under) =
      (set-IsUnique ◌==◌ number_IsEquality i v m.ints ints, strs, under)
  set_handle-IsHandleMap m (common_handle c) v (ints, strs, under) = (
    ints,
    set-IsUnique bytes_equal bytes_IsEquality c.encoded _ m.strs strs,
    All-set bytes_equal bytes_IsEquality StoredUnder c.encoded _ m.strs (c, refl, refl)
        (λ i e. (c, refl, sym (eq_of_bytes_equal i c.encoded e))) under,
  )

  pub delete_handle-IsHandleMap :
      (m : HandleMap V) (h : Handle) → IsHandleMap m → IsHandleMap (delete_handle m h)
  unfolding IsHandleMap delete_handle
  delete_handle-IsHandleMap m (int_handle i) (ints, strs, under) =
      (delete-IsUnique ◌==◌ number_IsEquality i m.ints ints, strs, under)
  delete_handle-IsHandleMap m (common_handle c) (ints, strs, under) = (
    ints,
    delete-IsUnique bytes_equal bytes_IsEquality c.encoded m.strs strs,
    All-delete bytes_equal bytes_IsEquality StoredUnder c.encoded m.strs under,
  )

  abbrev pub has_handle : HandleMap V → Handle → Bool
  has_handle m h = elim (get_handle m h) [ none ↦ false | some v ↦ true ]

  pub len-set_handle :
      (m : HandleMap V) (h : Handle) (v : V)
      → handle_map_len (set_handle m h v)
        ≡ (if has_handle m h then handle_map_len m else suc (handle_map_len m))
  unfolding get_handle set_handle handle_map_len
  len-set_handle m (int_handle i) v = ground (arith, length-set ◌==◌ number_IsEquality i v m.ints)
  len-set_handle m (common_handle c) v = ground (
    arith,
    length-set bytes_equal bytes_IsEquality c.encoded record { handle = common_handle c; val = v }
        m.strs,
  )

  pub len-delete_handle :
      (m : HandleMap V) (h : Handle)
      → IsHandleMap m
      → handle_map_len m ≡ (
          if has_handle m h
          then suc (handle_map_len (delete_handle m h))
          else handle_map_len (delete_handle m h))
  unfolding get_handle delete_handle handle_map_len IsHandleMap
  len-delete_handle m (int_handle i) h =
      ground (arith, length-delete ◌==◌ number_IsEquality i m.ints h.0)
  len-delete_handle m (common_handle c) h =
      ground (arith, length-delete bytes_equal bytes_IsEquality c.encoded m.strs h.1)

pub new_handle_map-IsHandleMap : (V : Type 0) → IsHandleMap {V = V} new_handle_map
unfolding IsHandleMap
new_handle_map-IsHandleMap V = (tt, tt, tt)

module _ {V : Type 0} where
  -- A function for Range that notes each pair and goes on.
  abbrev pub noting : Handle → V → List (Handle × V) → List (Handle × V) × Bool
  noting h v noted = ((h, v) ∷ noted, true)

  abbrev GivenBy : HandleMap V → Handle × V → Type 0
  GivenBy m p = get_handle m p.0 ≡ some p.1

  strs-GivenBy :
      (m : HandleMap V) (l : List (Bytes × StrHandleVal V)) (noted : List (Handle × V))
      → All StoredUnder l
      → All (λ p. map_get bytes_equal p.0 m.strs ≡ some p.1) l
      → All (GivenBy m) noted
      → All (GivenBy m) (range_strs noting l noted)
        × (length (range_strs noting l noted) ≡ length l + length noted)
  unfolding range_strs
  strs-GivenBy m [] noted under found h = (h, omega arith)
  strs-GivenBy m ((k, sv) ∷ l) noted ((c, p, q), under) (f, found) h =
      let here : get_handle m sv.handle ≡ some sv.val =
        rw p (unfold get_handle in rw (q, f) refl) in
      let rest = strs-GivenBy m l ((sv.handle, sv.val) ∷ noted) under found (here, h) in
      (rest.0, omega (arith, rest.1))

  ints-GivenBy :
      (m : HandleMap V) (l : List (ℕ × V)) (noted : List (Handle × V))
      → IsHandleMap m
      → All (λ p. map_get ◌==◌ p.0 m.ints ≡ some p.1) l
      → All (GivenBy m) noted
      → All (GivenBy m) (range_ints noting l m.strs noted)
        × (length (range_ints noting l m.strs noted) ≡ length l + length m.strs + length noted)
  unfolding range_ints IsHandleMap
  ints-GivenBy m [] noted w found h =
      let strs =
        strs-GivenBy m m.strs noted w.2 (get-All bytes_equal bytes_IsEquality m.strs w.1) h in
      (strs.0, omega (arith, strs.1))
  ints-GivenBy m ((i, v) ∷ l) noted w (f, found) h =
      let here : get_handle m (int_handle i) ≡ some v = unfold get_handle in f in
      let rest = ints-GivenBy m l ((int_handle i, v) ∷ noted) w found (here, h) in
      (rest.0, omega (arith, rest.1))

  -- How often a handle is among those that Range met.
  abbrev pub times_met : Handle → List (Handle × V) → ℕ
  times_met h [] = 0
  times_met h ((k, v) ∷ met) = if equal_handle k h then suc (times_met h met) else times_met h met

  abbrev times_strs : Handle → List (Bytes × StrHandleVal V) → ℕ
  times_strs (int_handle i) l = 0
  times_strs (common_handle c) l = times bytes_equal c.encoded l

  abbrev times_ints : Handle → List (ℕ × V) → ℕ
  times_ints (int_handle i) l = times ◌==◌ i l
  times_ints (common_handle c) l = 0

  times_met-strs :
      (h : Handle) (l : List (Bytes × StrHandleVal V)) (noted : List (Handle × V))
      → All StoredUnder l
      → times_met h (range_strs noting l noted) ≡ times_strs h l + times_met h noted
  unfolding range_strs equal_handle
  times_met-strs (int_handle i) [] noted under = omega arith
  times_met-strs (common_handle d) [] noted under = omega arith
  times_met-strs (int_handle i) ((k, sv) ∷ l) noted ((c, p, q), under) =
      times_met-strs (int_handle i) l ((sv.handle, sv.val) ∷ noted) under
      ∙ rw (p, equal_handle) refl
  times_met-strs (common_handle d) ((k, sv) ∷ l) noted ((c, p, q), under) =
      times_met-strs (common_handle d) l ((sv.handle, sv.val) ∷ noted) under
      ∙ rw (p, equal_handle, q) (ground arith)

  times_met-ints :
      (h : Handle) (l : List (ℕ × V)) (strs : List (Bytes × StrHandleVal V))
      (noted : List (Handle × V))
      → All StoredUnder strs
      → times_met h (range_ints noting l strs noted)
        ≡ times_ints h l + times_strs h strs + times_met h noted
  unfolding range_ints equal_handle
  times_met-ints (int_handle i) [] strs noted under =
      omega (arith, times_met-strs (int_handle i) strs noted under)
  times_met-ints (common_handle d) [] strs noted under =
      omega (arith, times_met-strs (common_handle d) strs noted under)
  times_met-ints (int_handle i) ((j, v) ∷ l) strs noted under =
      ground (arith, times_met-ints (int_handle i) l strs ((int_handle j, v) ∷ noted) under)
  times_met-ints (common_handle d) ((j, v) ∷ l) strs noted under =
      ground (arith, times_met-ints (common_handle d) l strs ((int_handle j, v) ∷ noted) under)

  times_met-range :
      (m : HandleMap V) (h : Handle)
      → IsHandleMap m
      → times_met h (range_handles noting m []) ≡ (if has_handle m h then 1 else 0)
  unfolding range_handles IsHandleMap get_handle
  times_met-range m (int_handle i) w = ground (
    arith,
    times_met-ints (int_handle i) m.ints m.strs [] w.2,
    times-IsUnique ◌==◌ number_IsEquality i m.ints w.0,
  )
  times_met-range m (common_handle c) w = ground (
    arith,
    times_met-ints (common_handle c) m.ints m.strs [] w.2,
    times-IsUnique bytes_equal bytes_IsEquality c.encoded m.strs w.1,
  )

  -- On a map whose keys are unique, and whose common handles stand under their encodings, Range with
  -- a function that goes on each time meets every handle for which Get gives a value once, up to
  -- Equal, and no other; the value that it meets with a handle is the one that Get gives for it; and
  -- the pairs that it meets are as many as Len says.
  pub range_handles-get :
      (m : HandleMap V)
      → IsHandleMap m
      → ((h : Handle) → times_met h (range_handles noting m []) ≡ (if has_handle m h then 1 else 0))
        × All (λ p. get_handle m p.0 ≡ some p.1) (range_handles noting m [])
        × (length (range_handles noting m []) ≡ handle_map_len m)
  range_handles-get m w =
      let all =
        ints-GivenBy m m.ints [] w
          (get-All ◌==◌ number_IsEquality m.ints (unfold IsHandleMap in w.0)) tt in
      (
        λ h. times_met-range m h w,
        unfold range_handles in all.0,
        unfold range_handles handle_map_len in omega (arith, all.1),
      )
