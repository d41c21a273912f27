-- ===== src/Tests/Solomonkey.antt =====
-- The theorems on keys, handles and the union iterator at concrete inputs.
use mileva_db.Prelude.{
  ℕ, suc, ◌≡◌, refl, true, false, not, ◌&&◌, ◌||◌, Option, none, some, [], ◌∷◌, length, All, arith,
  if◌then◌else◌,
}
use mileva_db.Bytes.{Bytes, bytes_equal, is_below, bytes_compare}
use mileva_db.Mvcc.Env.{find_pair}
use mileva_db.Solomonkey.Key.{cmp_key, next_key, prefix_next, has_prefix, is_point}
use mileva_db.Solomonkey.Key.Order.{
  is_all_255, is_below-next_key, prefix_next-range, is_below-prefix_next,
}
use mileva_db.Solomonkey.Key.Point.{is_point_lem}
use mileva_db.Solomonkey.Handle.{
  Handle, int_handle, common_handle, HandleMap, new_handle_map, get_handle, set_handle,
  delete_handle, handle_map_len, equal_handle, range_handles,
}
use mileva_db.Solomonkey.Handle.Laws.{
  get-set_handle, IsHandleMap, new_handle_map-IsHandleMap, set_handle-IsHandleMap,
  len-delete_handle, has_handle, noting, times_met, range_handles-get,
}
use mileva_db.Solomonkey.UnionIter.{drain, new_union_iter, union_next, finished, at, iter_cmp}
use mileva_db.Solomonkey.UnionIter.Terminates.{Ends, iter_at, new_union_iter-Ends, union_next-Ends}
use mileva_db.Solomonkey.UnionIter.Order.{Ordered, overlay}
use mileva_db.Solomonkey.UnionIter.Overlay.{Pairs, source}
use mileva_db.Solomonkey.UnionIter.Overlay.Drain.{drain-overlay}

abbrev row_key : Bytes
row_key = 7 ∷ 255 ∷ []

abbrev column_key : Bytes
column_key = 7 ∷ 255 ∷ 3 ∷ []

is_below-next_key_example :
    is_below row_key column_key ≡ not (is_below column_key (next_key row_key))
is_below-next_key_example = is_below-next_key row_key column_key

prefix_next-range_example :
    (not (is_below column_key row_key) && is_below column_key (prefix_next row_key))
    ≡ has_prefix column_key row_key
unfolding is_all_255
prefix_next-range_example =
    prefix_next-range row_key column_key (omega arith, (omega arith, tt))
      (omega arith, (omega arith, (omega arith, tt))) (omega arith) refl

is_below-prefix_next_example : is_below row_key (prefix_next row_key) ≡ true
is_below-prefix_next_example = is_below-prefix_next row_key (omega arith, (omega arith, tt))

is_point_lem_example : is_point record { start_key = row_key; end_key = 8 ∷ 0 ∷ [] } ≡ (
    bytes_equal (8 ∷ 0 ∷ []) (next_key row_key) || bytes_equal (8 ∷ 0 ∷ []) (prefix_next row_key))
is_point_lem_example = is_point_lem row_key (8 ∷ 0 ∷ []) (omega arith, (omega arith, tt))

abbrev text_handle : Handle
text_handle = common_handle record { encoded = row_key; col_end_offsets = 2 ∷ [] }

abbrev two_handles : HandleMap ℕ
two_handles = set_handle (set_handle new_handle_map (int_handle 3) 30) text_handle 40

two_handles-IsHandleMap : IsHandleMap two_handles
two_handles-IsHandleMap =
    set_handle-IsHandleMap (set_handle new_handle_map (int_handle 3) 30) text_handle 40
      (set_handle-IsHandleMap new_handle_map (int_handle 3) 30 (new_handle_map-IsHandleMap ℕ))

get-set_handle_example : get_handle (set_handle two_handles (int_handle 3) 31) text_handle ≡ (
    if equal_handle (int_handle 3) text_handle then some 31 else get_handle two_handles text_handle)
get-set_handle_example = get-set_handle two_handles (int_handle 3) text_handle 31

len-delete_handle_example : handle_map_len two_handles ≡ (
    if has_handle two_handles text_handle
    then suc (handle_map_len (delete_handle two_handles text_handle))
    else handle_map_len (delete_handle two_handles text_handle))
len-delete_handle_example = len-delete_handle two_handles text_handle two_handles-IsHandleMap

range_handles-get_example :
    ((h : Handle)
      → times_met h (range_handles noting two_handles [])
        ≡ (if has_handle two_handles h then 1 else 0))
    × All (λ p. get_handle two_handles p.0 ≡ some p.1) (range_handles noting two_handles [])
    × (length (range_handles noting two_handles []) ≡ handle_map_len two_handles)
range_handles-get_example = range_handles-get two_handles two_handles-IsHandleMap

-- A codec whose columns are of two bytes.
abbrev cut_two : Bytes → Option (Bytes × Bytes)
cut_two [] = none
cut_two (a ∷ []) = none
cut_two (a ∷ b ∷ rest) = some (a ∷ b ∷ [], rest)

new_union_iter-Ends_example : Ends (
    new_union_iter
      (at row_key [] true (finished false))
      (at row_key (1 ∷ []) false (finished true))
      false)
new_union_iter-Ends_example =
    new_union_iter-Ends (at row_key [] true (finished false))
      (at row_key (1 ∷ []) false (finished true)) false

union_next-Ends_example : Ends (
    union_next
      (iter_at (at row_key (2 ∷ []) false (finished false)) (finished true) true true false))
union_next-Ends_example =
    union_next-Ends
      (iter_at (at row_key (2 ∷ []) false (finished false)) (finished true) true true false) refl

abbrev written : Pairs
written = (row_key, []) ∷ (column_key, 5 ∷ []) ∷ []

abbrev stored : Pairs
stored = (7 ∷ [], 1 ∷ []) ∷ (row_key, 2 ∷ []) ∷ []

drain-overlay_example :
    ((drain 4 (new_union_iter (source written) (source stored) false)).1 ≡ true)
    × Ordered false (drain 4 (new_union_iter (source written) (source stored) false)).0
    × ((q : Bytes)
        → find_pair q (drain 4 (new_union_iter (source written) (source stored) false)).0
          ≡ overlay q written stored)
unfolding cmp_key
drain-overlay_example =
    drain-overlay false 4 written stored (unfold iter_cmp bytes_compare in ((refl, tt), (tt, tt)))
      (unfold iter_cmp bytes_compare in ((refl, tt), (tt, tt))) (omega arith)
