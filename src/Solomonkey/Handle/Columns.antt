-- ===== src/Solomonkey/Handle/Columns.antt =====
-- The columns that NewCommonHandle cuts, and EncodedDefCaus takes out again.
use mileva_db.Prelude.{
  ℕ, zero, suc, ◌+◌, ◌<◌, ◌≡◌, ◌⊎◌, Bool, true, Option, none, some, List, [], ◌∷◌, ◌++◌,
  if◌then◌else◌, ◌==◌, length, ltb,
}
use mileva_db.Bytes.{Bytes}
use mileva_db.Solomonkey.Handle.{NewHandle, codec_error, made, pad_nine, slice, offset_at}

-- What codec.CutOne does when it has no error: it cuts a column that is not empty off the front.
pub record IsCutter (cut_one : Bytes → Option (Bytes × Bytes)) : Type 0 where
  pub cuts :
      (b col rest : Bytes) → cut_one b ≡ some (col, rest) → (col ++ rest ≡ b) × (0 < length col)

unfoldable pub concat : List Bytes → Bytes
concat [] = []
concat (c ∷ cs) = c ++ concat cs

-- The offset behind each column, where the first column starts at `n`.
unfoldable ends : ℕ → List Bytes → List ℕ
ends n [] = []
ends n (c ∷ cs) = (n + length c) ∷ ends (n + length c) cs

abbrev pub column_at : ℕ → List Bytes → Option Bytes
column_at i [] = none
column_at zero (c ∷ cs) = some c
column_at (suc i) (c ∷ cs) = column_at i cs

-- What stands behind the last column: nothing, or the padding.
abbrev pub is_padding : Bytes → Bool
is_padding [] = true
is_padding (b ∷ bs) = b == 0

module _ (cut_one : Bytes → Option (Bytes × Bytes)) (law : IsCutter cut_one) where
  -- The bytes `remain` are cut into columns and a rest.
  Cut : Bytes → List Bytes → Bytes → Type 0
  Cut remain cols rest = (concat cols ++ rest ≡ remain) × (is_padding rest ≡ true)

  -- What holds of a result, where `remain` was still to be cut, and offsets stood before.
  abbrev CutInto : Bytes → Bytes → ℕ → List ℕ → NewHandle → Type 0
  CutInto encoded remain off offsets answer =
      (answer ≡ codec_error)
      ⊎ ((cols : List Bytes) × (rest : Bytes) × Cut remain cols rest
          × (answer
              ≡ made record { encoded = encoded; col_end_offsets = offsets ++ ends off cols }))

-- Where column `i` starts, the first one at `n`.
abbrev start_of : ℕ → ℕ → List ℕ → Option ℕ
start_of n zero os = some n
start_of n (suc i) os = offset_at i os

unfoldable column_from : ℕ → ℕ → List ℕ → Bytes → Option Bytes
column_from n i os encoded = elim (start_of n i os) [
  | none ↦ none
  | some start ↦ elim (offset_at i os) [ none ↦ none | some end ↦ slice start end encoded ]
]

module _ (cut_one : Bytes → Option (Bytes × Bytes)) (law : IsCutter cut_one) where
  padded : Bytes → Bytes
  padded b = if ltb (length b) 9 then pad_nine 9 b else b
