-- ===== src/Petri/SchemaValidator/History/Newer.antt =====
-- findNewerDeltas and the tables that are noted.
use mathlib.Core.Path.{subst}
use Prim.Native.Nat.{bit_or}
use mileva_db.Prelude.{
  ℕ, ◌≤◌, ◌<◌, ◌≡◌, refl, sym, ap, true, false, List, [], ◌∷◌, ◌==◌, ltb, leb, length, arith,
  Bool-cases, inl, inr,
}
use mileva_db.Maps.{map_get, map_set}
use mileva_db.Petri.SchemaValidator.{
  DeltaSchemaInfo, newer_from, note_table, note_tables, note_deltas, is_nil, other_actions,
  first_action, or_zero,
}
use mileva_db.Petri.SchemaValidator.Queue.{mem_id, covers, Newer, Ascends}
use mileva_db.Mvcc.Rows.Order.{All-mono}

-- Where every version is newer, the loop of findNewerDeltas runs to the left end.
all-Newer : (ver : ℕ) (qs : List DeltaSchemaInfo) → Newer ver qs → newer_from ver qs ≡ (true, qs)
unfolding newer_from
all-Newer ver [] h = refl
all-Newer ver (q ∷ qs) h =
    let t : ltb ver q.schema_version ≡ true = ground (arith, h.0) in
    rw (all-Newer ver qs h.1, t) refl

Newer-behind :
    (ver v : ℕ) (q : DeltaSchemaInfo) (qs : List DeltaSchemaInfo)
    → ver < q.schema_version
    → Newer q.schema_version qs
    → Newer ver (q ∷ qs)
Newer-behind ver v q qs h n = (
  h,
  All-mono (λ d. q.schema_version < d.schema_version) (λ d. ver < d.schema_version) qs
      (λ d l. omega (arith, h, l)) n,
)

-- In an ascending queue, the changes that findNewerDeltas finds are all that are newer.
pub newer_from-covers :
    (ver v id : ℕ) (qs : List DeltaSchemaInfo)
    → Ascends qs
    → ver < v
    → covers v id qs ≡ true
    → covers v id (newer_from ver qs).1 ≡ true
unfolding newer_from covers
newer_from-covers ver v id [] a l h = h
newer_from-covers ver v id (q ∷ qs) a l h = elim (Bool-cases (ltb ver q.schema_version)) [
  | inl p ↦ let n = Newer-behind ver v q qs (ground arith) a.0 in rw (all-Newer ver qs n.1, p) h
  | inr p ↦
      let old : leb v q.schema_version ≡ false = ground arith in
      let rest = newer_from-covers ver v id qs a.1 l (ground arith) in
      elim (Bool-cases (newer_from ver qs).0) [ inl e ↦ rw (e, p) rest | inr e ↦ rw e rest ]
]

-- Where not all changes are newer, the first one is not.
pub first_not_newer :
    (ver : ℕ) (q : DeltaSchemaInfo) (qs : List DeltaSchemaInfo)
    → Ascends (q ∷ qs)
    → (length (newer_from ver (q ∷ qs)).1 == length (q ∷ qs)) ≡ false
    → q.schema_version ≤ ver
first_not_newer ver q qs a h = elim (Bool-cases (ltb ver q.schema_version)) [
  | inl p ↦
      let n = Newer-behind ver ver q qs (ground arith) a.0 in
      let e : length (newer_from ver (q ∷ qs)).1 ≡ length (q ∷ qs) =
        ap (λ x. length x.1) (all-Newer ver (q ∷ qs) n) in
      ground (arith, e)
  | inr p ↦ ground arith
]

set_not_nil : (k v : ℕ) (m : List (ℕ × ℕ)) → is_nil (map_set ◌==◌ k v m) ≡ false
unfolding map_set
set_not_nil k v [] = refl
set_not_nil k v ((j, w) ∷ m) = elim (Bool-cases (j == k)) [ inl p ↦ rw p refl | inr p ↦ rw p refl ]

-- A table that is noted is not forgotten.
note_table-nil :
    (i a : ℕ) (blocks : List ℕ) (m : List (ℕ × ℕ))
    → is_nil (note_table i a blocks m) ≡ true
    → (is_nil m ≡ true) × (mem_id i blocks ≡ false)
unfolding note_table mem_id
note_table-nil i a [] m h = (h, refl)
note_table-nil i a (b ∷ blocks) m h =
    let rest = note_table-nil i a blocks _ h in
    let w = set_not_nil i (bit_or (or_zero (map_get ◌==◌ i m)) a) m in
    elim (Bool-cases (i == b)) [
      | inl p ↦ (ground (arith, rest.0, w), ground (arith, rest.0, w))
      | inr p ↦ (ground (arith, rest.0), ground (arith, p, rest.1))
    ]

note_tables-nil :
    (i : ℕ) (ids actions blocks : List ℕ) (m : List (ℕ × ℕ))
    → is_nil (note_tables ids actions blocks m) ≡ true
    → (is_nil m ≡ true) × (mem_id i ids ≡ true → mem_id i blocks ≡ false)
unfolding note_tables mem_id
note_tables-nil i [] actions blocks m h = (h, λ g. cc)
note_tables-nil i (j ∷ ids) actions blocks m h =
    let rest = note_tables-nil i ids (other_actions actions) blocks _ h in
    let one = note_table-nil j (first_action actions) blocks m rest.0 in
    (
      one.0,
      λ g. elim (Bool-cases (i == j)) [
        | inl p ↦ let e : i ≡ j = ground arith in subst (λ x. mem_id x blocks ≡ false) (sym e) one.1
        | inr p ↦ rest.1 (ground arith)
      ],
    )

-- Where no table is noted, no change that was looked at has one of the tables.
pub note_deltas-nil :
    (i v : ℕ) (qs : List DeltaSchemaInfo) (blocks : List ℕ) (m : List (ℕ × ℕ))
    → is_nil (note_deltas qs blocks m) ≡ true
    → (is_nil m ≡ true) × (covers v i qs ≡ true → mem_id i blocks ≡ false)
unfolding note_deltas covers
note_deltas-nil i v [] blocks m h = (h, λ g. cc)
note_deltas-nil i v (q ∷ qs) blocks m h =
    let rest = note_deltas-nil i v qs blocks _ h in
    let one = note_tables-nil i q.related_ids q.related_causet_actions blocks m rest.0 in
    (
      one.0,
      λ g. elim (Bool-cases (mem_id i q.related_ids)) [
        | inl p ↦ one.1 p
        | inr p ↦ rest.1 (ground arith)
      ],
    )
