-- ===== src/Petri/SchemaValidator/History/Check.antt =====
-- What a check that succeeds says of the history.
use mileva_db.Prelude.{
  ltb, ℕ, ◌<◌, ◌≡◌, refl, ap, Bool, true, false, not, Option, none, List, [], ◌∷◌, ◌==◌,
  if◌then◌else◌, lt→ltb, length, arith, Bool-cases, inl, inr,
}
use mileva_db.Petri.SchemaValidator.{
  CheckResult, result_succ, result_fail, result_unknown, RelatedSchemaChange, DeltaSchemaInfo,
  SchemaValidator, is_related_blocks_changed, check_older, check_validator, is_nil, newer_from,
  note_deltas, no_change,
}
use mileva_db.Petri.SchemaValidator.Queue.{mem_id, covers, Ascends}
use mileva_db.Petri.SchemaValidator.History.Newer.{
  newer_from-covers, first_not_newer, note_deltas-nil,
}
use mileva_db.Petri.SchemaValidator.History.Runs.{IsAmong, is_after_first, Runs, Runs-Knows}

-- The answer of isRelatedBlocksChanged by its three tests.
abbrev answer_of :
    {Rep : Type 0}
    → (ℕ → ℕ)
    → (a b c : Bool) → RelatedSchemaChange Rep
    → RelatedSchemaChange Rep × Bool
answer_of time_of a b c x =
    if a
    then (no_change time_of, true)
    else if b
    then (no_change time_of, true)
    else if c
    then (no_change time_of, false)
    else (x, true)

three_tests :
    {Rep : Type 0}
    → (time_of : ℕ → ℕ) (a b c : Bool) (x : RelatedSchemaChange Rep)
    → (answer_of time_of a b c x).1 ≡ false
    → (a ≡ false) × (b ≡ false) × (c ≡ true)
three_tests t true b c x h = (cc, cc, cc)
three_tests t false true c x h = (cc, cc, cc)
three_tests t false false true x h = (refl, refl, refl)
three_tests t false false false x h = (cc, cc, cc)

older_tests :
    {Rep : Type 0}
    → (started zero_lease older none_related : Bool)
    → (x y : Option (RelatedSchemaChange Rep) × CheckResult)
    → (if not started
        then (none, result_unknown)
        else if zero_lease
        then (none, result_succ)
        else if older
        then (if none_related then (none, result_fail) else x)
        else y)
      ≡ (none, result_succ)
    → zero_lease ≡ false
    → older ≡ true
    → (started ≡ true) × (x ≡ (none, result_succ))
older_tests false z o n x y h e g = let p = ap (λ t. t.1) h in (cc, cc)
older_tests true true o n x y h e g = (cc, cc)
older_tests true false false n x y h e g = (cc, cc)
older_tests true false true true x y h e g = let p = ap (λ t. t.1) h in (cc, cc)
older_tests true false true false x y h e g = (refl, h)

-- A table of a change behind the version is not among the tables, where the comparison says so.
behind :
    (ver id v : ℕ) (ids : List ℕ) (qs : List DeltaSchemaInfo)
    → Ascends qs
    → ver < v
    → (is_nil qs ≡ false)
    → ((length (newer_from ver qs).1 == length qs) ≡ false)
    → (is_nil (note_deltas (newer_from ver qs).1 ids []) ≡ true)
    → (is_after_first v qs ≡ true → covers v id qs ≡ true)
    → mem_id id ids ≡ false
behind ver id v ids [] a l nn len noted c = cc
behind ver id v ids (q ∷ qs) a l nn len noted c =
    let first = first_not_newer ver q qs a len in
    let cov = c (ground (arith, first, l)) in
    (note_deltas-nil id v (newer_from ver (q ∷ qs)).1 ids [] noted).1
      (newer_from-covers ver v id (q ∷ qs) a l cov)

-- An answer that is a success has no change.
abbrev Clean {ℓ} : {A : Type ℓ} → Option A × CheckResult → Type ℓ
Clean p = p.1 ≡ result_succ → p ≡ (none, result_succ)

succ_tests :
    {Rep : Type 0}
    → (started zero_lease older none_related : Bool)
    → (x y : Option (RelatedSchemaChange Rep) × CheckResult) → Clean x
    → Clean y
    → Clean (
        if not started
        then (none, result_unknown)
        else if zero_lease
        then (none, result_succ)
        else if older
        then (if none_related then (none, result_fail) else x)
        else y)
succ_tests false z o n x y cx cy h = cc
succ_tests true true o n x y cx cy h = refl
succ_tests true false false n x y cx cy h = cy h
succ_tests true false true true x y cx cy h = cc
succ_tests true false true false x y cx cy h = cx h

last_succ :
    {Rep : Type 0}
    → (b : Bool)
    → Clean {A = RelatedSchemaChange Rep}
        (if b then (none, result_unknown) else (none, result_succ))
last_succ true h = cc
last_succ false h = refl

module _ {Rep : Type 0} (time_of_ts : ℕ → ℕ) where
  check_older-unchanged :
      (s : SchemaValidator Rep) (p : RelatedSchemaChange Rep × Bool)
      → check_older time_of_ts s p ≡ (none, result_succ)
      → p.1 ≡ false
  unfolding check_older
  check_older-unchanged s (change, false) h = refl
  check_older-unchanged s (change, true) h = elim (Bool-cases change.amendable) [
    | inl p ↦ ground (arith, p, h)
    | inr p ↦ ground (arith, p, h)
  ]

  older_succ :
      (s : SchemaValidator Rep) (p : RelatedSchemaChange Rep × Bool)
      → Clean (check_older time_of_ts s p)
  unfolding check_older
  older_succ s (change, false) h = refl
  older_succ s (change, true) h = elim (Bool-cases change.amendable) [
    | inl p ↦ ground (arith, p, h)
    | inr p ↦ ground (arith, p, h)
  ]

  tables_unchanged :
      (s : SchemaValidator Rep) (ver : ℕ) (ids : List ℕ)
      → (is_related_blocks_changed time_of_ts s ver ids).1 ≡ false
      → (is_nil s.delta_schema_infos ≡ false)
        × ((length (newer_from ver s.delta_schema_infos).1 == length s.delta_schema_infos) ≡ false)
        × (is_nil (note_deltas (newer_from ver s.delta_schema_infos).1 ids []) ≡ true)
  unfolding is_related_blocks_changed
  tables_unchanged s ver ids h = three_tests time_of_ts _ _ _ _ h

-- Where Check lets a transaction commit whose schema version is older than the latest one, and there
-- is a lease, no change of the whole history to a version above the transaction's has one of its
-- tables: merging changes in the queue, dropping the oldest ones and stopping the validator for a
-- time lose none of them. The maximal
-- length of the queue is not 0 when a change comes, and versions only grow.
pub check_validator-IsAmong :
    {Rep : Type 0}
    → (time_of_ts : ℕ → ℕ) (s : SchemaValidator Rep) (history : List DeltaSchemaInfo)
    → (txn_ts schema_ver : ℕ) (related_ids : List ℕ) (d : DeltaSchemaInfo) (id : ℕ)
    → Runs time_of_ts s history
    → (s.lease == 0) ≡ false
    → schema_ver < s.latest_schema_ver
    → check_validator time_of_ts s txn_ts schema_ver related_ids ≡ (none, result_succ)
    → IsAmong d history
    → schema_ver < d.schema_version
    → mem_id id d.related_ids ≡ true
    → mem_id id related_ids ≡ false
unfolding check_validator
check_validator-IsAmong time_of_ts s history txn_ts ver ids d id run lease older h among newer has =
    let w = Runs-Knows time_of_ts s history run in
    let passed = older_tests _ _ _ _ _ _ h lease (lt→ltb ver s.latest_schema_ver older) in
    let same = tables_unchanged time_of_ts s ver ids (
      check_older-unchanged time_of_ts s (is_related_blocks_changed time_of_ts s ver ids)
        passed.1) in
    behind ver id d.schema_version ids s.delta_schema_infos w.0.ascends newer same.0 same.1 same.2
      (w.0.kept d among id has)

-- A check that succeeds returns no change.
pub check_validator-succ :
    {Rep : Type 0}
    → (time_of_ts : ℕ → ℕ) (s : SchemaValidator Rep) (txn_ts schema_ver : ℕ) (related_ids : List ℕ)
    → (check_validator time_of_ts s txn_ts schema_ver related_ids).1 ≡ result_succ
    → check_validator time_of_ts s txn_ts schema_ver related_ids ≡ (none, result_succ)
unfolding check_validator
check_validator-succ time_of_ts s txn_ts ver ids h =
    succ_tests s.is_started (s.lease == 0) (ltb ver s.latest_schema_ver) (is_nil ids) _ _
      (older_succ time_of_ts s (is_related_blocks_changed time_of_ts s ver ids))
      (last_succ (ltb s.latest_schema_expire (time_of_ts txn_ts))) h
