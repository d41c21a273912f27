-- ===== src/Petri/SchemaChecker.antt =====
-- The checker of a transaction's schema version, petri/schema_checker.go. Between two rounds of its
-- loop it sleeps, and the validator may change: `validator` gives it at each round.
use mileva_db.Prelude.{
  ltb, ◌&&◌, ◌||◌, Bool-cases, ℕ, zero, suc, ◌+◌, ◌<◌, ◌≡◌, ◌⊎◌, inl, inr, refl, Bool, true, false,
  Option, none, List, [], ◌∷◌, ◌==◌, arith,
}
use mileva_db.Petri.SchemaValidator.{
  CheckResult, result_succ, result_fail, result_unknown, RelatedSchemaChange, DeltaSchemaInfo,
  SchemaValidator, check_validator,
}
use mileva_db.Petri.SchemaValidator.Queue.{mem_id}
use mileva_db.Petri.SchemaValidator.History.Runs.{IsAmong, Runs}
use mileva_db.Petri.SchemaValidator.History.Check.{check_validator-IsAmong, check_validator-succ}

pub record SchemaChecker : Type 0 where
  pub schema_ver : ℕ
  pub related_block_ids : List ℕ

-- The errors of CheckBySchemaVer; `passed` is a nil error.
pub data CheckerError : Type 0 where
  passed schema_changed schema_expired : CheckerError

module _ {Rep : Type 0} (time_of_ts : ℕ → ℕ) (validator : ℕ → SchemaValidator Rep) where
  abbrev pub CheckAnswer : Type 0
  CheckAnswer = Option (RelatedSchemaChange Rep) × CheckerError

  -- The switch of the loop, with what follows a sleep.
  abbrev pub decide : Option (RelatedSchemaChange Rep) × CheckResult → CheckAnswer → CheckAnswer
  decide (change, result_succ) later = (none, passed)
  decide (change, result_fail) later = (change, schema_changed)
  decide (change, result_unknown) later = later

  decided :
      (p : Option (RelatedSchemaChange Rep) × CheckResult) (later : CheckAnswer)
      → (decide p later).1 ≡ passed
      → (p.1 ≡ result_succ) ⊎ (later.1 ≡ passed)
  decided (change, result_succ) later h = inl refl
  decided (change, result_fail) later h = inl (cc)
  decided (change, result_unknown) later h = inr h

  -- The rounds from number `i` on, `times` of them.
  unfoldable pub check_rounds : (times i : ℕ) → (txn_ts ver : ℕ) → List ℕ → CheckAnswer
  check_rounds zero i txn_ts ver ids = (none, schema_expired)
  check_rounds (suc times) i txn_ts ver ids =
      decide (check_validator time_of_ts (validator i) txn_ts ver ids)
        (check_rounds times (i + 1) txn_ts ver ids)

  -- SchemaOutOfDateRetryTimes is the argument `times`.
  unfoldable pub check_by_schema_ver :
      (times : ℕ) → SchemaChecker → (txn_ts start_schema_ver : ℕ) → CheckAnswer
  check_by_schema_ver times s txn_ts start_schema_ver =
      check_rounds times 0 txn_ts start_schema_ver s.related_block_ids

  unfoldable pub check_schema : (times : ℕ) → SchemaChecker → (txn_ts : ℕ) → CheckAnswer
  check_schema times s txn_ts = check_by_schema_ver times s txn_ts s.schema_ver

  -- Where the loop passes, the validator has let the transaction pass at one of its rounds.
  passed_round :
      (times i txn_ts ver : ℕ) (ids : List ℕ)
      → (check_rounds times i txn_ts ver ids).1 ≡ passed
      → (j : ℕ) × ((check_validator time_of_ts (validator j) txn_ts ver ids).1 ≡ result_succ)
  unfolding check_rounds
  passed_round zero i txn_ts ver ids h = (i, cc)
  passed_round (suc times) i txn_ts ver ids h =
      elim (decided (check_validator time_of_ts (validator i) txn_ts ver ids)
        (check_rounds times (i + 1) txn_ts ver ids) h) [
          | inl p ↦ (i, p)
          | inr q ↦ passed_round times (i + 1) txn_ts ver ids q
        ]

-- Whether a change of a history to a version above `ver` has the table.
unfoldable pub has_newer : (ver id : ℕ) → List DeltaSchemaInfo → Bool
has_newer ver id [] = false
has_newer ver id (d ∷ history) =
    (ltb ver d.schema_version && mem_id id d.related_ids) || has_newer ver id history

newer-IsAmong :
    (ver id : ℕ) (history : List DeltaSchemaInfo)
    → has_newer ver id history ≡ true
    → (d : DeltaSchemaInfo) × IsAmong d history
      × (ver < d.schema_version)
      × (mem_id id d.related_ids ≡ true)
unfolding has_newer
newer-IsAmong ver id [] h = cc
newer-IsAmong ver id (d ∷ history) h =
    elim (Bool-cases (ltb ver d.schema_version && mem_id id d.related_ids)) [
      | inl p ↦ (d, inl refl, ground arith, ground arith)
      | inr p ↦
          let rest = newer-IsAmong ver id history (ground arith) in
          (rest.0, inr rest.1, rest.2, rest.3)
    ]

-- Where CheckBySchemaVer returns no error for a schema version that was older than the latest one at
-- every round, there is a round at which no change of the validator's whole history to a newer version
-- has one of the transaction's tables.
pub check_by_schema_ver-has_newer :
    {Rep : Type 0}
    → (time_of_ts : ℕ → ℕ) (validator : ℕ → SchemaValidator Rep)
    → (history : ℕ → List DeltaSchemaInfo) → (times : ℕ) (s : SchemaChecker) (txn_ts ver : ℕ)
    → ((i : ℕ) → Runs time_of_ts (validator i) (history i))
    → ((i : ℕ) → ((validator i).lease == 0) ≡ false)
    → ((i : ℕ) → ver < (validator i).latest_schema_ver)
    → (check_by_schema_ver time_of_ts validator times s txn_ts ver).1 ≡ passed
    → (round : ℕ) × ((id : ℕ)
        → (has_newer ver id (history round) && mem_id id s.related_block_ids) ≡ false)
unfolding check_by_schema_ver
check_by_schema_ver-has_newer time_of_ts validator history times s txn_ts ver runs lease older h =
    let found = passed_round time_of_ts validator times 0 txn_ts ver s.related_block_ids h in
    (
      found.0,
      λ id. elim (Bool-cases (has_newer ver id (history found.0))) [
        | inr p ↦ rw p refl
        | inl p ↦
            let d = newer-IsAmong ver id (history found.0) p in
            let absent =
              check_validator-IsAmong time_of_ts (validator found.0) (history found.0) txn_ts ver
                s.related_block_ids d.0 id (runs found.0) (lease found.0) (older found.0)
                (check_validator-succ time_of_ts (validator found.0) txn_ts ver s.related_block_ids
                  found.1)
                d.1 d.2 d.3 in
            rw (p, absent) refl
      ],
    )
