-- ===== src/Tests/Petri.antt =====
-- The theorems on the schema validator at concrete inputs.
use mileva_db.Petri.SchemaChecker.{
  check_by_schema_ver, check_rounds, has_newer, check_by_schema_ver-has_newer,
}
use mileva_db.Prelude.{
  ◌&&◌, ℕ, ◌*◌, ◌≡◌, ◌≤◌, refl, inl, false, Option, none, some, List, [], ◌∷◌, length, arith,
}
use mileva_db.Petri.SchemaValidator.{
  RelatedSchemaChange, DeltaSchemaInfo, SchemaValidator, push_delta, cut_queue, newer_from,
  note_table, note_tables, note_deltas, new_schema_validator, delta_of, enqueue, update_validator,
  is_related_blocks_changed, check_older, check_validator,
}
use mileva_db.Petri.SchemaValidator.Queue.{length-enqueue, mem_id}
use mileva_db.Petri.SchemaValidator.History.Runs.{Runs, starts, updates}
use mileva_db.Petri.SchemaValidator.History.Check.{check_validator-IsAmong}

abbrev change_of : ℕ → Option (RelatedSchemaChange ℕ)
change_of id = some record {
  phy_tbl_ids = id ∷ [];
  causet_action_types = 1 ∷ [];
  amendable = false;
  latest_schema_replicant = none;
}

abbrev fresh_validator : SchemaValidator ℕ
fresh_validator = new_schema_validator 5000000

abbrev time_of : ℕ → ℕ
time_of ts = ts * 1000000

abbrev once_updated : SchemaValidator ℕ
once_updated = update_validator time_of 100 none 7 0 1 (change_of 20) fresh_validator

abbrev twice_updated : SchemaValidator ℕ
twice_updated = update_validator time_of 100 none 8 1 2 (change_of 30) once_updated

abbrev two_changes : List DeltaSchemaInfo
two_changes = delta_of 2 (change_of 30) ∷ delta_of 1 (change_of 20) ∷ []

twice_updated-Runs : Runs time_of twice_updated two_changes
twice_updated-Runs =
    updates once_updated (delta_of 1 (change_of 20) ∷ [])
      (updates fresh_validator [] (starts 5000000) 100 none 7 0 1 (change_of 20) (omega arith) refl
        tt)
      100 none 8 1 2 (change_of 30) (omega arith) refl (omega arith, tt)

length-enqueue_example : length (enqueue 2 3 (change_of 40) two_changes) ≤ 2
length-enqueue_example = length-enqueue 2 3 (change_of 40) two_changes (omega arith)

check_validator-IsAmong_example : mem_id 30 (40 ∷ []) ≡ false
unfolding check_validator check_older is_related_blocks_changed note_deltas note_tables note_table
    newer_from update_validator enqueue push_delta cut_queue new_schema_validator mem_id
check_validator-IsAmong_example =
    check_validator-IsAmong time_of twice_updated two_changes 9 1 (40 ∷ [])
      (delta_of 2 (change_of 30)) 30 twice_updated-Runs refl (omega arith) refl (inl refl)
      (omega arith) refl

check_by_schema_ver-has_newer_example :
    (round : ℕ) × ((id : ℕ) → (has_newer 1 id two_changes && mem_id id (40 ∷ [])) ≡ false)
unfolding check_validator check_older is_related_blocks_changed note_deltas note_tables note_table
    newer_from update_validator enqueue push_delta cut_queue new_schema_validator
    check_by_schema_ver check_rounds
check_by_schema_ver-has_newer_example =
    check_by_schema_ver-has_newer time_of (λ i. twice_updated) (λ i. two_changes) 10
      record { schema_ver = 1; related_block_ids = 40 ∷ [] } 9 1 (λ i. twice_updated-Runs)
      (λ i. refl) (λ i. omega arith) refl
