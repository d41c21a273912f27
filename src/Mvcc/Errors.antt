-- ===== src/Mvcc/Errors.antt =====
-- The end of the operations that collect an error for each key.
use mileva_db.Prelude.{Bool, true, false, Option, none, some, List, [], ◌∷◌, if◌then◌else◌}
use mileva_db.Mvcc.Types.{Error, ok, err}
use mileva_db.Mvcc.Env.{Env, Batch}
use mileva_db.Mvcc.Commit.{Store}

abbrev pub any_error : List (Option Error) → Bool
any_error [] = false
any_error (none ∷ errs) = any_error errs
any_error (some er ∷ errs) = true

module _ (e : Env) where
  -- With an error among them the batch is dropped; an error of the write replaces the list.
  abbrev pub write_unless_errors :
      Store e → List (Option Error) × Batch → List (Option Error) × Store e
  write_unless_errors s (errs, batch) =
      if any_error errs then (errs, s) else elim (e.write s.edb batch) [
        | err er ↦ (some er ∷ [], s)
        | ok db ↦ (errs, record s { edb = db })
      ]
