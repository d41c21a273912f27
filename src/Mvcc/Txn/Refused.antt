-- ===== src/Mvcc/Txn/Refused.antt =====
-- What a transaction that was rolled back can no longer do.
use mileva_db.Prelude.{
  Order-cases, is_lt, is_eq, is_gt, ℕ, ◌<◌, ◌⊎◌, inl, inr, ◌≤◌, compare, ◌≡◌, refl, Bool, true,
  false, Option, none, some, List, [], ◌∷◌, arith, if◌then◌else◌, All,
}
use mathlib.Core.Path.{subst}
use mileva_db.Bytes.{bytes_equal_refl}
use mileva_db.Mvcc.Types.{Lock, Value, Error, ok, err, lock_ver}
use mileva_db.Mvcc.Env.{Env, IsLawful, Batch}
use mileva_db.Mvcc.Lock.{lock_err}
use mileva_db.Mvcc.Commit.{Store, rollback, rollback_value}
use mileva_db.Mvcc.Conflict.{Mutation}
use mileva_db.Mvcc.Prewrite.{PrewriteCtx, prewrite_mutation}
use mileva_db.Mvcc.Rows.{Row, Holds}
use mileva_db.Mvcc.Rows.Reading.{find_txn}
use mileva_db.Mvcc.Rows.View.{find_lock, find_values}
use mileva_db.Mvcc.Rows.Writing.{apply_rows}
use mileva_db.Mvcc.Rows.Effects.{insert_version}
use mileva_db.Mvcc.Txn.Conflict.{prewrite_decision, prewrite_mutation-view}
use mileva_db.Mvcc.Txn.WriteConflict.{
  Result-cases, is_ok, is_err, NotRolledBack, Descending, decision-NoConflict,
  find_values-Descending,
}
use mileva_db.Mvcc.Txn.Rollback.{
  is_own, rollback_ops, rollback-Holds, find_lock-rollback_ops, find_values-rollback_ops,
  decided_not_own,
}

-- The rollback record is among the versions.
insert_version-cases :
    (v w : Value) (ws : List Value)
    → ((rest : List Value) × (insert_version v (w ∷ ws) ≡ v ∷ rest))
      ⊎ (insert_version v (w ∷ ws) ≡ w ∷ insert_version v ws)
unfolding insert_version
insert_version-cases v w ws = elim (Order-cases (compare w.commit_ts v.commit_ts)) [
  | is_lt p ↦ inl (w ∷ ws, ground (arith, p))
  | is_eq p ↦ inl (ws, ground (arith, p))
  | is_gt p ↦ inr (ground (arith, p))
]

All-insert_version :
    (P : Value → Type 0) (v : Value) (vs : List Value) → All P (insert_version v vs) → P v
unfolding insert_version
All-insert_version P v [] all = all.0
All-insert_version P v (w ∷ ws) all = elim (insert_version-cases v w ws) [
  | inl (rest, q) ↦ (subst (All P) q all).0
  | inr q ↦ All-insert_version P v ws (subst (All P) q all).1
]

record_among :
    (start_ts : ℕ) (vs : List Value)
    → All
        (λ v. (v.commit_ts ≤ start_ts) × NotRolledBack start_ts v)
        (insert_version (rollback_value start_ts) vs)
    → ⊥
unfolding rollback_value
record_among start_ts vs all = (All-insert_version _ (rollback_value start_ts) vs all).1 refl refl

refused :
    (e : Env) (m : Mutation) (c : PrewriteCtx) (flag : Bool) (lock : Option Lock) (vs : List Value)
    (batch : Batch)
    → is_own c.start_ts lock ≡ false
    → Descending (insert_version (rollback_value c.start_ts) vs)
    → prewrite_decision e m c flag lock (insert_version (rollback_value c.start_ts) vs) ≡ ok batch
    → ⊥
unfolding prewrite_decision lock_err
refused e m c flag (some l) vs batch other d q = ground arith
refused e m c true none vs batch other d q = ground arith
refused e m c false none vs batch other d q =
    record_among c.start_ts vs (
      decision-NoConflict e m c false none (insert_version (rollback_value c.start_ts) vs) batch d
        q)

module _ (e : Env) (law : IsLawful e) (s : Store e) (rows : List Row) (m : Mutation)
    (c : PrewriteCtx) (start_fits : c.start_ts < lock_ver) (h : Holds e s.edb rows)
    (fresh : find_txn c.start_ts (find_values m.key rows) ≡ none) where
  abbrev after : List Row
  after = apply_rows (rollback_ops m.key c.start_ts (find_lock m.key rows)) rows

  abbrev own_gone : Option Lock
  own_gone = if is_own c.start_ts (find_lock m.key rows) then none else find_lock m.key rows

  -- Let the store hold `rows`, with no record of the transaction, whose start timestamp is below
  -- the maximum, among the versions of the mutation's key; its lock may be there or not. After
  -- Rollback of the key, prewriteMutation of that transaction on the key returns an error,
  -- whether the mutation is flagged as pessimistically locked or not.
  pub rollback-prewrite_mutation :
      (flag : Bool)
      → (er : Error) × (prewrite_mutation e (rollback e s (m.key ∷ []) c.start_ts).1.edb m c flag
          ≡ err er)
  rollback-prewrite_mutation flag =
      let (db, written, holds) = rollback-Holds e law m.key c.start_ts start_fits s rows h fresh in
      rw (written, prewrite_mutation-view e law m c db after flag holds)
        (elim (Result-cases
          (prewrite_decision e m c flag (find_lock m.key after) (find_values m.key after))) [
            | is_err er p ↦ (er, p)
            | is_ok batch p ↦ absurd (
                refused e m c flag own_gone (find_values m.key rows) batch
                  (decided_not_own c.start_ts (is_own c.start_ts (find_lock m.key rows))
                    (find_lock m.key rows) refl)
                  (subst Descending versions_eq
                    (find_values-Descending m.key after holds.ascending))
                  (rw (← lock_eq, ← versions_eq) p))
          ])
    where
      versions_eq :
          find_values m.key after
          ≡ insert_version (rollback_value c.start_ts) (find_values m.key rows)
      versions_eq =
          rw
            (
              find_values-rollback_ops e law m.key c.start_ts start_fits m.key rows h.ascending
                  h.fit,
              bytes_equal_refl m.key,
            )
            refl

      lock_eq : find_lock m.key after ≡ own_gone
      lock_eq =
          rw
            (
              find_lock-rollback_ops e law m.key c.start_ts start_fits m.key rows h.ascending,
              bytes_equal_refl m.key,
            )
            refl
