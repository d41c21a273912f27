-- ===== src/Mvcc/Txn/Rollback.antt =====
-- What Rollback does to the view, for Commit and for readers.
use mileva_db.Prelude.{
  ℕ, ◌<◌, ◌≡◌, refl, ◌∙◌, sym, ap, Bool, true, false, Option, none, some, List, [], ◌∷◌, map, arith,
  ◌==◌, if◌then◌else◌, All, Bool-cases, inl, inr, append-nil, ==-refl, ◌&&◌, ◌≢◌,
}
use mileva_db.Bytes.{Bytes, bytes_equal, bytes_equal_refl}
use mileva_db.Mvcc.Types.{Lock, Value, Error, Result, ok, err, retryable, lock_ver, ◌>>=◌}
use mileva_db.Mvcc.Env.{Env, IsLawful, Batch}
use mileva_db.Mvcc.Iter.{Pairs, seek, decode_lock}
use mileva_db.Mvcc.Commit.{
  Store, rollback_key, rollback_at, rollback_found, rollback_without_lock, rollback_keys, rollback,
  rollback_lock, rollback_value, commit, commit_keys, commit_without_lock, get_txn_commit_info,
}
use mileva_db.Mvcc.Rows.{Row, encode_row, RowsFit, Holds, Ascending, LoadFits}
use mileva_db.Mvcc.Rows.Reading.{find_txn, read_values}
use mileva_db.Mvcc.Rows.View.{find_lock, find_values}
use mileva_db.Mvcc.Rows.Writing.{
  RowOp, put_row, delete_at, encode_op, OpFits, apply_rows, insert_row, Ascending-insert_row,
  All-insert_row,
}
use mileva_db.Mvcc.Rows.Effects.{
  value_row, insert_version, find_lock-insert_value, find_lock-delete_lock,
  find_values-insert_value, find_values-delete_lock,
}
use mileva_db.Mvcc.Invariant.{rollback_value-fits, write_batch-Holds}
use mileva_db.Mvcc.Lock.{rc}
use mileva_db.Mvcc.Reads.{get, visible}
use mileva_db.Mvcc.Txn.{at_key, get-view, commit_info-view}
use mileva_db.Mvcc.Txn.Committed.{check_rc}
use mileva_db.Mvcc.Txn.Commit.{commit_decision, commit_key-view}

abbrev pub is_own : ℕ → Option Lock → Bool
is_own start_ts none = false
is_own start_ts (some l) = l.start_ts == start_ts

-- rollbackKey as a function of the lock and the versions of the key.
unfoldable pub rollback_decision : (e : Env) → Bytes → ℕ → Option Lock → List Value → Result Batch
rollback_decision e key start_ts lock versions =
    if is_own start_ts lock
    then ok (rollback_lock e key start_ts)
    else rollback_without_lock e key start_ts (find_txn start_ts versions)

module _ (e : Env) (law : IsLawful e) (key : Bytes) (start_ts : ℕ) where
  rollback_at-bind :
      (pairs : Pairs)
      → rollback_at e key start_ts pairs none
        ≡ (decode_lock e key pairs none >>= rollback_found e key start_ts)
  unfolding rollback_at decode_lock rollback_found get_txn_commit_info rollback_without_lock
  rollback_at-bind [] = refl
  rollback_at-bind (p ∷ rest) = refl

  rollback_found-view :
      (lock : Option Lock) (versions : List Value) (rest : List Row)
      → get_txn_commit_info e (map (encode_row e) rest) key start_ts
        ≡ ok (find_txn start_ts versions)
      → rollback_found e key start_ts (lock, map (encode_row e) rest)
        ≡ rollback_decision e key start_ts lock versions
  unfolding rollback_found rollback_decision
  rollback_found-view none versions rest q = rw q
  rollback_found-view (some l) versions rest q = rw q

  pub rollback_key-view :
      (db : e.Db) (rows : List Row)
      → Holds e db rows
      → rollback_key e db key start_ts
        ≡ rollback_decision e key start_ts (find_lock key rows) (find_values key rows)
  unfolding rollback_key
  rollback_key-view db rows h =
      let a = at_key e law db rows key h in
      rw (a.no_failure, rollback_at-bind (seek e db key).rest)
        (rw
          (ap (λ (f : Option Error). decode_lock e key (seek e db key).rest f) (sym a.no_failure)
            ∙ a.decodes)
          (rollback_found-view (find_lock key rows) (find_values key rows) a.rest
            (commit_info-view e law db key (find_lock key rows) (find_values key rows) start_ts a)))

-- The batch that rolls back a key whose transaction left no record, and the rows after it.
unfoldable pub rollback_ops : Bytes → ℕ → Option Lock → List RowOp
rollback_ops key start_ts lock =
    put_row (value_row key (rollback_value start_ts))
    ∷ (if is_own start_ts lock then delete_at key lock_ver ∷ [] else [])

module _ (e : Env) (law : IsLawful e) (key : Bytes) (start_ts : ℕ)
    (start_fits : start_ts < lock_ver) where
  rollback_ops-fit : (lock : Option Lock) → All (OpFits e) (rollback_ops key start_ts lock)
  unfolding rollback_ops
  rollback_ops-fit lock = (
    (rollback_value-fits e start_ts start_fits, unfold rollback_value in start_fits),
    elim (Bool-cases (is_own start_ts lock)) [
      | inl own ↦ rw own (omega arith, tt)
      | inr other ↦ rw other tt
    ],
  )

  rollback_decision-ops :
      (lock : Option Lock) (versions : List Value)
      → find_txn start_ts versions ≡ none
      → rollback_decision e key start_ts lock versions
        ≡ ok (map (encode_op e) (rollback_ops key start_ts lock))
  unfolding rollback_decision rollback_ops rollback_lock rollback_without_lock
  rollback_decision-ops lock versions fresh = rw fresh (ground arith)

  pub rollback-Holds :
      (s : Store e) (rows : List Row)
      → Holds e s.edb rows
      → find_txn start_ts (find_values key rows) ≡ none
      → (db : e.Db) × (rollback e s (key ∷ []) start_ts ≡ (
        ok tt,
        record { edb = db; deadlock_detector = e.clean_up s.deadlock_detector start_ts },
      ))
        × Holds e db (apply_rows (rollback_ops key start_ts (find_lock key rows)) rows)
  unfolding rollback rollback_keys
  rollback-Holds s rows h fresh =
      let (db, written, holds) =
        write_batch-Holds {0} e law s rows (rollback_ops key start_ts (find_lock key rows)) tt h
          (rollback_ops-fit (find_lock key rows)) in
      (
        db,
        rw
            (
              rollback_key-view e law key start_ts s.edb rows h,
              rollback_decision-ops (find_lock key rows) (find_values key rows) fresh,
              append-nil (map (encode_op e) (rollback_ops key start_ts (find_lock key rows))),
            )
            (rw written),
        holds,
      )

  rollback_ts : (rollback_value start_ts).commit_ts < lock_ver
  unfolding rollback_value
  rollback_ts = start_fits

  pub find_lock-rollback_ops :
      (j : Bytes) (rows : List Row)
      → Ascending rows
      → find_lock j (apply_rows (rollback_ops key start_ts (find_lock key rows)) rows) ≡ (
          if bytes_equal key j && is_own start_ts (find_lock key rows)
          then none
          else find_lock j rows)
  unfolding rollback_ops
  find_lock-rollback_ops j rows asc = elim (Bool-cases (is_own start_ts (find_lock key rows))) [
    | inl own ↦
        rw
          (
            own,
            find_lock-delete_lock j key marked (Ascending-insert_row _ rows asc),
            find_lock-insert_value e j key (rollback_value start_ts) rows rollback_ts,
          )
          (ground arith)
    | inr other ↦
        rw (other, find_lock-insert_value e j key (rollback_value start_ts) rows rollback_ts)
          (ground arith)
  ]
    where
      marked : List Row
      marked = insert_row (value_row key (rollback_value start_ts)) rows

  pub find_values-rollback_ops :
      (j : Bytes) (rows : List Row)
      → Ascending rows
      → RowsFit e rows
      → find_values j (apply_rows (rollback_ops key start_ts (find_lock key rows)) rows) ≡ (
          if bytes_equal key j
          then insert_version (rollback_value start_ts) (find_values j rows)
          else find_values j rows)
  unfolding rollback_ops
  find_values-rollback_ops j rows asc fit =
      elim (Bool-cases (is_own start_ts (find_lock key rows))) [
        | inl own ↦
            rw (own, find_values-delete_lock e j key marked fit_marked)
              (find_values-insert_value e j key (rollback_value start_ts) rows rollback_ts asc)
        | inr other ↦
            rw other
              (find_values-insert_value e j key (rollback_value start_ts) rows rollback_ts asc)
      ]
    where
      marked : List Row
      marked = insert_row (value_row key (rollback_value start_ts)) rows

      fit_marked : RowsFit e marked
      fit_marked =
          All-insert_row (λ r. LoadFits e r.load) (value_row key (rollback_value start_ts)) rows
            (rollback_value-fits e start_ts start_fits, rollback_ts) fit

-- Reading and looking up behind the rollback record.
find_txn-insert_version :
    (v : Value) (vs : List Value)
    → find_txn v.start_ts vs ≡ none
    → find_txn v.start_ts (insert_version v vs) ≡ some v
unfolding find_txn insert_version
find_txn-insert_version v [] q = rw (==-refl v.start_ts) refl
find_txn-insert_version v (w ∷ ws) q =
    ground (arith, ==-refl v.start_ts, find_txn-insert_version v ws)

find_txn-insert_rollback :
    (start_ts : ℕ) (vs : List Value)
    → find_txn start_ts vs ≡ none
    → find_txn start_ts (insert_version (rollback_value start_ts) vs)
      ≡ some (rollback_value start_ts)
unfolding rollback_value
find_txn-insert_rollback start_ts vs q = find_txn-insert_version (rollback_value start_ts) vs q

read_values-insert_rollback :
    (start_ts ts : ℕ) (vs : List Value)
    → All (λ v. v.commit_ts ≢ start_ts) vs
    → read_values ts (insert_version (rollback_value start_ts) vs) ≡ read_values ts vs
unfolding read_values insert_version rollback_value visible
read_values-insert_rollback start_ts ts [] other = ground arith
read_values-insert_rollback start_ts ts (w ∷ ws) (o, os) =
    ground (arith, o, read_values-insert_rollback start_ts ts ws os)

pub decided_not_own :
    (start_ts : ℕ) (own : Bool) (lock : Option Lock)
    → is_own start_ts lock ≡ own
    → is_own start_ts (if own then none else lock) ≡ false
decided_not_own start_ts true lock q = refl
decided_not_own start_ts false lock q = q

commit-rolled_back :
    (e : Env) (key : Bytes) (start_ts commit_ts : ℕ) (lock : Option Lock) (versions : List Value)
    → is_own start_ts lock ≡ false
    → find_txn start_ts versions ≡ some (rollback_value start_ts)
    → commit_decision e key start_ts commit_ts lock versions ≡ err retryable
unfolding commit_decision commit_without_lock rollback_value
commit-rolled_back e key start_ts commit_ts none versions other q = rw q refl
commit-rolled_back e key start_ts commit_ts (some l) versions other q = rw (other, q) refl

module _ (e : Env) (law : IsLawful e) (s : Store e) (rows : List Row) (key : Bytes) (start_ts : ℕ)
    (start_fits : start_ts < lock_ver) (h : Holds e s.edb rows)
    (fresh : find_txn start_ts (find_values key rows) ≡ none) where
  -- Let the store hold `rows`, with no record of the transaction `start_ts`, below the maximum,
  -- among the versions of `key`; its lock may be there or not. Then Rollback of the key returns
  -- no error, and a later Commit of the key by that transaction, at any commit timestamp, returns
  -- the retryable error and leaves the database as Rollback left it.
  pub rollback-commit :
      (commit_ts : ℕ)
      → ((rollback e s (key ∷ []) start_ts).0 ≡ ok tt)
        × ((commit e (rollback e s (key ∷ []) start_ts).1 (key ∷ []) start_ts commit_ts).0
            ≡ err retryable)
        × ((commit e (rollback e s (key ∷ []) start_ts).1 (key ∷ []) start_ts commit_ts).1.edb
            ≡ (rollback e s (key ∷ []) start_ts).1.edb)
  unfolding commit commit_keys
  rollback-commit commit_ts =
      let (db, written, holds) = rollback-Holds e law key start_ts start_fits s rows h fresh in
      let refused = commit_key-view e law db after key start_ts commit_ts holds ∙ decided in
      rw written (refl, rw refused refl, rw refused refl)
    where
      after : List Row
      after = apply_rows (rollback_ops key start_ts (find_lock key rows)) rows

      versions_eq :
          find_values key (apply_rows (rollback_ops key start_ts (find_lock key rows)) rows)
          ≡ insert_version (rollback_value start_ts) (find_values key rows)
      versions_eq =
          rw
            (
              find_values-rollback_ops e law key start_ts start_fits key rows h.ascending h.fit,
              bytes_equal_refl key,
            )
            refl

      lock_eq :
          find_lock key (apply_rows (rollback_ops key start_ts (find_lock key rows)) rows)
          ≡ (if is_own start_ts (find_lock key rows) then none else find_lock key rows)
      lock_eq =
          rw
            (
              find_lock-rollback_ops e law key start_ts start_fits key rows h.ascending,
              bytes_equal_refl key,
            )
            refl

      decided :
          commit_decision e key start_ts commit_ts (find_lock key after) (find_values key after)
          ≡ err retryable
      decided =
          rw (versions_eq, lock_eq)
            (commit-rolled_back e key start_ts commit_ts _ _
              (decided_not_own start_ts (is_own start_ts (find_lock key rows)) (find_lock key rows)
                refl)
              (find_txn-insert_rollback start_ts (find_values key rows) fresh))

  -- Let the store hold `rows`, with no record of the transaction `start_ts`, below the maximum,
  -- among the versions of `key`; its lock may be there or not. Then Rollback of `key` changes no
  -- read that ignores locks: for every key without a version committed at `start_ts` itself, and
  -- at every timestamp, Get at isolation level RC answers after it as before it.
  pub get-rollback :
      (j : Bytes) (ts : ℕ)
      → All (λ v. v.commit_ts ≢ start_ts) (find_values j rows)
      → get e (rollback e s (key ∷ []) start_ts).1.edb j ts rc [] ≡ get e s.edb j ts rc []
  get-rollback j ts other =
      let (db, written, holds) = rollback-Holds e law key start_ts start_fits s rows h fresh in
      rw
        (
          written,
          get-view e law db (apply_rows (rollback_ops key start_ts (find_lock key rows)) rows) j ts
              rc [] holds,
          get-view e law s.edb rows j ts rc [] h,
        )
        (rw
          (
            check_rc e
                (find_lock j (apply_rows (rollback_ops key start_ts (find_lock key rows)) rows)) ts
                j,
            check_rc e (find_lock j rows) ts j,
            find_values-rollback_ops e law key start_ts start_fits j rows h.ascending h.fit,
          )
          (ap (λ (v : Option Bytes). ok v) (reads (bytes_equal key j))))
    where
      reads :
          (same : Bool)
          → read_values ts (
              if same
              then insert_version (rollback_value start_ts) (find_values j rows)
              else find_values j rows)
            ≡ read_values ts (find_values j rows)
      reads true = (read_values-insert_rollback start_ts ts (find_values j rows) other)
      reads false = refl
