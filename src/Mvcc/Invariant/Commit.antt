-- ===== src/Mvcc/Invariant/Commit.antt =====
-- Commit and Rollback against the invariant of Mvcc/Invariant.
use mileva_db.Prelude.{
  ℕ, ◌<◌, Option, none, some, List, [], ◌∷◌, ◌++◌, map, ltb, ◌==◌, Bool-cases, inl, inr,
}
use mileva_db.Bytes.{Bytes}
use mileva_db.Mvcc.Types.{Error, Lock, Value, Result, ok, err, lock_ver, ◌>>=◌, type_rollback}
use mileva_db.Mvcc.Env.{Env, IsLawful, Batch}
use mileva_db.Mvcc.Iter.{Pairs, seek, decode_lock}
use mileva_db.Mvcc.Commit.{
  Store, get_txn_commit_info, commit_without_lock, commit_found, commit_key, commit_keys,
  commit_pairs, commit, rollback_without_lock, rollback_found, rollback_at, rollback_key,
  rollback_keys, rollback, rollback_value,
}
use mileva_db.Mvcc.Rows.{Row, encode_row, RowsFit}
use mileva_db.Mvcc.Invariant.{
  IsWellFormed, IsEncoded-nil, IsEncoded-append, Yields, Yields-bind, LockOk, commit_lock-IsEncoded,
  rollback_lock-IsEncoded, put_value-IsEncoded, rollback_value-fits, decode_lock-Yields,
  write_batch-IsWellFormed,
}

module _ (e : Env) (law : IsLawful e) (key : Bytes) (start_ts commit_ts : ℕ)
    (start_fits : start_ts < lock_ver) where
  commit_without_lock-Yields : (c : Option Value) → Yields e (commit_without_lock e c)
  unfolding commit_without_lock
  commit_without_lock-Yields none = tt
  commit_without_lock-Yields (some c) = elim (Bool-cases (c.value_type == type_rollback)) [
    | inl q ↦ rw q tt
    | inr q ↦ rw q (IsEncoded-nil e)
  ]

  no_lock-Yields :
      (rows : List Row)
      → Yields e (
          get_txn_commit_info e (map (encode_row e) rows) key start_ts >>= λ c.
          commit_without_lock e c)
  no_lock-Yields rows =
      Yields-bind e (get_txn_commit_info e (map (encode_row e) rows) key start_ts)
        (λ c. commit_without_lock e c) (λ c _. commit_without_lock-Yields c)

  commit_found-Yields :
      commit_ts < lock_ver
      → (l : Option Lock) (rows : List Row) → LockOk e l
      → RowsFit e rows
      → Yields e (commit_found e key start_ts commit_ts (l, map (encode_row e) rows))
  unfolding commit_found
  commit_found-Yields commit_fits none rows lf fit = no_lock-Yields rows
  commit_found-Yields commit_fits (some l) rows lf fit =
      elim (Bool-cases (l.start_ts == start_ts)) [
        | inr q ↦ rw q (no_lock-Yields rows)
        | inl q ↦ rw q (elim (Bool-cases (ltb commit_ts l.min_commit_ts)) [
          | inl t ↦ rw t tt
          | inr t ↦
              rw t (commit_lock-IsEncoded e l key start_ts commit_ts lf start_fits commit_fits)
        ])
      ]

  commit_key-Yields :
      (db : e.Db)
      → commit_ts < lock_ver
      → IsWellFormed e db
      → Yields e (commit_key e db key start_ts commit_ts)
  unfolding commit_key
  commit_key-Yields db commit_fits w =
      decode_lock-Yields e law db key (commit_found e key start_ts commit_ts) w
        (commit_found-Yields commit_fits)

  rollback_without_lock-Yields :
      (c : Option Value) → Yields e (rollback_without_lock e key start_ts c)
  unfolding rollback_without_lock
  rollback_without_lock-Yields none =
      put_value-IsEncoded e key (rollback_value start_ts)
        (rollback_value-fits e start_ts start_fits) (unfold rollback_value in start_fits)
  rollback_without_lock-Yields (some c) = elim (Bool-cases (c.value_type == type_rollback)) [
    | inl q ↦ rw q (IsEncoded-nil e)
    | inr q ↦ rw q tt
  ]

  no_lock_rollback-Yields :
      (rows : List Row)
      → Yields e (
          get_txn_commit_info e (map (encode_row e) rows) key start_ts >>= λ c.
          rollback_without_lock e key start_ts c)
  no_lock_rollback-Yields rows =
      Yields-bind e (get_txn_commit_info e (map (encode_row e) rows) key start_ts)
        (λ c. rollback_without_lock e key start_ts c) (λ c _. rollback_without_lock-Yields c)

  rollback_found-Yields :
      (l : Option Lock) (rows : List Row)
      → LockOk e l
      → RowsFit e rows
      → Yields e (rollback_found e key start_ts (l, map (encode_row e) rows))
  unfolding rollback_found
  rollback_found-Yields none rows lf fit = no_lock_rollback-Yields rows
  rollback_found-Yields (some l) rows lf fit = elim (Bool-cases (l.start_ts == start_ts)) [
    | inl q ↦ rw q (rollback_lock-IsEncoded e key start_ts start_fits)
    | inr q ↦ rw q (no_lock_rollback-Yields rows)
  ]

  rollback_at-Yields :
      (pairs : Pairs) (failure : Option Error)
      → Yields e (decode_lock e key pairs failure >>= rollback_found e key start_ts)
      → Yields e (rollback_at e key start_ts pairs failure)
  unfolding rollback_at
  rollback_at-Yields [] failure h = rollback_without_lock-Yields none
  rollback_at-Yields (p ∷ rest) failure h = h

  rollback_key-Yields : (db : e.Db) → IsWellFormed e db → Yields e (rollback_key e db key start_ts)
  unfolding rollback_key
  rollback_key-Yields db w =
      rollback_at-Yields (seek e db key).rest (seek e db key).failure
        (decode_lock-Yields e law db key (rollback_found e key start_ts) w rollback_found-Yields)

module _ (e : Env) (law : IsLawful e) (start_ts : ℕ) (start_fits : start_ts < lock_ver) where
  -- A batch and then another one.
  Yields-append :
      (m n : Result Batch) → Yields e m → Yields e n → Yields e (m >>= λ b. n >>= λ c. ok (b ++ c))
  Yields-append (ok b) (ok c) h k = IsEncoded-append e b c h k
  Yields-append (ok b) (err er) h k = tt
  Yields-append (err er) n h k = tt

  commit_keys-Yields :
      (db : e.Db) (commit_ts : ℕ) (ks : List Bytes)
      → commit_ts < lock_ver
      → IsWellFormed e db
      → Yields e (commit_keys e db ks start_ts commit_ts)
  unfolding commit_keys
  commit_keys-Yields db commit_ts [] h w = IsEncoded-nil e
  commit_keys-Yields db commit_ts (k ∷ ks) h w =
      Yields-append (commit_key e db k start_ts commit_ts) (commit_keys e db ks start_ts commit_ts)
        (commit_key-Yields e law k start_ts commit_ts start_fits db h w)
        (commit_keys-Yields db commit_ts ks h w)

  rollback_keys-Yields :
      (db : e.Db) (ks : List Bytes) → IsWellFormed e db → Yields e (rollback_keys e db ks start_ts)
  unfolding rollback_keys
  rollback_keys-Yields db [] w = IsEncoded-nil e
  rollback_keys-Yields db (k ∷ ks) w =
      Yields-append (rollback_key e db k start_ts) (rollback_keys e db ks start_ts)
        (rollback_key-Yields e law k start_ts 0 start_fits db w) (rollback_keys-Yields db ks w)

  pub commit_pairs-IsWellFormed {ℓ} :
      {A : Type ℓ} (s : Store e) (r : Result Batch) (a : A)
      → IsWellFormed e s.edb
      → Yields e r
      → IsWellFormed e (commit_pairs e s r a).1.edb
  commit_pairs-IsWellFormed s (ok batch) a w h = write_batch-IsWellFormed e law s batch a w h
  commit_pairs-IsWellFormed s (err er) a w h = w

  pub commit-IsWellFormed :
      (s : Store e) (keys : List Bytes) (commit_ts : ℕ)
      → commit_ts < lock_ver
      → IsWellFormed e s.edb
      → IsWellFormed e (commit e s keys start_ts commit_ts).1.edb
  unfolding commit
  commit-IsWellFormed s keys commit_ts h w =
      commit_pairs-IsWellFormed s (commit_keys e s.edb keys start_ts commit_ts) tt w
        (commit_keys-Yields s.edb commit_ts keys h w)

  pub rollback-IsWellFormed :
      (s : Store e) (keys : List Bytes)
      → IsWellFormed e s.edb
      → IsWellFormed e (rollback e s keys start_ts).1.edb
  unfolding rollback
  rollback-IsWellFormed s keys w =
      commit_pairs-IsWellFormed s (rollback_keys e s.edb keys start_ts) tt w
        (rollback_keys-Yields s.edb keys w)
