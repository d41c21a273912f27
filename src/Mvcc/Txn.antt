-- ===== src/Mvcc/Txn.antt =====
-- The operations of mvcc_leveldb.go against the abstract view of the database: the lock and the
-- versions of each key. `at_key` says what the decoders meet from the lock of a key on.
pub mod Commit
pub mod Committed
pub mod Rollback
pub mod Conflict
pub mod WriteConflict
pub mod Refused
pub mod Cleanup
pub mod Status
use mileva_db.Prelude.{ℕ, ◌<◌, ◌≡◌, refl, ◌∙◌, Option, none, some, List, [], ◌∷◌, map}
use mileva_db.Bytes.{Bytes}
use mileva_db.Mvcc.Types.{Lock, Value, Result, ok, ◌>>=◌}
use mileva_db.Mvcc.Env.{Env, IsLawful}
use mileva_db.Mvcc.Lock.{IsolationLevel, check_if_si}
use mileva_db.Mvcc.Iter.{seek, decode_lock}
use mileva_db.Mvcc.Reads.{get}
use mileva_db.Mvcc.Commit.{get_txn_commit_info}
use mileva_db.Mvcc.Rows.{Row, encode_row, RowsFit, Holds}
use mileva_db.Mvcc.Rows.Reading.{
  rows_from, take_lock, take_values, RowsFit-rows_from, RowsFit-take_lock, seek_lem,
  decode_lock-map, read_values, find_txn, get_txn_commit_info-map, get-front,
}
use mileva_db.Mvcc.Rows.View.{
  find_lock, find_values, front_lock-eq-find_lock, front_values-eq-find_values,
}

-- The iterator from the lock of `key`: the lock is decoded, and the rows behind it begin with the
-- versions of the key.
pub record AtKey (e : Env) (db : e.Db) (key : Bytes) (lock : Option Lock) (versions : List Value)
    : Type 0 where
  pub rest : List Row
  pub fit : RowsFit e rest
  pub decodes :
      decode_lock e key (seek e db key).rest (seek e db key).failure
      ≡ ok (lock, map (encode_row e) rest)
  pub values : take_values key rest ≡ versions
  pub no_failure : (seek e db key).failure ≡ none

module _ (e : Env) (law : IsLawful e) where
  pub at_key :
      (db : e.Db) (rows : List Row) (key : Bytes)
      → Holds e db rows
      → AtKey e db key (find_lock key rows) (find_values key rows)
  at_key db rows key h =
      let from = rows_from key rows in
      let fit = RowsFit-rows_from e law key rows h.fit in
      record {
        rest = (take_lock key from).1;
        fit = RowsFit-take_lock e law key from fit;
        decodes =
            rw
              (seek_lem e law db rows key h, ← front_lock-eq-find_lock e key rows h.fit h.ascending)
              (decode_lock-map e law key from fit);
        values = front_values-eq-find_values e key rows h.fit h.ascending;
        no_failure = rw (seek_lem e law db rows key h);
      }

  -- Let the database hold `rows`. Then Get checks the lock of the key, and reads the first version
  -- that is visible at the timestamp that the check allows; a delete marker reads as no value.
  pub get-view :
      (db : e.Db) (rows : List Row) (key : Bytes) (ts : ℕ) (iso : IsolationLevel)
      (resolved : List ℕ)
      → Holds e db rows
      → get e db key ts iso resolved ≡ (
          check_if_si e iso (find_lock key rows) ts key resolved >>= λ read_ts.
          ok (read_values read_ts (find_values key rows)))
  get-view db rows key ts iso resolved h =
      rw
        (
          ← front_lock-eq-find_lock e key rows h.fit h.ascending,
          ← front_values-eq-find_values e key rows h.fit h.ascending,
        )
        (get-front e law db rows key ts iso resolved h)

  -- What getTxnCommitInfo answers behind the lock of a key.
  pub commit_info-view :
      (db : e.Db) (key : Bytes) (lock : Option Lock) (versions : List Value) (start_ts : ℕ)
      (a : AtKey e db key lock versions)
      → get_txn_commit_info e (map (encode_row e) a.rest) key start_ts
        ≡ ok (find_txn start_ts versions)
  commit_info-view db key lock versions start_ts a =
      rw (← a.values) (get_txn_commit_info-map e law key start_ts a.rest a.fit)
