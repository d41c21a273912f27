-- ===== src/Mvcc/Txn/Cleanup.antt =====
-- Cleanup of a transaction that holds no lock on the key.
use mileva_db.Prelude.{ℕ, ◌≡◌, refl, false, Option, none, some, List, [], ◌∷◌, map}
use mileva_db.Bytes.{Bytes}
use mileva_db.Mvcc.Types.{Lock, Error, ok}
use mileva_db.Mvcc.Env.{Env, IsLawful}
use mileva_db.Mvcc.Iter.{Pairs, seek, decode_lock}
use mileva_db.Mvcc.Commit.{Store, get_txn_commit_info}
use mileva_db.Mvcc.Status.{cleanup, cleanup_at, cleanup_found, cleanup_committed}
use mileva_db.Mvcc.Rows.{Row, encode_row, Holds}
use mileva_db.Mvcc.Rows.Reading.{find_txn}
use mileva_db.Mvcc.Rows.View.{find_lock, find_values}
use mileva_db.Mvcc.Txn.{at_key, commit_info-view}
use mileva_db.Mvcc.Txn.Rollback.{is_own}

module _ (e : Env) (s : Store e) (key : Bytes) (start_ts current_ts : ℕ) where
  cleanup_found-unlocked :
      (lock : Option Lock) (rest : Pairs)
      → is_own start_ts lock ≡ false
      → get_txn_commit_info e rest key start_ts ≡ ok none
      → cleanup_found e s key start_ts current_ts (ok (lock, rest)) ≡ (ok tt, s)
  unfolding cleanup_found cleanup_committed
  cleanup_found-unlocked none rest other fresh = rw fresh refl
  cleanup_found-unlocked (some l) rest other fresh = rw (other, fresh) refl

  cleanup_at-unlocked :
      (pairs rest : Pairs) (failure : Option Error) (lock : Option Lock)
      → is_own start_ts lock ≡ false
      → decode_lock e key pairs failure ≡ ok (lock, rest)
      → get_txn_commit_info e rest key start_ts ≡ ok none
      → cleanup_at e s key start_ts current_ts pairs failure ≡ (ok tt, s)
  unfolding cleanup_at
  cleanup_at-unlocked [] rest failure lock other q fresh = refl
  cleanup_at-unlocked (p ∷ pairs) rest failure lock other q fresh =
      rw q (cleanup_found-unlocked lock rest other fresh)

module _ (e : Env) (law : IsLawful e) (s : Store e) (rows : List Row) (key : Bytes)
    (start_ts current_ts : ℕ) (h : Holds e s.edb rows)
    (fresh : find_txn start_ts (find_values key rows) ≡ none)
    (other : is_own start_ts (find_lock key rows) ≡ false) where
  -- Let the store hold `rows`, in which the transaction has neither the lock of the key nor a record
  -- among its versions. Then Cleanup answers success and leaves the database as it was, so it writes
  -- no rollback record.
  pub cleanup-unlocked :
      ((cleanup e s key start_ts current_ts).0 ≡ ok tt)
      × ((cleanup e s key start_ts current_ts).1.edb ≡ s.edb)
  unfolding cleanup
  cleanup-unlocked =
      let a = at_key e law s.edb rows key h in
      rw
        (cleanup_at-unlocked e s key start_ts current_ts (seek e s.edb key).rest
          (map (encode_row e) a.rest) (seek e s.edb key).failure (find_lock key rows) other
          a.decodes
          (rw
            (
              commit_info-view e law s.edb key (find_lock key rows) (find_values key rows) start_ts
                  a,
              fresh,
            )
            refl))
        (refl, refl)
