-- ===== src/Mvcc/Txn/Commit.antt =====
-- What Commit does to the view, and what a reader sees after it.
use mileva_db.Prelude.{
  ℕ, ◌<◌, ◌≤◌, ◌≡◌, refl, not, Option, none, some, List, [], ◌∷◌, map, arith, ltb, ◌==◌,
  if◌then◌else◌, All, Option-cases, inl, inr,
}
use mileva_db.Bytes.{Bytes}
use mileva_db.Mvcc.Types.{Lock, Value, Result, ok, err, commit_ts_expired, lock_ver}
use mileva_db.Mvcc.Env.{Env, IsLawful, Batch}
use mileva_db.Mvcc.Marshal.RoundTrip.{LockFits}
use mileva_db.Mvcc.Commit.{
  Store, commit_key, commit_found, commit_without_lock, commit_keys, commit, commit_lock,
  committed_value, get_txn_commit_info,
}
use mileva_db.Mvcc.Rows.{
  Row, Load, lock_load, value_load, load_lock, LoadFits, lock_here, encode_row, RowsFit, Holds,
}
use mileva_db.Mvcc.Rows.Reading.{find_txn}
use mileva_db.Mvcc.Rows.View.{find_lock, find_values}
use mileva_db.Mvcc.Rows.Writing.{RowOp, put_row, delete_at, encode_op, OpFits, apply_rows}
use mileva_db.Mvcc.Rows.Effects.{value_row}
use mileva_db.Mvcc.Invariant.{committed_value-fits, write_batch-Holds}
use mathlib.Core.Path.{subst}
use mathlib.Core.Option.{some-injective}
use mileva_db.Mvcc.Txn.{AtKey, at_key}
use mileva_db.Mvcc.Txn

module _ (e : Env) (key : Bytes) (start_ts commit_ts : ℕ) where
  -- commitKey as a function of the lock and the versions of the key.
  unfoldable pub commit_decision : Option Lock → List Value → Result Batch
  commit_decision none versions = commit_without_lock e (find_txn start_ts versions)
  commit_decision (some l) versions =
      if not (l.start_ts == start_ts)
      then commit_without_lock e (find_txn start_ts versions)
      else if ltb commit_ts l.min_commit_ts
      then err (commit_ts_expired start_ts commit_ts key l.min_commit_ts)
      else ok (commit_lock e l key start_ts commit_ts)

module _ (e : Env) (law : IsLawful e) (db : e.Db) (rows : List Row) (key : Bytes)
    (start_ts commit_ts : ℕ) (h : Holds e db rows) where
  commit_found-view :
      (lock : Option Lock) (versions : List Value) (rest : List Row)
      → get_txn_commit_info e (map (encode_row e) rest) key start_ts
        ≡ ok (find_txn start_ts versions)
      → commit_found e key start_ts commit_ts (lock, map (encode_row e) rest)
        ≡ commit_decision e key start_ts commit_ts lock versions
  unfolding commit_found commit_decision
  commit_found-view none versions rest q = rw q
  commit_found-view (some l) versions rest q = rw q

  pub commit_key-view :
      commit_key e db key start_ts commit_ts
      ≡ commit_decision e key start_ts commit_ts (find_lock key rows) (find_values key rows)
  unfolding commit_key
  commit_key-view =
      let a = at_key e law db rows key h in
      rw (a.decodes) (
        commit_found-view (find_lock key rows) (find_values key rows) a.rest (
          Txn.commit_info-view e law db key (find_lock key rows) (find_values key rows) start_ts a))

LockFits-here :
    (e : Env) (k : Bytes) (r : Row) (l : Lock)
    → LoadFits e r.load
    → lock_here k r ≡ some l
    → LockFits e.op_to_int32 l
LockFits-here e k r l fit q = of_load r.load fit (ground arith)
  where
    of_load : (x : Load) → LoadFits e x → load_lock x ≡ some l → LockFits e.op_to_int32 l
    of_load (lock_load m) fit q = subst (LockFits e.op_to_int32) (some-injective m l q) fit
    of_load (value_load v) fit q = cc

pub LockOk-find_lock :
    (e : Env) (k : Bytes) (rows : List Row) (l : Lock)
    → RowsFit e rows
    → find_lock k rows ≡ some l
    → LockFits e.op_to_int32 l
unfolding find_lock
LockOk-find_lock e k [] l fit q = cc
LockOk-find_lock e k (r ∷ rs) l fit q = elim (Option-cases (lock_here k r)) [
  | inl none_here ↦ LockOk-find_lock e k rs l fit.1 (ground arith)
  | inr (m, here) ↦ LockFits-here e k r l fit.0 (ground arith)
]

-- A key with the lock that a transaction holds on it.
abbrev pub Locked : Type 0
Locked = Bytes × Lock

abbrev pub locked_keys : List Locked → List Bytes
locked_keys [] = []
locked_keys ((k, l) ∷ kls) = k ∷ locked_keys kls

-- Every key is locked by the transaction, and the commit timestamp is not below its minCommitTS.
abbrev pub Prewritten : (start_ts commit_ts : ℕ) → List Row → List Locked → Type 0
Prewritten start_ts commit_ts rows = All (λ (kl : Locked).
    (find_lock kl.0 rows ≡ some kl.1)
    × (kl.1.start_ts ≡ start_ts)
    × (kl.1.min_commit_ts ≤ commit_ts))

unfoldable pub commit_ops : (start_ts commit_ts : ℕ) → List Locked → List RowOp
commit_ops start_ts commit_ts [] = []
commit_ops start_ts commit_ts ((k, l) ∷ kls) =
    put_row (value_row k (committed_value l start_ts commit_ts))
    ∷ delete_at k lock_ver
    ∷ commit_ops start_ts commit_ts kls

module _ (e : Env) (law : IsLawful e) (start_ts commit_ts : ℕ) (start_fits : start_ts < lock_ver)
    (commit_fits : commit_ts < lock_ver) where
  commit_keys-Prewritten :
      (db : e.Db) (rows : List Row) (kls : List Locked)
      → Holds e db rows
      → Prewritten start_ts commit_ts rows kls
      → commit_keys e db (locked_keys kls) start_ts commit_ts
        ≡ ok (map (encode_op e) (commit_ops start_ts commit_ts kls))
  unfolding commit_keys commit_ops commit_decision commit_lock
  commit_keys-Prewritten db rows [] h p = refl
  commit_keys-Prewritten db rows ((k, l) ∷ kls) h (p, ps) =
      rw
        (
          commit_key-view e law db rows k start_ts commit_ts h,
          p.0,
          commit_keys-Prewritten db rows kls h ps,
        )
        (ground arith)

  pub commit_ops-fit :
      (rows : List Row) (kls : List Locked)
      → RowsFit e rows
      → Prewritten start_ts commit_ts rows kls
      → All (OpFits e) (commit_ops start_ts commit_ts kls)
  unfolding commit_ops
  commit_ops-fit rows [] fit p = tt
  commit_ops-fit rows ((k, l) ∷ kls) fit (p, ps) = (
    (
      committed_value-fits e l start_ts commit_ts (LockOk-find_lock e k rows l fit p.0) start_fits
          commit_fits,
      unfold committed_value in commit_fits,
    ),
    (omega arith, commit_ops-fit rows kls fit ps),
  )

  -- Commit of keys that the transaction has locked succeeds, and the database holds the rows
  -- with the new versions and without the locks.
  pub commit-Holds :
      (s : Store e) (rows : List Row) (kls : List Locked)
      → Holds e s.edb rows
      → Prewritten start_ts commit_ts rows kls
      → (db : e.Db) × (commit e s (locked_keys kls) start_ts commit_ts ≡ (
        ok tt,
        record { edb = db; deadlock_detector = e.clean_up s.deadlock_detector start_ts },
      ))
        × Holds e db (apply_rows (commit_ops start_ts commit_ts kls) rows)
  unfolding commit
  commit-Holds s rows kls h p =
      let (db, written, holds) =
        write_batch-Holds {0} e law s rows (commit_ops start_ts commit_ts kls) tt h
          (commit_ops-fit rows kls h.fit p) in
      (db, rw (commit_keys-Prewritten s.edb rows kls h p, commit) (rw written), holds)
