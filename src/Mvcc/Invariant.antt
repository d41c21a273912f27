-- ===== src/Mvcc/Invariant.antt =====
-- The well-formedness of the database: it holds the encodings of an ascending list of locks and
-- versions.
pub mod Commit
pub mod Status
pub mod Prewrite
pub mod Pessimistic
pub mod Iterators
pub mod Ranges
pub mod Gc
pub mod RawDelete
use mileva_db.Prelude.{
  ℕ, ◌<◌, ◌≤◌, ◌≡◌, refl, sym, ◌∙◌, ap, Bool, true, false, not, Option, none, some, List, [], ◌∷◌,
  ◌++◌, map, if◌then◌else◌, arith, Bool-cases, Option-cases, inl, inr, All, length,
}
use mathlib.Core.List.{map-append}
use mileva_db.Bytes.{Bytes, bytes_equal}
use mileva_db.Mvcc.Types.{Op, Lock, Value, Result, ok, err, lock_ver, u64_mod, ◌>>=◌}
use mileva_db.Mvcc.Env.{Env, IsLawful, Batch, Iterator}
use mileva_db.Mvcc.Marshal.RoundTrip.{LockFits, ValueFits, Fits}
use mileva_db.Mvcc.Iter.{Pairs, seek, decode_lock}
use mileva_db.Mvcc.Commit.{
  Store, write_batch, put_value, put_lock, delete_lock, commit_lock, rollback_lock, rollback_value,
  committed_value, committed_type,
}
use mileva_db.Mvcc.Rows.{
  LoadFits, Load, load_lock, Row, lock_load, value_load, encode_row, RowsFit, Holds,
}
use mileva_db.Mvcc.Rows.Reading.{
  rows_from, take_lock, RowsFit-rows_from, RowsFit-take_lock, seek_lem, decode_lock-map,
}
use mileva_db.Mvcc.Rows.Writing.{
  RowOp, put_row, delete_at, encode_op, OpFits, apply_rows, write-Holds,
}
use mileva_db.Mvcc.Rows.Effects.{lock_row, value_row}

pub record IsWellFormed (e : Env) (db : e.Db) : Type 0 where
  pub rows : List Row
  pub holds : Holds e db rows

-- A batch of encoded records.
pub record IsEncoded (e : Env) (batch : Batch) : Type 0 where
  pub ops : List RowOp
  pub encodes : batch ≡ map (encode_op e) ops
  pub fit : All (OpFits e) ops

All-append {ℓ κ} :
    {A : Type ℓ} (P : A → Type κ) (xs ys : List A) → All P xs → All P ys → All P (xs ++ ys)
All-append P [] ys h k = k
All-append P (x ∷ xs) ys h k = (h.0, All-append P xs ys h.1 k)

abbrev take_lock_step : List Row → List Row → Option Lock → Option Lock × List Row
take_lock_step here next found = elim found [ none ↦ (none, here) | some l ↦ (some l, next) ]

module _ (e : Env) where
  pub IsEncoded-nil : IsEncoded e []
  IsEncoded-nil = record { ops = []; encodes = refl; fit = tt }

  pub IsEncoded-append : (b c : Batch) → IsEncoded e b → IsEncoded e c → IsEncoded e (b ++ c)
  IsEncoded-append b c x y = record {
    ops = x.ops ++ y.ops;
    encodes = rw (x.encodes, y.encodes, map-append) refl;
    fit = All-append (OpFits e) x.ops y.ops x.fit y.fit;
  }

  pub put_value-IsEncoded :
      (key : Bytes) (v : Value)
      → ValueFits v
      → v.commit_ts < lock_ver
      → IsEncoded e (put_value e key v)
  put_value-IsEncoded key v fit h = record {
    ops = put_row (value_row key v) ∷ [];
    encodes = refl;
    fit = ((fit, h), tt);
  }

  pub put_lock-IsEncoded :
      (key : Bytes) (l : Lock) → LockFits e.op_to_int32 l → IsEncoded e (put_lock e key l)
  put_lock-IsEncoded key l fit = record {
    ops = put_row (lock_row key l) ∷ [];
    encodes = refl;
    fit = (fit, tt);
  }

  pub delete_lock-IsEncoded : (key : Bytes) → IsEncoded e (delete_lock e key)
  delete_lock-IsEncoded key = record {
    ops = delete_at key lock_ver ∷ [];
    encodes = refl;
    fit = (omega arith, tt);
  }

  pub rollback_value-fits :
      (start_ts : ℕ) → start_ts < lock_ver → ValueFits (rollback_value start_ts)
  unfolding rollback_value
  rollback_value-fits start_ts h = omega arith

  committed_type-lt : (op : Op) → committed_type op < u64_mod
  unfolding committed_type
  committed_type-lt op = ground arith

  pub committed_value-fits :
      (l : Lock) (start_ts commit_ts : ℕ)
      → LockFits e.op_to_int32 l
      → start_ts < lock_ver
      → commit_ts < lock_ver
      → ValueFits (committed_value l start_ts commit_ts)
  unfolding committed_value
  committed_value-fits l start_ts commit_ts fit h k = record {
    value_type = committed_type-lt l.op;
    start_ts = omega arith;
    commit_ts = omega arith;
    value = fit.value;
  }

  pub rollback_lock-IsEncoded :
      (key : Bytes) (start_ts : ℕ)
      → start_ts < lock_ver
      → IsEncoded e (rollback_lock e key start_ts)
  unfolding rollback_lock
  rollback_lock-IsEncoded key start_ts h =
      IsEncoded-append _ _
        (put_value-IsEncoded key (rollback_value start_ts) (rollback_value-fits start_ts h)
          (unfold rollback_value in h))
        (delete_lock-IsEncoded key)

  pub commit_lock-IsEncoded :
      (l : Lock) (key : Bytes) (start_ts commit_ts : ℕ)
      → LockFits e.op_to_int32 l
      → start_ts < lock_ver
      → commit_ts < lock_ver
      → IsEncoded e (commit_lock e l key start_ts commit_ts)
  unfolding commit_lock
  commit_lock-IsEncoded l key start_ts commit_ts fit h k =
      IsEncoded-append _ _
        (put_value-IsEncoded key (committed_value l start_ts commit_ts)
          (committed_value-fits l start_ts commit_ts fit h k) (unfold committed_value in k))
        (delete_lock-IsEncoded key)

  -- A result that is a batch is a batch of encoded records.
  abbrev pub Yields : Result Batch → Type 0
  Yields (ok batch) = IsEncoded e batch
  Yields (err er) = Unit

  pub Yields-bind {ℓ} :
      {A : Type ℓ} (m : Result A) (f : A → Result Batch)
      → ((a : A) → m ≡ ok a → Yields (f a))
      → Yields (m >>= f)
  Yields-bind (ok a) f h = h a refl
  Yields-bind (err er) f h = tt

  -- What decode_lock may answer on a well-formed database.
  abbrev pub LockOk : Option Lock → Type 0
  LockOk none = Unit
  LockOk (some l) = LockFits e.op_to_int32 l

  LockOk-here :
      (here next : List Row) (l : Load) (b : Bool)
      → LoadFits e l
      → LockOk (take_lock_step here next (if b then load_lock l else none)).0
  LockOk-here here next l false fit = tt
  LockOk-here here next (lock_load l) true fit = fit
  LockOk-here here next (value_load v) true fit = tt

  pub LockOk-take_lock :
      (key : Bytes) (rows : List Row) → RowsFit e rows → LockOk (take_lock key rows).0
  unfolding take_lock
  LockOk-take_lock key [] fit = tt
  LockOk-take_lock key (r ∷ rs) fit = LockOk-here (r ∷ rs) rs r.load (bytes_equal r.key key) fit.0

module _ (e : Env) (law : IsLawful e) where
  -- The write at the end of an operation, on a database that holds rows.
  pub write_batch-Holds {ℓ} :
      {A : Type ℓ} (s : Store e) (rows : List Row) (ops : List RowOp) (a : A)
      → Holds e s.edb rows
      → All (OpFits e) ops
      → (db : e.Db) × (write_batch e s (map (encode_op e) ops) a ≡ (ok a, record s { edb = db }))
        × Holds e db (apply_rows ops rows)
  write_batch-Holds s rows ops a h fit =
      let (db, written, holds) = write-Holds e law s.edb rows ops h fit in
      (db, rw (written, write_batch), holds)

  pub write_batch-IsWellFormed {ℓ} :
      {A : Type ℓ} (s : Store e) (batch : Batch) (a : A)
      → IsWellFormed e s.edb
      → IsEncoded e batch
      → IsWellFormed e (write_batch e s batch a).1.edb
  write_batch-IsWellFormed s batch a w enc =
      let (db, written, holds) = write_batch-Holds s w.rows enc.ops a w.holds enc.fit in
      let r : IsWellFormed e db = record { rows = apply_rows enc.ops w.rows; holds = holds } in
      rw (enc.encodes, ap (λ (x : Result _ × Store e). x.1.edb) written) r

  -- The decoded lock of a key fits, and what follows it holds rows.
  pub decode_lock-seek :
      (db : e.Db) (key : Bytes)
      → IsWellFormed e db
      → (l : Option Lock) × (rows : List Row) × (decode_lock e key
            (seek e db key).rest
            (seek e db key).failure
          ≡ ok (l, map (encode_row e) rows))
        × LockOk e l
        × RowsFit e rows
  decode_lock-seek db key w =
      let from = rows_from key w.rows in
      let fit = RowsFit-rows_from e law key w.rows w.holds.fit in
      (
        (take_lock key from).0,
        (take_lock key from).1,
        rw (seek_lem e law db w.rows key w.holds) (decode_lock-map e law key from fit),
        LockOk-take_lock e key from fit,
        RowsFit-take_lock e law key from fit,
      )

  pub decode_lock-Yields :
      (db : e.Db) (key : Bytes) (f : Option Lock × Pairs → Result Batch)
      → IsWellFormed e db
      → ((l : Option Lock) (rows : List Row)
          → LockOk e l
          → RowsFit e rows
          → Yields e (f (l, map (encode_row e) rows)))
      → Yields e (decode_lock e key (seek e db key).rest (seek e db key).failure >>= f)
  decode_lock-Yields db key f w h =
      let (l, rows, q, lf, fit) = decode_lock-seek db key w in rw q (h l rows lf fit)
