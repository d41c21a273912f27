-- ===== src/Mvcc/Debug/View.antt =====
-- MvccGetByKey against the rows that the database holds.
use mileva_db.Prelude.{
  ℕ, ◌≡◌, refl, Option, none, some, List, [], ◌∷◌, map, Option-cases, inl, inr, ap, length, leb,
  if◌then◌else◌,
}
use mileva_db.Bytes.{Bytes}
use mileva_db.Mvcc.Types.{
  Op, op_put, op_del, op_rollback, op_lock, op_insert, op_pessimistic_lock, op_check_not_exists,
  Lock, Value, type_put, type_delete, type_rollback, type_lock,
}
use mileva_db.Mvcc.Env.{Env, IsLawful}
use mileva_db.Mvcc.Rows.{Row, encode_row, RowsFit, Holds, value_here}
use mileva_db.Mvcc.Rows.Codec.{decode_value_pair-encode_row}
use mileva_db.Mvcc.Rows.Reading.{take_values}
use mileva_db.Mvcc.Rows.View.{find_lock, find_values}
use mileva_db.Mvcc.Txn.{at_key}
use mileva_db.Mvcc.Debug.{
  Answer, answer, MvccLock, MvccWrite, MvccValue, add_version, info_of, versions_loop, info_from,
  mvcc_get_by_key, value_type_op, info_write, info_value, info_lock, short_value,
}

-- The operation that a type of versions stands for.
abbrev pub TypeIs : ℕ → Op → Type 0
TypeIs t op_put = t ≡ type_put
TypeIs t op_del = t ≡ type_delete
TypeIs t op_rollback = t ≡ type_rollback
TypeIs t op_lock = t ≡ type_lock
TypeIs t _ = ⊥

-- A value longer than 64 bytes is not shown.
abbrev pub shown_short : Bytes → Option Bytes
shown_short value = if leb (length value) 64 then some value else none

abbrev pub shown_lock : Option Lock → Option MvccLock
shown_lock none = none
shown_lock (some l) = some (record {
  lock_type = l.op;
  start_ts = l.start_ts;
  primary = l.primary;
  short_value = shown_short l.value;
})

abbrev pub shown_write : Value → Op → MvccWrite
shown_write v op = record {
  write_type = op;
  start_ts = v.start_ts;
  commit_ts = v.commit_ts;
  short_value = shown_short v.value;
}

abbrev pub shown_value : Value → MvccValue
shown_value v = record { start_ts = v.start_ts; value = v.value }

-- The versions have the operations `ops`, one each.
abbrev pub HaveOps : List Value → List Op → Type 0
HaveOps [] [] = Unit
HaveOps [] (_ ∷ _) = ⊥
HaveOps (_ ∷ _) [] = ⊥
HaveOps (v ∷ vs) (op ∷ ops) = TypeIs v.value_type op × HaveOps vs ops

abbrev pub shown_writes : List Value → List Op → List MvccWrite
shown_writes [] ops = []
shown_writes (v ∷ vs) [] = []
shown_writes (v ∷ vs) (op ∷ ops) = shown_write v op ∷ shown_writes vs ops

shown : List Value → Answer (List MvccWrite × List MvccValue)
shown [] = answer ([], [])
shown (v ∷ vs) = add_version v (shown vs)

value_type_op-TypeIs : (t : ℕ) (op : Op) → TypeIs t op → value_type_op t ≡ some op
value_type_op-TypeIs t op_put h = rw h refl
value_type_op-TypeIs t op_del h = rw h refl
value_type_op-TypeIs t op_rollback h = rw h refl
value_type_op-TypeIs t op_lock h = rw h refl
value_type_op-TypeIs t op_insert h = absurd h
value_type_op-TypeIs t op_pessimistic_lock h = absurd h
value_type_op-TypeIs t op_check_not_exists h = absurd h

info_of-shown :
    (l : Option Lock) (ws : List MvccWrite) (vs : List MvccValue)
    → info_of l (answer (ws, vs))
      ≡ answer (record { lock = shown_lock l; writes = ws; values = vs })
unfolding info_of info_lock short_value
info_of-shown none ws vs = refl
info_of-shown (some l) ws vs = refl

add_version-answer :
    (v : Value) (op : Op) (ws : List MvccWrite) (vs : List MvccValue)
    → TypeIs v.value_type op
    → add_version v (answer (ws, vs)) ≡ answer (shown_write v op ∷ ws, shown_value v ∷ vs)
unfolding add_version info_write info_value short_value
add_version-answer v op ws vs q = rw (add_version, value_type_op-TypeIs v.value_type op q) refl

shown-answer :
    (vs : List Value) (ops : List Op)
    → HaveOps vs ops
    → shown vs ≡ answer (shown_writes vs ops, map shown_value vs)
unfolding shown
shown-answer [] [] have = refl
shown-answer [] (op ∷ ops) have = absurd have
shown-answer (v ∷ vs) [] have = absurd have
shown-answer (v ∷ vs) (op ∷ ops) (here, have) =
    rw (shown-answer vs ops have)
      (add_version-answer v op (shown_writes vs ops) (map shown_value vs) here)

module _ (e : Env) (law : IsLawful e) (key : Bytes) where
  versions_loop-map :
      (rows : List Row)
      → RowsFit e rows
      → versions_loop e key (map (encode_row e) rows) ≡ shown (take_values key rows)
  unfolding versions_loop take_values shown
  versions_loop-map [] fit = refl
  versions_loop-map (r ∷ rs) fit = elim (Option-cases (value_here key r)) [
    | inl q ↦
        rw (decode_value_pair-encode_row e law key r fit.0, versions_loop, q, take_values) refl
    | inr (v, q) ↦
        rw (decode_value_pair-encode_row e law key r fit.0, versions_loop, q, take_values)
          (ap (add_version v) (versions_loop-map rs fit.1))
  ]

  -- Let the database hold `rows`, and let each version of the key have one of the four value types,
  -- with the operations `ops`. Then MvccGetByKey answers with the key's lock, if it has one, by its
  -- operation, start timestamp, primary and value, and for each version, the latest first, with a
  -- write, by its operation, both timestamps and value, and with a value, by its start timestamp and
  -- bytes. A value longer than 64 bytes is left out of the lock and the writes, not of the values.
  pub mvcc_get_by_key-view :
      (db : e.Db) (rows : List Row) (ops : List Op)
      → Holds e db rows
      → HaveOps (find_values key rows) ops
      → mvcc_get_by_key e db key
        ≡ answer (record {
          lock = shown_lock (find_lock key rows);
          writes = shown_writes (find_values key rows) ops;
          values = map shown_value (find_values key rows);
        })
  unfolding mvcc_get_by_key info_from
  mvcc_get_by_key-view db rows ops h have =
      let a = at_key e law db rows key h in
      rw
        (
          a.decodes,
          versions_loop-map a.rest a.fit,
          a.values,
          shown-answer (find_values key rows) ops have,
        )
        (info_of-shown (find_lock key rows) _ _)
