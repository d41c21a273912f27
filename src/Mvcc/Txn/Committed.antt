-- ===== src/Mvcc/Txn/Committed.antt =====
-- What a reader sees after Commit.
use mileva_db.Prelude.{
  ℕ, ◌<◌, ◌≡◌, refl, ◌∙◌, sym, ap, true, Option, none, some, List, [], ◌∷◌, arith, leb,
  if◌then◌else◌, All, Bool-cases, inl, inr,
}
use mathlib.Core.Option.{some-injective}
use mileva_db.Bytes.{Bytes, bytes_equal, eq_of_bytes_equal}
use mileva_db.Mvcc.Types.{op_put, op_lock, Lock, Value, Result, ok, lock_ver, ◌>>=◌}
use mileva_db.Mvcc.Env.{Env, IsLawful}
use mileva_db.Mvcc.Lock.{IsolationLevel, rc, si, check_if_si}
use mileva_db.Mvcc.Reads.{get, visible}
use mileva_db.Mvcc.Commit.{Store, commit, committed_value, committed_type}
use mileva_db.Mvcc.Rows.{Row, Ascending, RowsFit, LoadFits, Holds}
use mileva_db.Mvcc.Rows.Reading.{read_values}
use mileva_db.Mvcc.Rows.View.{find_lock, find_values}
use mileva_db.Mvcc.Rows.Writing.{
  apply_rows, insert_row, delete_slot, OpFits, Ascending-insert_row, Ascending-delete_slot,
  All-insert_row, All-delete_slot,
}
use mileva_db.Mvcc.Rows.Effects.{
  value_row, insert_version, find_lock-insert_value, find_lock-delete_lock,
  find_values-insert_value, find_values-delete_lock,
}
use mileva_db.Mvcc.Txn.{get-view}
use mileva_db.Mvcc.Txn.Commit.{
  Locked, locked_keys, Prewritten, commit_ops, commit-Holds, commit_ops-fit,
}

unfoldable pub lock_among : Bytes → List Locked → Option Lock
lock_among j [] = none
lock_among j ((k, l) ∷ kls) = if bytes_equal k j then some l else lock_among j kls

-- The versions of a key after the commit, in the order of the batch.
commit_versions : (start_ts commit_ts : ℕ) → Bytes → List Locked → List Value → List Value
commit_versions start_ts commit_ts j [] vs = vs
commit_versions start_ts commit_ts j ((k, l) ∷ kls) vs =
    commit_versions start_ts commit_ts j kls
      (if bytes_equal k j then insert_version (committed_value l start_ts commit_ts) vs else vs)

abbrev pub OlderThan : ℕ → List Value → Type 0
OlderThan commit_ts = All (λ v. v.commit_ts < commit_ts)

insert_version-newest :
    (v : Value) (vs : List Value) → OlderThan v.commit_ts vs → insert_version v vs ≡ v ∷ vs
unfolding insert_version
insert_version-newest v [] h = refl
insert_version-newest v (w ∷ ws) h = ground arith

insert_version-same : (v : Value) (vs : List Value) → insert_version v (v ∷ vs) ≡ v ∷ vs
unfolding insert_version
insert_version-same v vs = ground arith

lock_of_same :
    (j k : Bytes) (rows : List Row) (m l : Lock)
    → bytes_equal k j ≡ true
    → find_lock k rows ≡ some m
    → find_lock j rows ≡ some l
    → m ≡ l
lock_of_same j k rows m l same p q =
    some-injective m l
      (sym p ∙ ap (λ (x : Bytes). find_lock x rows) (eq_of_bytes_equal k j same) ∙ q)

module _ (e : Env) (law : IsLawful e) (start_ts commit_ts : ℕ) (start_fits : start_ts < lock_ver)
    (commit_fits : commit_ts < lock_ver) (j : Bytes) where
  -- One key of the batch: its version is inserted, and its lock deleted.
  abbrev committed_row : Bytes → Lock → List Row → List Row
  committed_row k l rows =
      delete_slot k lock_ver (insert_row (value_row k (committed_value l start_ts commit_ts)) rows)

  committed_ts : (l : Lock) → (committed_value l start_ts commit_ts).commit_ts < lock_ver
  unfolding committed_value
  committed_ts l = commit_fits

  find_lock-committed_row :
      (k : Bytes) (l : Lock) (rows : List Row)
      → Ascending rows
      → find_lock j (committed_row k l rows) ≡ (if bytes_equal k j then none else find_lock j rows)
  find_lock-committed_row k l rows asc = rw (
    find_lock-delete_lock j k (insert_row (value_row k (committed_value l start_ts commit_ts)) rows)
        (Ascending-insert_row _ rows asc),
    find_lock-insert_value e j k (committed_value l start_ts commit_ts) rows (committed_ts l),
  )

  find_values-committed_row :
      (k : Bytes) (l : Lock) (rows : List Row)
      → Ascending rows
      → RowsFit e (insert_row (value_row k (committed_value l start_ts commit_ts)) rows)
      → find_values j (committed_row k l rows) ≡ (
          if bytes_equal k j
          then insert_version (committed_value l start_ts commit_ts) (find_values j rows)
          else find_values j rows)
  find_values-committed_row k l rows asc fit =
      rw
        (find_values-delete_lock e j k
          (insert_row (value_row k (committed_value l start_ts commit_ts)) rows) fit)
        (find_values-insert_value e j k (committed_value l start_ts commit_ts) rows (committed_ts l)
          asc)

  find_lock-commit_ops :
      (kls : List Locked) (rows : List Row)
      → Ascending rows
      → find_lock j (apply_rows (commit_ops start_ts commit_ts kls) rows)
        ≡ elim (lock_among j kls) [ none ↦ find_lock j rows | some _ ↦ none ]
  unfolding commit_ops lock_among
  find_lock-commit_ops [] rows asc = refl
  find_lock-commit_ops ((k, l) ∷ kls) rows asc = ground (
    arith,
    find_lock-commit_ops kls (committed_row k l rows)
        (Ascending-delete_slot k lock_ver _ (Ascending-insert_row _ rows asc)),
    find_lock-committed_row k l rows asc,
  )

  find_values-commit_ops :
      (kls : List Locked) (rows : List Row)
      → Ascending rows
      → RowsFit e rows
      → All (OpFits e) (commit_ops start_ts commit_ts kls)
      → find_values j (apply_rows (commit_ops start_ts commit_ts kls) rows)
        ≡ commit_versions start_ts commit_ts j kls (find_values j rows)
  unfolding commit_ops commit_versions
  find_values-commit_ops [] rows asc fit ops = refl
  find_values-commit_ops ((k, l) ∷ kls) rows asc fit ops =
      let fit' =
        All-insert_row (λ r. LoadFits e r.load) (value_row k (committed_value l start_ts commit_ts))
          rows ops.0 fit in
      rw (← find_values-committed_row k l rows asc fit') (
        find_values-commit_ops kls (committed_row k l rows)
          (Ascending-delete_slot k lock_ver _ (Ascending-insert_row _ rows asc))
          (All-delete_slot (λ r. LoadFits e r.load) k lock_ver _ fit') ops.1.1)

  commit_versions-again :
      (kls : List Locked) (rows : List Row) (l : Lock) (vs : List Value)
      → Prewritten start_ts commit_ts rows kls
      → find_lock j rows ≡ some l
      → commit_versions start_ts commit_ts j kls (committed_value l start_ts commit_ts ∷ vs)
        ≡ committed_value l start_ts commit_ts ∷ vs
  unfolding commit_versions
  commit_versions-again [] rows l vs p q = refl
  commit_versions-again ((k, m) ∷ kls) rows l vs (p, ps) q = elim (Bool-cases (bytes_equal k j)) [
    | inl same ↦
        rw (same, lock_of_same j k rows m l same p.0 q, insert_version-same)
          (commit_versions-again kls rows l vs ps q)
    | inr other ↦ rw other (commit_versions-again kls rows l vs ps q)
  ]

  commit_versions-lock_among :
      (kls : List Locked) (rows : List Row) (vs : List Value)
      → Prewritten start_ts commit_ts rows kls
      → ((l : Lock) → lock_among j kls ≡ some l → OlderThan commit_ts vs)
      → commit_versions start_ts commit_ts j kls vs
        ≡ elim (lock_among j kls) [ none ↦ vs | some l ↦ committed_value l start_ts commit_ts ∷ vs ]
  unfolding commit_versions lock_among
  commit_versions-lock_among [] rows vs p older = refl
  commit_versions-lock_among ((k, m) ∷ kls) rows vs (p, ps) older =
      elim (Bool-cases (bytes_equal k j)) [
        | inl same ↦
            rw
              (
                same,
                insert_version-newest (committed_value m start_ts commit_ts) vs
                    (unfold committed_value in older m (rw same refl)),
              )
              (commit_versions-again kls rows m vs ps
                (ap (λ (x : Bytes). find_lock x rows) (sym (eq_of_bytes_equal k j same)) ∙ p.0))
        | inr other ↦
            rw other (commit_versions-lock_among kls rows vs ps (λ l q. older l (rw other q)))
      ]

-- What the committed lock reads as: its value for a put, no value for a deletion, and for a lock
-- that carries no data what the key read as before.
abbrev pub read_committed : Lock → Result (Option Bytes) → Result (Option Bytes)
read_committed l before = elim l.op [ op_put ↦ ok (some l.value) | op_lock ↦ before | _ ↦ ok none ]

read-committed_value :
    (l : Lock) (start_ts commit_ts ts : ℕ) (vs : List Value) (before : Result (Option Bytes))
    → before ≡ ok (read_values ts vs)
    → ok (read_values ts (committed_value l start_ts commit_ts ∷ vs))
      ≡ (if leb commit_ts ts then read_committed l before else before)
unfolding read_values visible committed_value committed_type
read-committed_value l start_ts commit_ts ts vs before q = ground arith

check_unlocked :
    (e : Env) (iso : IsolationLevel) (ts : ℕ) (j : Bytes) (resolved : List ℕ)
    → check_if_si e iso none ts j resolved ≡ ok ts
unfolding check_if_si
check_unlocked e si ts j resolved = refl
check_unlocked e rc ts j resolved = refl

pub check_rc : (e : Env) (l : Option Lock) (ts : ℕ) (j : Bytes) → check_if_si e rc l ts j [] ≡ ok ts
unfolding check_if_si
check_rc e none ts j = refl
check_rc e (some l) ts j = refl

module _ (e : Env) (law : IsLawful e) (s : Store e) (rows : List Row) (kls : List Locked)
    (start_ts commit_ts : ℕ) (start_fits : start_ts < lock_ver) (commit_fits : commit_ts < lock_ver)
    (h : Holds e s.edb rows) (p : Prewritten start_ts commit_ts rows kls) where
  -- Let a transaction hold the locks `kls` of a store that holds `rows`, with no lock's
  -- minCommitTS above the commit timestamp and both timestamps below the maximum. Then Commit of
  -- those keys returns no error, and a Get afterwards answers as follows. A key that is not among
  -- them reads as before, at every timestamp and isolation level. A key that is among them, and
  -- whose versions are all older than the commit timestamp, blocks no read: from the commit
  -- timestamp on it reads as the committed lock says, and below it as an RC read of the same
  -- timestamp, which ignores locks, did before.
  pub get-commit :
      (j : Bytes) (ts : ℕ) (iso : IsolationLevel) (resolved : List ℕ)
      → ((l : Lock) → lock_among j kls ≡ some l → OlderThan commit_ts (find_values j rows))
      → ((commit e s (locked_keys kls) start_ts commit_ts).0 ≡ ok tt)
        × (get e (commit e s (locked_keys kls) start_ts commit_ts).1.edb j ts iso resolved
            ≡ elim (lock_among j kls) [
              | none ↦ get e s.edb j ts iso resolved
              | some l ↦
                  let before = get e s.edb j ts rc [] in
                  if leb commit_ts ts then read_committed l before else before
            ])
  get-commit j ts iso resolved older =
      let (db, written, holds) =
        commit-Holds e law start_ts commit_ts start_fits commit_fits s rows kls h p in
      let values_eq =
        find_values-commit_ops e law start_ts commit_ts start_fits commit_fits j kls rows
          h.ascending h.fit
          (commit_ops-fit e law start_ts commit_ts start_fits commit_fits rows kls h.fit p)
        ∙ commit_versions-lock_among e law start_ts commit_ts start_fits commit_fits j kls rows
            (find_values j rows) p older in
      rw written (
        refl,
        rw
            (
              get-view e law db (apply_rows (commit_ops start_ts commit_ts kls) rows) j ts iso
                  resolved holds,
              find_lock-commit_ops e law start_ts commit_ts start_fits commit_fits j kls rows
                  h.ascending,
              values_eq,
            )
            (reads (lock_among j kls)),
      )
    where
      before_eq : get e s.edb j ts rc [] ≡ ok (read_values ts (find_values j rows))
      before_eq = rw (get-view e law s.edb rows j ts rc [] h, check_rc e (find_lock j rows) ts j)

      reads :
          (l : Option Lock)
          → (check_if_si e iso (elim l [ none ↦ find_lock j rows | some _ ↦ none ]) ts j resolved
              >>= λ read_ts. ok (
                  read_values read_ts (elim l [
                    | none ↦ find_values j rows
                    | some l' ↦ committed_value l' start_ts commit_ts ∷ find_values j rows
                  ])))
            ≡ elim l [
              | none ↦ get e s.edb j ts iso resolved
              | some l' ↦
                  let before = get e s.edb j ts rc [] in
                  if leb commit_ts ts then read_committed l' before else before
            ]
      reads none = sym (get-view e law s.edb rows j ts iso resolved h)
      reads (some l) = rw (check_unlocked e iso ts j resolved) (
          read-committed_value l start_ts commit_ts ts (find_values j rows) (get e s.edb j ts rc [])
            before_eq)
