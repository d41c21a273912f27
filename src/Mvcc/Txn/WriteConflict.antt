-- ===== src/Mvcc/Txn/WriteConflict.antt =====
-- What prewriteMutation has found where it accepts a mutation.
use mileva_db.Prelude.{
  ℕ, ◌<◌, ◌≤◌, ◌≡◌, ◌≢◌, refl, Bool, true, false, Option, none, some, List, [], ◌∷◌, arith, ltb,
  if◌then◌else◌, All, Bool-cases, Option-cases, inl, inr, lt, ap, sym, ◌∙◌,
}
use mileva_db.Bytes.{Bytes, bytes_equal, eq_of_bytes_equal, bytes_compare_refl}
use mileva_db.Mvcc.Types.{Lock, Value, Error, Result, ok, err, type_rollback}
use mileva_db.Mvcc.Env.{Env, IsLawful, Batch}
use mileva_db.Mvcc.Lock.{lock_err}
use mileva_db.Mvcc.Conflict.{Mutation, Needs, is_rolled_back, needs_after}
use mileva_db.Mvcc.Prewrite.{PrewriteCtx, prewrite_mutation}
use mileva_db.Mvcc.Rows.{
  Load, lock_load, value_load, load_ver, load_value, Row, Holds, Ascending, value_here, row_compare,
}
use mathlib.Core.Option.{some-injective}
use mileva_db.Mvcc.Rows.Order.{All-mono}
use mileva_db.Mvcc.Rows.View.{find_lock, find_values}
use mileva_db.Mvcc.Txn.Conflict.{
  conflict_scan, conflict_decision, first_needs, prewrite_decision, prewrite_mutation-view,
}

-- Every later version of the list is older.
unfoldable pub Descending : List Value → Type 0
Descending [] = Unit
Descending (v ∷ vs) = All (λ w. w.commit_ts < v.commit_ts) vs × Descending vs

abbrev pub NotRolledBack : ℕ → Value → Type 0
NotRolledBack start_ts v = v.value_type ≡ type_rollback → v.commit_ts ≢ start_ts

value_of_load :
    (l : Load) (same : Bool) (v : Value)
    → (if same then load_value l else none) ≡ some v
    → (same ≡ true) × (load_ver l ≡ v.commit_ts)
value_of_load (lock_load l) true v q = cc
value_of_load (lock_load l) false v q = cc
value_of_load (value_load u) true v q =
    (refl, ap (λ (w : Value). w.commit_ts) (some-injective u v q))
value_of_load (value_load u) false v q = cc

older_value :
    (key : Bytes) (r s : Row) (v w : Value)
    → value_here key r ≡ some v
    → value_here key s ≡ some w
    → row_compare r s ≡ lt
    → w.commit_ts < v.commit_ts
unfolding row_compare
older_value key r s v w p q before =
    let (same_r, ver_r) = value_of_load r.load (bytes_equal r.key key) v p in
    let (same_s, ver_s) = value_of_load s.load (bytes_equal s.key key) w q in
    ground (
      arith,
      eq_of_bytes_equal r.key key same_r,
      eq_of_bytes_equal s.key key same_s,
      bytes_compare_refl key,
    )

older_values :
    (key : Bytes) (r : Row) (v : Value) (rows : List Row)
    → value_here key r ≡ some v
    → All (λ s. row_compare r s ≡ lt) rows
    → All (λ w. w.commit_ts < v.commit_ts) (find_values key rows)
unfolding find_values
older_values key r v [] here later = tt
older_values key r v (s ∷ ss) here (first, later) = elim (Option-cases (value_here key s)) [
  | inl q ↦ rw (q, find_values) (older_values key r v ss here later)
  | inr (w, q) ↦
      rw (q, find_values) (older_value key r s v w here q first, older_values key r v ss here later)
]

pub find_values-Descending :
    (key : Bytes) (rows : List Row) → Ascending rows → Descending (find_values key rows)
unfolding find_values Descending
find_values-Descending key [] asc = tt
find_values-Descending key (r ∷ rs) (first, asc) = elim (Option-cases (value_here key r)) [
  | inl q ↦ rw (q, find_values) (find_values-Descending key rs asc)
  | inr (v, q) ↦
      rw (q, find_values) (older_values key r v rs q first, find_values-Descending key rs asc)
]

scan-NotRolledBack :
    (m : Mutation) (start_ts : ℕ) (n : Needs) (vs : List Value) (x : Option Bytes)
    → n.check_rollback ≡ true
    → Descending vs
    → conflict_scan m start_ts n vs ≡ ok x
    → All (NotRolledBack start_ts) vs
unfolding conflict_scan Descending is_rolled_back needs_after
scan-NotRolledBack m start_ts n [] x checks d q = tt
scan-NotRolledBack m start_ts n (v ∷ vs) x checks (older, d) q =
    elim (Bool-cases (ltb v.commit_ts start_ts)) [
      | inl below ↦ (
        λ _. ground arith,
        All-mono _ _ vs (λ w (h : w.commit_ts < v.commit_ts) _. ground arith) older,
      )
      | inr above ↦ (
        ground arith,
        scan-NotRolledBack m start_ts (needs_after start_ts n v) vs x (ground arith) d
            (ground arith),
      )
    ]

All-both :
    (vs : List Value) {P Q R : Value → Type 0}
    → All P vs
    → All Q vs
    → ((v : Value) → P v → Q v → R v)
    → All R vs
All-both [] p q f = tt
All-both (v ∷ vs) (p, ps) (q, qs) f = (f v p q, All-both vs ps qs f)

pub data ResultCase {A : Type 0} (r : Result A) : Type 0 where
  is_ok : (a : A) → r ≡ ok a → ResultCase r
  is_err : (er : Error) → r ≡ err er → ResultCase r

pub Result-cases : {A : Type 0} (r : Result A) → ResultCase r
Result-cases (ok a) = is_ok a refl
Result-cases (err er) = is_err er refl

decision-safe :
    (m : Mutation) (start_ts : ℕ) (get_val : Bool) (vs : List Value) (x : Option Bytes)
    → Descending vs
    → conflict_decision m start_ts start_ts get_val vs ≡ ok x
    → All (λ v. (v.commit_ts ≤ start_ts) × NotRolledBack start_ts v) vs
unfolding conflict_decision Descending
decision-safe m start_ts get_val [] x d q = tt
decision-safe m start_ts get_val (v ∷ vs) x (older, d) q =
    let (here, there) =
      scan-NotRolledBack m start_ts (first_needs m get_val) (v ∷ vs) x refl
        (unfold Descending in (older, d)) (ground arith) in
    let bound : v.commit_ts ≤ start_ts = ground arith in
    ((bound, here), All-both vs older there (λ w h n. (omega arith, n)))

-- What a lock or the versions of the key say about a mutation that prewrites, by whether the
-- transaction is to hold a pessimistic lock of the key.
abbrev pub NoConflict : (start_ts : ℕ) → Bool → Option Lock → List Value → Type 0
NoConflict start_ts is_pessimistic_lock (some l) versions = l.start_ts ≡ start_ts
NoConflict start_ts true none versions = ⊥
NoConflict start_ts false none versions =
    All (λ v. (v.commit_ts ≤ start_ts) × NotRolledBack start_ts v) versions

pub decision-NoConflict :
    (e : Env) (m : Mutation) (c : PrewriteCtx) (flag : Bool) (lock : Option Lock) (vs : List Value)
    (batch : Batch)
    → Descending vs
    → prewrite_decision e m c flag lock vs ≡ ok batch
    → NoConflict c.start_ts flag lock vs
unfolding prewrite_decision lock_err
decision-NoConflict e m c flag (some l) vs batch d q = ground arith
decision-NoConflict e m c true none vs batch d q = cc
decision-NoConflict e m c false none vs batch d q =
    elim (Result-cases (conflict_decision m c.start_ts c.start_ts false vs)) [
      | is_ok x p ↦ decision-safe m c.start_ts false vs x d p
      | is_err er p ↦ absurd (ground arith)
    ]

module _ (e : Env) (law : IsLawful e) (db : e.Db) (rows : List Row) (h : Holds e db rows) where
  -- Let the database hold `rows`. When prewriteMutation accepts a mutation, then no other
  -- transaction has a lock of the key; and a mutation that is flagged as pessimistically locked finds
  -- a lock of its own transaction. Where the key is not locked, no version of it was committed after
  -- the transaction's start timestamp, and none of its versions is a rollback record at that
  -- timestamp. Where the key has a lock of the transaction, nothing is said of its versions.
  pub prewrite_mutation-NoConflict :
      (m : Mutation) (c : PrewriteCtx) (flag : Bool) (batch : Batch)
      → prewrite_mutation e db m c flag ≡ ok batch
      → NoConflict c.start_ts flag (find_lock m.key rows) (find_values m.key rows)
  prewrite_mutation-NoConflict m c flag batch q =
      decision-NoConflict e m c flag (find_lock m.key rows) (find_values m.key rows) batch
        (find_values-Descending m.key rows h.ascending)
        (sym (prewrite_mutation-view e law m c db rows flag h) ∙ q)
