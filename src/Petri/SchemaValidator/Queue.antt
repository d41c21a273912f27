-- ===== src/Petri/SchemaValidator/Queue.antt =====
-- The queue of schema changes: its length, and the changes that it covers.
use mileva_db.Prelude.{
  ℕ, suc, ◌+◌, ◌≤◌, ◌<◌, ◌≡◌, Bool, true, false, ◌&&◌, ◌||◌, Option, List, [], ◌∷◌, ◌==◌, ltb, leb,
  length, arith, Bool-cases, inl, inr, All,
}
use mileva_db.Petri.SchemaValidator.{
  RelatedSchemaChange, DeltaSchemaInfo, has_related, all_related, contain_in, merge_last,
  push_delta, cut_queue, enqueue, delta_of,
}

length-merge_last :
    (d e : DeltaSchemaInfo) (infos : List DeltaSchemaInfo)
    → length (merge_last d e infos) ≤ length infos + 2
unfolding merge_last
length-merge_last d e [] = elim (Bool-cases (contain_in e d)) [
  | inl p ↦ rw p (omega arith)
  | inr p ↦ rw p (omega arith)
]
length-merge_last d e (f ∷ infos) = omega (arith, length-merge_last d f infos)

length-push_delta :
    (d : DeltaSchemaInfo) (infos : List DeltaSchemaInfo)
    → length (push_delta d infos) ≤ length infos + 1
unfolding push_delta
length-push_delta d [] = omega arith
length-push_delta d (f ∷ []) = omega arith
length-push_delta d (f ∷ e ∷ infos) = omega (arith, length-merge_last d e infos)

length-cut_queue :
    (max_cnt : ℕ) (infos : List DeltaSchemaInfo)
    → length infos ≤ max_cnt + 1
    → length (cut_queue max_cnt infos) ≤ max_cnt
unfolding cut_queue
length-cut_queue max_cnt [] h = omega arith
length-cut_queue max_cnt (f ∷ infos) h = elim (Bool-cases (ltb max_cnt (suc (length infos)))) [
  | inl p ↦ rw p (omega (arith, h))
  | inr p ↦ rw p (ground arith)
]

-- The queue of schema changes never grows past its maximal length: an enqueue keeps a queue within
-- a maximum that is not 0.
pub length-enqueue :
    {Rep : Type 0}
    → (max_cnt version : ℕ) (change : Option (RelatedSchemaChange Rep))
      (infos : List DeltaSchemaInfo)
    → length infos ≤ max_cnt
    → length (enqueue max_cnt version change infos) ≤ max_cnt
unfolding enqueue
length-enqueue max_cnt version change [] h = elim (Bool-cases (leb max_cnt 0)) [
  | inl p ↦ rw p (omega arith)
  | inr p ↦ rw p (ground arith)
]
length-enqueue max_cnt version change (f ∷ infos) h = elim (Bool-cases (leb max_cnt 0)) [
  | inl p ↦ rw p h
  | inr p ↦ rw p (
      length-cut_queue max_cnt (push_delta (delta_of version change) (f ∷ infos))
        (omega (arith, h, length-push_delta (delta_of version change) (f ∷ infos))))
]

unfoldable pub mem_id : ℕ → List ℕ → Bool
mem_id i [] = false
mem_id i (j ∷ ids) = (i == j) || mem_id i ids

-- Whether a change of the queue, from version `v` on, has the table.
unfoldable pub covers : (v id : ℕ) → List DeltaSchemaInfo → Bool
covers v id [] = false
covers v id (q ∷ qs) = (leb v q.schema_version && mem_id id q.related_ids) || covers v id qs

abbrev pub Newer : ℕ → List DeltaSchemaInfo → Type 0
Newer v qs = All (λ q. v < q.schema_version) qs

abbrev pub Older : ℕ → List DeltaSchemaInfo → Type 0
Older v qs = All (λ q. q.schema_version < v) qs

abbrev pub Ascends : List DeltaSchemaInfo → Type 0
Ascends [] = Unit
Ascends (q ∷ qs) = Newer q.schema_version qs × Ascends qs

has_related-mem_id :
    (i a : ℕ) (ids actions : List ℕ) → has_related i a ids actions ≡ true → mem_id i ids ≡ true
unfolding has_related mem_id
has_related-mem_id i a [] actions h = cc
has_related-mem_id i a (j ∷ ids) [] h = cc
has_related-mem_id i a (j ∷ ids) (b ∷ actions) h =
    ground (arith, has_related-mem_id i a ids actions)

all_related-mem_id :
    (i : ℕ) (last last_actions ids actions : List ℕ)
    → all_related last last_actions ids actions ≡ true
    → mem_id i last ≡ true
    → mem_id i ids ≡ true
unfolding all_related mem_id
all_related-mem_id i [] la ids actions h m = cc
all_related-mem_id i (j ∷ last) [] ids actions h m = cc
all_related-mem_id i (j ∷ last) (a ∷ la) ids actions h m = elim (Bool-cases (i == j)) [
  | inl e ↦ let p : i ≡ j = ground arith in rw p (has_related-mem_id j a ids actions (ground arith))
  | inr e ↦ all_related-mem_id i last la ids actions (ground arith) (ground arith)
]

contain_in-mem_id :
    (i : ℕ) (last cur : DeltaSchemaInfo)
    → contain_in last cur ≡ true
    → mem_id i last.related_ids ≡ true
    → mem_id i cur.related_ids ≡ true
unfolding contain_in
contain_in-mem_id i last cur h m =
    all_related-mem_id i last.related_ids last.related_causet_actions cur.related_ids
      cur.related_causet_actions (ground arith) m

module _ (d : DeltaSchemaInfo) where
  merge_last-covers :
      (v id : ℕ) (e : DeltaSchemaInfo) (qs : List DeltaSchemaInfo)
      → Older d.schema_version (e ∷ qs)
      → covers v id (e ∷ qs) ≡ true
      → covers v id (merge_last d e qs) ≡ true
  unfolding covers merge_last
  merge_last-covers v id e [] o h = elim (Bool-cases (contain_in e d)) [
    | inl p ↦ rw p (ground (arith, o.0, contain_in-mem_id id e d p))
    | inr p ↦ rw p (ground arith)
  ]
  merge_last-covers v id e (f ∷ qs) o h = ground (arith, merge_last-covers v id f qs o.1)

  pub push-covers :
      (v id : ℕ) (f : DeltaSchemaInfo) (qs : List DeltaSchemaInfo)
      → Older d.schema_version (f ∷ qs)
      → covers v id (f ∷ qs) ≡ true
      → covers v id (push_delta d (f ∷ qs)) ≡ true
  unfolding covers push_delta
  push-covers v id f [] o h = ground arith
  push-covers v id f (e ∷ qs) o h = ground (arith, merge_last-covers v id e qs o.1)

  merge_last-new :
      (id : ℕ) (e : DeltaSchemaInfo) (qs : List DeltaSchemaInfo)
      → mem_id id d.related_ids ≡ true
      → covers d.schema_version id (merge_last d e qs) ≡ true
  unfolding covers merge_last
  merge_last-new id e [] h = elim (Bool-cases (contain_in e d)) [
    | inl p ↦ rw p (ground arith)
    | inr p ↦ rw p (ground arith)
  ]
  merge_last-new id e (f ∷ qs) h = ground (arith, merge_last-new id f qs h)

  pub push-new :
      (id : ℕ) (f : DeltaSchemaInfo) (qs : List DeltaSchemaInfo)
      → mem_id id d.related_ids ≡ true
      → covers d.schema_version id (push_delta d (f ∷ qs)) ≡ true
  unfolding covers push_delta
  push-new id f [] h = ground arith
  push-new id f (e ∷ qs) h = ground (arith, merge_last-new id e qs h)

  merge_last-All :
      (P : DeltaSchemaInfo → Type 0) (e : DeltaSchemaInfo) (qs : List DeltaSchemaInfo)
      → P d
      → All P (e ∷ qs)
      → All P (merge_last d e qs)
  unfolding merge_last
  merge_last-All P e [] p h = elim (Bool-cases (contain_in e d)) [
    | inl c ↦ rw c (p, tt)
    | inr c ↦ rw c (h.0, (p, tt))
  ]
  merge_last-All P e (f ∷ qs) p h = (h.0, merge_last-All P f qs p h.1)

  pub push-All :
      (P : DeltaSchemaInfo → Type 0) (f : DeltaSchemaInfo) (qs : List DeltaSchemaInfo)
      → P d
      → All P (f ∷ qs)
      → All P (push_delta d (f ∷ qs))
  unfolding push_delta
  push-All P f [] p h = (h.0, (p, tt))
  push-All P f (e ∷ qs) p h = (h.0, merge_last-All P e qs p h.1)

  merge_last-Ascends :
      (e : DeltaSchemaInfo) (qs : List DeltaSchemaInfo)
      → Older d.schema_version (e ∷ qs)
      → Ascends (e ∷ qs)
      → Ascends (merge_last d e qs)
  unfolding merge_last
  merge_last-Ascends e [] o h = elim (Bool-cases (contain_in e d)) [
    | inl c ↦ rw c (tt, tt)
    | inr c ↦ rw c ((o.0, tt), (tt, tt))
  ]
  merge_last-Ascends e (f ∷ qs) o h = (
    merge_last-All (λ q. e.schema_version < q.schema_version) f qs o.0 h.0,
    merge_last-Ascends f qs o.1 h.1,
  )

  pub push-Ascends :
      (f : DeltaSchemaInfo) (qs : List DeltaSchemaInfo)
      → Older d.schema_version (f ∷ qs)
      → Ascends (f ∷ qs)
      → Ascends (push_delta d (f ∷ qs))
  unfolding push_delta
  push-Ascends f [] o h = ((o.0, tt), (tt, tt))
  push-Ascends f (e ∷ qs) o h = (
    merge_last-All (λ q. f.schema_version < q.schema_version) e qs o.0 h.0,
    merge_last-Ascends e qs o.1 h.1,
  )
