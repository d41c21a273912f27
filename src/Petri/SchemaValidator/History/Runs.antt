-- ===== src/Petri/SchemaValidator/History/Runs.antt =====
-- The validator in its course: every sequence of updates, stops, resets and restarts.
use mathlib.Core.Path.{subst}
use mileva_db.Prelude.{
  ℕ, suc, ◌<◌, ◌≡◌, ◌⊎◌, refl, sym, ap, ◌∙◌, Bool, true, false, Option, List, [], ◌∷◌, ◌==◌,
  if◌then◌else◌, ltb, leb, length, arith, Bool-cases, inl, inr,
}
use mileva_db.Petri.SchemaValidator.{
  RelatedSchemaChange, DeltaSchemaInfo, SchemaValidator, push_delta, cut_queue, delta_of, enqueue,
  new_schema_validator, stop_validator, reset_validator, restart_validator, update_validator,
}
use mileva_db.Petri.SchemaValidator.Queue.{
  mem_id, covers, Older, Ascends, push-covers, push-new, push-All, push-Ascends,
}

abbrev pub IsAmong : DeltaSchemaInfo → List DeltaSchemaInfo → Type 0
IsAmong d [] = ⊥
IsAmong d (e ∷ history) = (d ≡ e) ⊎ IsAmong d history

Older-IsAmong :
    (n : ℕ) (history : List DeltaSchemaInfo) (d : DeltaSchemaInfo)
    → Older n history
    → IsAmong d history
    → d.schema_version < n
Older-IsAmong n [] d o a = absurd a
Older-IsAmong n (e ∷ history) d o (inl p) = subst (λ x. x.schema_version < n) (sym p) o.0
Older-IsAmong n (e ∷ history) d o (inr a) = Older-IsAmong n history d o.1 a

abbrev pub is_after_first : ℕ → List DeltaSchemaInfo → Bool
is_after_first v [] = false
is_after_first v (f ∷ qs) = ltb f.schema_version v

-- The queue remembers, of the history, the tables of each change behind its first one.
pub record Remembers (qs history : List DeltaSchemaInfo) : Type 0 where
  pub ascends : Ascends qs
  pub older : (n : ℕ) → Older n history → Older n qs
  pub kept :
      (d : DeltaSchemaInfo)
      → IsAmong d history
      → (id : ℕ) → mem_id id d.related_ids ≡ true
      → is_after_first d.schema_version qs ≡ true
      → covers d.schema_version id qs ≡ true

pub nothing-Remembers : (history : List DeltaSchemaInfo) → Remembers [] history
nothing-Remembers history = record { ascends = tt; older = λ n o. tt; kept = λ d a id m h. cc }

push-first :
    (v : ℕ) (d f : DeltaSchemaInfo) (qs : List DeltaSchemaInfo)
    → is_after_first v (push_delta d (f ∷ qs)) ≡ ltb f.schema_version v
unfolding push_delta
push-first v d f [] = refl
push-first v d f (e ∷ qs) = refl

one-Remembers :
    (d : DeltaSchemaInfo) (history : List DeltaSchemaInfo)
    → Older d.schema_version history
    → Remembers (d ∷ []) (d ∷ history)
one-Remembers d history o = record {
  ascends = (tt, tt);
  older = λ n old. (old.0, tt);
  kept = λ e a id m h. elim a [
    | inl p ↦
        let same : e.schema_version ≡ d.schema_version = ap (λ x. x.schema_version) p in
        ground (arith, same)
    | inr a ↦ let l = Older-IsAmong d.schema_version history e o a in ground (arith, l)
  ];
}

push-Remembers :
    (d f : DeltaSchemaInfo) (qs history : List DeltaSchemaInfo)
    → Older d.schema_version history
    → Remembers (f ∷ qs) history
    → Remembers (push_delta d (f ∷ qs)) (d ∷ history)
push-Remembers d f qs history o w =
    let old = w.older d.schema_version o in
    record {
      ascends = push-Ascends d f qs old w.ascends;
      older = λ n h. push-All d (λ q. q.schema_version < n) f qs h.0 (w.older n h.1);
      kept = λ e a id m h. elim a [
        | inl p ↦
            subst (λ x. covers x.schema_version id (push_delta d (f ∷ qs)) ≡ true) (sym p)
              (push-new d id f qs (subst (λ x. mem_id id x.related_ids ≡ true) p m))
        | inr a ↦
            push-covers d e.schema_version id f qs old
              (w.kept e a id m (sym (push-first e.schema_version d f qs) ∙ h))
      ];
    }

cut-Remembers :
    (max_cnt : ℕ) (qs history : List DeltaSchemaInfo)
    → Remembers qs history
    → Remembers (cut_queue max_cnt qs) history
unfolding cut_queue
cut-Remembers max_cnt [] history w = w
cut-Remembers max_cnt (f ∷ []) history w = elim (Bool-cases (ltb max_cnt 1)) [
  | inl p ↦ rw p (nothing-Remembers history)
  | inr p ↦ rw p w
]
cut-Remembers max_cnt (f ∷ g ∷ qs) history w =
    elim (Bool-cases (ltb max_cnt (suc (suc (length qs))))) [
      | inl p ↦ rw p record {
        ascends = w.ascends.1;
        older = λ n o. (w.older n o).1;
        kept = λ d a id m h.
            let l = w.ascends.0.0 in
            let c = w.kept d a id m (ground (arith, l)) in unfold covers in ground (arith, c, l);
      }
      | inr p ↦ rw p w
    ]

enqueue-Remembers :
    {Rep : Type 0}
    → (max_cnt version : ℕ) (change : Option (RelatedSchemaChange Rep))
    → (qs history : List DeltaSchemaInfo) → 0 < max_cnt
    → Older (delta_of version change).schema_version history
    → Remembers qs history
    → Remembers (enqueue max_cnt version change qs) (delta_of version change ∷ history)
unfolding enqueue
enqueue-Remembers max_cnt version change [] history pos o w =
    let p : leb max_cnt 0 ≡ false = ground arith in
    rw p (one-Remembers (delta_of version change) history o)
enqueue-Remembers max_cnt version change (f ∷ qs) history pos o w =
    let p : leb max_cnt 0 ≡ false = ground arith in
    rw p (cut-Remembers max_cnt _ _ (push-Remembers (delta_of version change) f qs history o w))

-- The history holds every change to a new version that the validator was told of, also those that
-- it did not look at because it was stopped. A new version is above the earlier ones. The maximal
-- length of the queue, read at each update, is not 0 where a change comes.
module _ {Rep : Type 0} where
  pub data Runs (time_of_ts : ℕ → ℕ) : SchemaValidator Rep → List DeltaSchemaInfo → Type 0 where
    starts : (lease : ℕ) → Runs time_of_ts (new_schema_validator lease) []
    renews :
        (s : SchemaValidator Rep) (history : List DeltaSchemaInfo)
        → Runs time_of_ts s history
        → (max_cnt : ℕ) (rep : Option Rep) (ts ver : ℕ) (change : Option (RelatedSchemaChange Rep))
        → Runs time_of_ts (update_validator time_of_ts max_cnt rep ts ver ver change s) history
    updates :
        (s : SchemaValidator Rep) (history : List DeltaSchemaInfo)
        → Runs time_of_ts s history
        → (max_cnt : ℕ) (rep : Option Rep) (ts old_ver curr_ver : ℕ)
          (change : Option (RelatedSchemaChange Rep))
        → 0 < max_cnt
        → (curr_ver == old_ver) ≡ false
        → Older (delta_of curr_ver change).schema_version history
        → Runs time_of_ts
            (update_validator time_of_ts max_cnt rep ts old_ver curr_ver change s)
            (delta_of curr_ver change ∷ history)
    stops :
        (s : SchemaValidator Rep) (history : List DeltaSchemaInfo)
        → Runs time_of_ts s history
        → Runs time_of_ts (stop_validator s) history
    resets :
        (s : SchemaValidator Rep) (history : List DeltaSchemaInfo)
        → Runs time_of_ts s history
        → Runs time_of_ts (reset_validator s) history
    restarts :
        (s : SchemaValidator Rep) (history : List DeltaSchemaInfo)
        → Runs time_of_ts s history
        → Runs time_of_ts (restart_validator s) history

module _ {Rep : Type 0} (time_of_ts : ℕ → ℕ) where
  -- The queue remembers the history, and is empty while the validator is stopped.
  abbrev pub Knows : SchemaValidator Rep → List DeltaSchemaInfo → Type 0
  Knows s history =
      Remembers s.delta_schema_infos history × ((s.is_started ≡ true) ⊎ (s.delta_schema_infos ≡ []))

  update-Knows :
      (s : SchemaValidator Rep) (history after : List DeltaSchemaInfo)
      → (max_cnt : ℕ) (rep : Option Rep) (ts old_ver curr_ver : ℕ)
        (change : Option (RelatedSchemaChange Rep))
      → Knows s history
      → Remembers
          (if curr_ver == old_ver
            then s.delta_schema_infos
            else enqueue max_cnt curr_ver change s.delta_schema_infos)
          after
      → Knows (update_validator time_of_ts max_cnt rep ts old_ver curr_ver change s) after
  unfolding update_validator
  update-Knows s history after max_cnt rep ts old_ver curr_ver change (w, inl p) q =
      rw (p) (q, inl refl)
  update-Knows s history after max_cnt rep ts old_ver curr_ver change (w, inr e) q =
      elim (Bool-cases s.is_started) [
        | inl p ↦ rw p (q, inl refl)
        | inr p ↦ rw p (rw e (nothing-Remembers after), inr e)
      ]

  pub Runs-Knows :
      (s : SchemaValidator Rep) (history : List DeltaSchemaInfo)
      → Runs time_of_ts s history
      → Knows s history
  unfolding new_schema_validator stop_validator reset_validator restart_validator
  Runs-Knows _ _ (starts lease) = (nothing-Remembers [], inl refl)
  Runs-Knows _ _ (renews s history run max_cnt rep ts ver change) =
      let w = Runs-Knows s history run in
      let e : (ver == ver) ≡ true = ground arith in
      update-Knows s history history max_cnt rep ts ver ver change w (rw e w.0)
  Runs-Knows _ _ (updates s history run max_cnt rep ts old_ver curr_ver change pos ne o) =
      let w = Runs-Knows s history run in
      update-Knows s history (delta_of curr_ver change ∷ history) max_cnt rep ts old_ver curr_ver
        change w
        (rw ne (enqueue-Remembers max_cnt curr_ver change s.delta_schema_infos history pos o w.0))
  Runs-Knows _ _ (stops s history run) = (nothing-Remembers history, inr refl)
  Runs-Knows _ _ (resets s history run) = (nothing-Remembers history, inl refl)
  Runs-Knows _ _ (restarts s history run) = ((Runs-Knows s history run).0, inl refl)
