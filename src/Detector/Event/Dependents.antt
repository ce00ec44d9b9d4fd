-- ===== src/Detector/Event/Dependents.antt =====
-- The dependents that an event names for each updated schema.
use mathlib.Core.List.{foldl}
use mathlib.Core.List.Memᴰ
use stencil.Base.{
  ℕ, String, List, [], ◌∷◌, Memᴰ, Bool, some, ◌≡◌, refl, sym, subst, ap, ◌∙◌, inl, inr, str_eq,
  eq_iff, Bool-cases,
}
use stencil.Base.Outcome.{Outcome, ok}
use stencil.Descriptors.{EnumDescriptorProto, FileDescriptorSet}
use stencil.Lineage.Walk.{Graph, walk_lineage}
use stencil.Lineage.Walk.Trail.{IsLineage, names}
use stencil.Lineage.Walk.Correct.{walk_lineage-IsLineage}
use stencil.Service.Versions.{ℤ, pos, negsuc}
use stencil.Detector.Impact.{get_dependent_impacted_schemas}
use stencil.Detector.Impact.SameWalk.{impacted-eq-walk}
use stencil.Detector.Reverse.{get_reverse_dependencies}
use stencil.Detector.Event.{
  Message, SchemaChangedEvent, ChangeRequest, append_impacted_dependents, append_dependents,
  search_depth, changed_event, initial_event, set_directly_impacted_schemas_and_fields,
  identify_schema_change,
}

-- The number of steps that the depth of a request stands for.
pub data IsDepth : ℤ → ℕ → Type 0 where
  within : (n : ℕ) → IsDepth (pos n) n
  without_bound : (n : ℕ) → IsDepth (negsuc n) 2147483647

search_depth-IsDepth :
    (equal_message : Message → Message → Bool)
    (equal_enum : EnumDescriptorProto → EnumDescriptorProto → Bool)
    (range : List String → List String) (requested : ℤ)
    → IsDepth requested (search_depth equal_message equal_enum range requested)
unfolding search_depth
search_depth-IsDepth equal_message equal_enum range (pos n) = within n
search_depth-IsDepth equal_message equal_enum range (negsuc n) = without_bound n

module _ (equal_message : Message → Message → Bool)
    (equal_enum : EnumDescriptorProto → EnumDescriptorProto → Bool)
    (range : List String → List String) where
  module _ (g : Graph) (depth : ℕ) where
    abbrev step : SchemaChangedEvent → String → SchemaChangedEvent
    step = append_dependents equal_message equal_enum range g depth

    abbrev Named : SchemaChangedEvent → String → Type 0
    Named sce x = sce.impacted_schemas x ≡ some (get_dependent_impacted_schemas g x depth)

    step_names : (sce : SchemaChangedEvent) (x : String) → Named (step sce x) x
    unfolding append_dependents append_impacted_dependents
    step_names sce x = rw ((eq_iff x x).1 refl)

    step_keeps : (sce : SchemaChangedEvent) (x y : String) → Named sce x → Named (step sce y) x
    unfolding append_dependents append_impacted_dependents
    step_keeps sce x y h = elim (Bool-cases (str_eq x y)) [
      | inl e ↦
          rw e (ap (λ z. some (get_dependent_impacted_schemas g z depth)) (sym ((eq_iff x y).0 e)))
      | inr e ↦ rw e h
    ]

    steps_keep :
        (xs : List String) (sce : SchemaChangedEvent) (x : String)
        → Named sce x
        → Named (foldl step sce xs) x
    steps_keep [] sce x h = h
    steps_keep (y ∷ ys) sce x h = steps_keep ys (step sce y) x (step_keeps sce x y h)

    steps_name :
        (xs : List String) (sce : SchemaChangedEvent) (x : String)
        → Memᴰ x xs
        → Named (foldl step sce xs) x
    steps_name [] sce x i = absurd (Memᴰ.not-nil i)
    steps_name (y ∷ ys) sce x i = elim (Memᴰ.cases_cons i) [
      | inl e ↦ steps_keep ys (step sce y) x (subst (Named (step sce y)) (sym e) (step_names sce y))
      | inr i' ↦ steps_name ys (step sce y) x i'
    ]

    steps_same :
        (xs : List String) (sce : SchemaChangedEvent)
        → (foldl step sce xs).updated_schemas ≡ sce.updated_schemas
    unfolding append_dependents append_impacted_dependents
    steps_same [] sce = refl
    steps_same (y ∷ ys) sce = steps_same ys (step sce y)

    all_named :
        (sce : SchemaChangedEvent) (x : String)
        → Memᴰ x (foldl step sce sce.updated_schemas).updated_schemas
        → (foldl step sce sce.updated_schemas).impacted_schemas x
          ≡ some (x ∷ names (walk_lineage g x depth))
    all_named sce x i =
        steps_name sce.updated_schemas sce x (subst (Memᴰ x) (steps_same sce.updated_schemas sce) i)
        ∙ ap some (impacted-eq-walk g x depth)

  -- For each updated schema the event names the schema itself and what the lineage walk over the
  -- reverse dependencies of the new descriptors reports from it: the types whose shortest trail from
  -- it is no longer than the depth.
  pub record NamesDependents (current : FileDescriptorSet) (depth : ℕ) (event : SchemaChangedEvent)
      : Type 0 where
    pub dependents :
        (x : String)
        → Memᴰ x event.updated_schemas
        → event.impacted_schemas x
          ≡ some (x ∷ names (walk_lineage (get_reverse_dependencies current) x depth))
    pub exact :
        (x : String)
        → Memᴰ x event.updated_schemas
        → IsLineage
            (get_reverse_dependencies current)
            x
            depth
            (walk_lineage (get_reverse_dependencies current) x depth)

  -- With previous bytes that are not empty, and bytes that both unmarshal, there is an event, and
  -- for each updated schema it names that schema and, in the same order, what the lineage walk over
  -- the reverse dependencies of the new descriptors reports from it: each other type within the
  -- requested depth of steps, so that depth 2 reports the schema, its dependents, and theirs. A
  -- negative depth is the greatest int32.
  pub identify_schema_change-NamesDependents :
      (unmarshal : List ℕ → Outcome String FileDescriptorSet) (event_id : String)
      (request : ChangeRequest) (b : ℕ) (bytes : List ℕ) (prev current : FileDescriptorSet)
      → request.old_data ≡ b ∷ bytes
      → unmarshal (b ∷ bytes) ≡ ok prev
      → unmarshal request.new_data ≡ ok current
      → (depth : ℕ) × (event : SchemaChangedEvent) × IsDepth request.depth depth
        × (identify_schema_change equal_message equal_enum range unmarshal event_id request
            ≡ ok event)
        × NamesDependents current depth event
  unfolding identify_schema_change
  identify_schema_change-NamesDependents unmarshal event_id request b bytes prev current e f g =
      let depth = search_depth equal_message equal_enum range request.depth in
      let graph = get_reverse_dependencies current in
      let direct =
        set_directly_impacted_schemas_and_fields equal_message equal_enum range current prev
          (initial_event event_id request) in
      (
        depth,
        changed_event equal_message equal_enum range current prev event_id request,
        search_depth-IsDepth equal_message equal_enum range request.depth,
        rw (e, identify_schema_change)
            (rw (f, identify_schema_change) (rw (g, identify_schema_change))),
        record {
          dependents = λ x i.
              unfold changed_event in all_named graph depth direct x (unfold changed_event in i);
          exact = λ x _. walk_lineage-IsLineage graph x depth;
        },
      )
