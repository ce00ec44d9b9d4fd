-- ===== src/Lineage/Compute/Laws.antt =====
-- What a lineage response holds.
use stencil.Base.{
  ℕ, ◌+◌, String, List, [], Memᴰ, Bool, true, false, ◌≡◌, refl, ◌↔◌, ◌||◌, length, str_eq,
}
use stencil.Base.Outcome.{Outcome, ok, ◌>>=◌}
use stencil.Descriptors.{FileDescriptorSet}
use stencil.Lineage.Walk.{Graph}
use stencil.Lineage.Walk.Trail.{Unique}
use stencil.Lineage.Deps.{build_dependency_maps}
use stencil.Lineage.Roots.{find_root_fqns}
use stencil.Lineage.Compute.{
  LineageResponse, LineageSchema, normalize_lineage_direction, side_of, get_descriptor_set,
  lineage_response, compute_lineage,
}
use stencil.Lineage.Compute.Sides.{type_names, Reached, side_of_holds}

-- The list holds the types that the roots reach, each once.
pub record IsReach (graph : Graph) (level : ℕ) (roots : List String) (schemas : List LineageSchema)
    : Type 0 where
  pub names : (v : String) → Memᴰ v (type_names schemas) ↔ Reached graph level roots v
  pub once : Unique (type_names schemas)

-- A side that is asked for is complete, another one is empty.
abbrev pub IsSideOf : Bool → Graph → ℕ → List String → List LineageSchema → Type 0
IsSideOf wanted graph level roots schemas =
    (wanted ≡ true → IsReach graph level roots schemas) × (wanted ≡ false → schemas ≡ [])

pub record IsAnswer (range : List String → List String) (fds : FileDescriptorSet)
    (root_type : String) (level : ℕ) (resp : LineageResponse) : Type 0 where
  pub downstream :
      IsSideOf
        (str_eq resp.direction "both" || str_eq resp.direction "downstream")
        (build_dependency_maps fds).reverse_deps
        level
        (find_root_fqns range fds root_type)
        resp.downstream
  pub upstream :
      IsSideOf
        (str_eq resp.direction "both" || str_eq resp.direction "upstream")
        (build_dependency_maps fds).forward_deps
        level
        (find_root_fqns range fds root_type)
        resp.upstream
  pub total : resp.summary.total_count ≡ length resp.downstream + length resp.upstream

side-IsSideOf :
    (namespace_id schema_id : String) (graph : Graph) (level : ℕ) (wanted : Bool)
    (roots : List String)
    → IsSideOf wanted graph level roots (side_of namespace_id schema_id graph level wanted roots)
side-IsSideOf namespace_id schema_id graph level true roots =
    let (names, once) = side_of_holds namespace_id schema_id graph level roots in
    ((λ _. record { names = names; once = once }), λ e. absurd (cc))
side-IsSideOf namespace_id schema_id graph level false roots =
    ((λ e. absurd (cc)), λ _. unfold side_of in refl)

pub compute_lineage-IsAnswer :
    (unmarshal : List ℕ → Outcome String FileDescriptorSet) (range : List String → List String)
    (content : List ℕ) (namespace_id schema_id root_type : String) (level : ℕ)
    (asked direction : String) (fds : FileDescriptorSet)
    → unmarshal content ≡ ok fds
    → normalize_lineage_direction asked ≡ ok direction
    → (resp : LineageResponse) × (compute_lineage unmarshal range content namespace_id schema_id
          root_type level asked
        ≡ ok resp)
      × (resp.direction ≡ direction)
      × IsAnswer range fds root_type level resp
unfolding compute_lineage get_descriptor_set lineage_response
compute_lineage-IsAnswer unmarshal range content namespace_id schema_id root_type level asked
      direction fds e f =
    (
      lineage_response unmarshal range fds namespace_id schema_id root_type level direction,
      rw (e, compute_lineage, get_descriptor_set) (rw (f, ◌>>=◌)),
      refl,
      record {
        downstream = side-IsSideOf namespace_id schema_id _ level _ _;
        upstream = side-IsSideOf namespace_id schema_id _ level _ _;
        total = refl;
      },
    )
