-- ===== src/Lineage/Compute.antt =====
-- computeLineage of core/schema/lineage.go, and GetLineage of core/schema/service.go below it.
pub mod Sides
pub mod Laws
use mathlib.Core.List.{foldl}
use stencil.Base.{
  ℕ, ◌+◌, String, List, [], ◌∷◌, ◌++◌, map, length, Bool, true, false, ◌||◌, str_eq, ◌==◌,
  if◌then◌else◌,
}
use stencil.Base.Outcome.{Outcome, ok, err, ◌>>=◌}
use stencil.Descriptors.{FileDescriptorSet}
use stencil.Lineage.Walk.{Graph, Visited, mark, BfsNode, walk_lineage}
use stencil.Lineage.Deps.{Maps, build_dependency_maps}
use stencil.Lineage.Roots.{find_root_fqns}

abbrev pub direction_both : String
direction_both = "both"

abbrev pub direction_downstream : String
direction_downstream = "downstream"

abbrev pub direction_upstream : String
direction_upstream = "upstream"

-- An error of proto.Unmarshal by its text, or the direction that is none.
pub data LineageError : Type 0 where
  unmarshal_failed : String → LineageError
  invalid_direction : String → LineageError

pub record RootSchemaRef : Type 0 where
  pub namespace_id : String
  pub schema_id : String
  pub type_name : String

pub record LineageSchema : Type 0 where
  pub namespace_id : String
  pub schema_id : String
  pub type_name : String
  pub level : ℕ
  pub path : List String

pub record LineageSummary : Type 0 where
  pub downstream_count : ℕ
  pub upstream_count : ℕ
  pub total_count : ℕ

pub record LineageResponse : Type 0 where
  pub root_schema : RootSchemaRef
  pub direction : String
  pub downstream : List LineageSchema
  pub upstream : List LineageSchema
  pub summary : LineageSummary

unfoldable pub normalize_lineage_direction : String → Outcome LineageError String
normalize_lineage_direction direction =
    if str_eq direction "" || str_eq direction direction_both
    then ok direction_both
    else if str_eq direction direction_downstream
    then ok direction_downstream
    else if str_eq direction direction_upstream
    then ok direction_upstream
    else err (invalid_direction direction)

unfoldable pub convert_lineage_nodes : String → String → List BfsNode → List LineageSchema
convert_lineage_nodes namespace_id schema_id nodes =
    map
      (λ (node : BfsNode). record {
        namespace_id = namespace_id;
        schema_id = schema_id;
        type_name = node.fqn;
        level = node.level;
        path = node.path;
      })
      nodes

-- One side of the response, with the names that it has.
pub record Side : Type 0 where
  pub seen : Visited
  pub schemas : List LineageSchema

-- The loop that leaves out the nodes seen under an earlier root: what was seen, and the new ones.
pub record Filtered : Type 0 where
  pub seen : Visited
  pub kept : List BfsNode

unfoldable pub filter_node : Filtered → BfsNode → Filtered
filter_node f node =
    if f.seen node.fqn
    then f
    else record { seen = mark f.seen node.fqn; kept = f.kept ++ node ∷ [] }

-- What the loop over the roots does for one side and one root.
unfoldable pub extend : String → String → Graph → ℕ → Side → String → Side
extend namespace_id schema_id graph level side root_fqn =
    let nodes = walk_lineage graph root_fqn level in
    let filtered = foldl filter_node (record { seen = side.seen; kept = [] }) nodes in
    record {
      seen = filtered.seen;
      schemas = side.schemas ++ convert_lineage_nodes namespace_id schema_id filtered.kept;
    }

-- The two sides are independent, so each has its own loop over the roots.
unfoldable pub side_of : String → String → Graph → ℕ → Bool → List String → List LineageSchema
side_of namespace_id schema_id graph level wanted roots =
    if wanted
    then (foldl (extend namespace_id schema_id graph level)
        (record { seen = λ _. false; schemas = [] }) roots).schemas
    else []

-- `unmarshal` is proto.Unmarshal, and `range` the order of a loop over a map.
module _ (unmarshal : List ℕ → Outcome String FileDescriptorSet)
    (range : List String → List String) where
  unfoldable pub get_descriptor_set : List ℕ → Outcome LineageError FileDescriptorSet
  get_descriptor_set content = elim (unmarshal content) [
    | ok fds ↦ ok fds
    | err e ↦ err (unmarshal_failed e)
  ]

  -- What follows once the descriptor set and the direction are known.
  unfoldable pub lineage_response :
      FileDescriptorSet → String → String → String → ℕ → String → LineageResponse
  lineage_response fds namespace_id schema_id root_type level direction =
      let maps = build_dependency_maps fds in
      let roots = find_root_fqns range fds root_type in
      let downstream =
        side_of namespace_id schema_id maps.reverse_deps level
          (str_eq direction direction_both || str_eq direction direction_downstream) roots in
      let upstream =
        side_of namespace_id schema_id maps.forward_deps level
          (str_eq direction direction_both || str_eq direction direction_upstream) roots in
      record {
        root_schema = record {
          namespace_id = namespace_id;
          schema_id = schema_id;
          type_name = root_type;
        };
        direction = direction;
        downstream = downstream;
        upstream = upstream;
        summary = record {
          downstream_count = length downstream;
          upstream_count = length upstream;
          total_count = length downstream + length upstream;
        };
      }

  unfoldable pub compute_lineage :
      List ℕ → String → String → String → ℕ → String → Outcome LineageError LineageResponse
  compute_lineage content namespace_id schema_id root_type level asked = do
    fds ← get_descriptor_set content
    direction ← normalize_lineage_direction asked
    ok (lineage_response fds namespace_id schema_id root_type level direction)
