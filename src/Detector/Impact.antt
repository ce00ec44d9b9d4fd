-- ===== src/Detector/Impact.antt =====
-- getDependentImpactedSchemas of core/changedetector/proto_change_detector_service.go: breadth
-- first search through a queue, level by level.
pub mod SameWalk
use mathlib.Core.List.{foldl}
use stencil.Base.{
  ℕ, zero, suc, String, List, [], ◌∷◌, ◌++◌, Bool, true, false, length, if◌then◌else◌,
}
use stencil.Lineage.Walk.{Graph, Visited, mark}

-- The variables of the loops.
pub record Bfs : Type 0 where
  pub queue : List String
  pub visited_messages : Visited
  pub dependent_impacted_schemas : List String

-- The body of the loop over the neighbors.
unfoldable pub push_neighbor : Bfs → String → Bfs
push_neighbor s neighbor = if s.visited_messages neighbor then s else record s {
  queue = s.queue ++ neighbor ∷ [];
  visited_messages = mark s.visited_messages neighbor;
}

-- The queue of a round with something in it: `Front` is its head.
unfoldable pub pop_front : Graph → String → List String → Bfs → Bfs
pop_front reverse_dependencies current_message rest s =
    foldl push_neighbor
      (record s {
        queue = rest;
        dependent_impacted_schemas = s.dependent_impacted_schemas ++ current_message ∷ [];
      })
      (reverse_dependencies current_message)

-- `for i := 0; i < size; i++`. The queue is never shorter than what is left of `size`.
unfoldable pub take_level : Graph → ℕ → Bfs → Bfs
take_level g zero s = s
take_level g (suc size) s = elim s.queue [
  | [] ↦ s
  | current ∷ rest ↦ take_level g size (pop_front g current rest s)
]

-- `for queue.Len() > 0 && depth >= 0`, with the rounds that `depth` leaves.
unfoldable pub impact_loop : Graph → ℕ → Bfs → Bfs
impact_loop g zero s = s
impact_loop g (suc rounds) s = elim s.queue [
  | [] ↦ s
  | _ ∷ _ ↦ impact_loop g rounds (take_level g (length s.queue) s)
]

-- A depth that is not negative; the caller puts the largest int32 for a negative one.
unfoldable pub get_dependent_impacted_schemas : Graph → String → ℕ → List String
get_dependent_impacted_schemas reverse_dependencies impacted_schema depth =
    (impact_loop reverse_dependencies (suc depth) (record {
      queue = impacted_schema ∷ [];
      visited_messages = mark (λ _. false) impacted_schema;
      dependent_impacted_schemas = [];
    })).dependent_impacted_schemas
