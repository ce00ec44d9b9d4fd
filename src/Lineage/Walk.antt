-- ===== src/Lineage/Walk.antt =====
-- walkLineage of core/schema/lineage.go: breadth first search with levels and paths.
pub mod Trail
pub mod Round
pub mod Correct
use mathlib.Core.List.{foldl}
use stencil.Base.{
  ℕ, zero, suc, String, List, [], ◌∷◌, ◌++◌, Bool, true, false, str_eq, if◌then◌else◌,
}

-- A Go `map[string][]string`: a missing key has the nil slice.
abbrev pub Graph : Type 0
Graph = String → List String

-- A Go `map[string]bool`: a missing key is false.
abbrev pub Visited : Type 0
Visited = String → Bool

abbrev pub mark : Visited → String → Visited
mark visited v x = if str_eq x v then true else visited x

pub record BfsNode : Type 0 where
  pub fqn : String
  pub level : ℕ
  pub path : List String

pub record Item : Type 0 where
  pub name : String
  pub path : List String

-- The variables that a round changes.
pub record Search : Type 0 where
  pub visited : Visited
  pub results : List BfsNode
  pub next_queue : List Item

-- The body of the loop over `graph[cur.name]`.
unfoldable pub visit_relation : ℕ → Item → Search → String → Search
visit_relation level cur s relation =
    if s.visited relation
    then s
    else (let new_path = cur.path ++ relation ∷ [] in
        record {
          visited = mark s.visited relation;
          results = s.results ++ record { fqn = relation; level = level; path = new_path } ∷ [];
          next_queue = s.next_queue ++ record { name = relation; path = new_path } ∷ [];
        })

module _ (graph : Graph) where
  unfoldable pub visit_item : ℕ → Search → Item → Search
  visit_item level s cur = foldl (visit_relation level cur) s (graph cur.name)

  -- One round: the whole queue of a level.
  unfoldable pub round : ℕ → List Item → Visited → List BfsNode → Search
  round level queue visited results =
      foldl (visit_item level) (record { visited = visited; results = results; next_queue = [] })
        queue

  -- `rounds` is `maxLevel - level`, the rounds that are left.
  unfoldable pub walk_loop : ℕ → ℕ → List Item → Visited → List BfsNode → List BfsNode
  walk_loop zero level queue visited results = results
  walk_loop (suc rounds) level [] visited results = results
  walk_loop (suc rounds) level (cur ∷ queue) visited results =
      let s = round (suc level) (cur ∷ queue) visited results in
      walk_loop rounds (suc level) s.next_queue s.visited s.results

  unfoldable pub walk_lineage : String → ℕ → List BfsNode
  unfolding walk_loop round visit_item visit_relation
  walk_lineage root_fqn max_level =
      walk_loop max_level 0 (record { name = root_fqn; path = root_fqn ∷ [] } ∷ [])
        (mark (λ _. false) root_fqn) []
