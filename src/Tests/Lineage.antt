-- ===== src/Tests/Lineage.antt =====
-- The theorems on core/schema/lineage.go and core/changedetector at concrete inputs.
use stencil.Base.{ℕ, false, true, [], ◌∷◌, Memᴰ, ◌≡◌, refl, ◌↔◌}
use stencil.Base.Outcome.{ok}
use stencil.Lineage.Walk.{walk_lineage}
use stencil.Lineage.Walk.Trail.{IsLineage, names}
use stencil.Lineage.Walk.Correct.{walk_lineage-IsLineage}
use stencil.Lineage.Deps.{build_dependency_maps}
use stencil.Lineage.Deps.Edges.{DependsOn, dependency_maps_hold}
use stencil.Detector.Impact.{get_dependent_impacted_schemas}
use stencil.Detector.Impact.SameWalk.{impacted-eq-walk}
use stencil.Detector.Reverse.{get_reverse_dependencies}
use stencil.Detector.Reverse.Edges.{UsesDirectly, reverse_dependencies_hold}
use stencil.Detector.Event.{SchemaChangedEvent, ChangeRequest, identify_schema_change}
use stencil.Detector.Event.Dependents.{
  IsDepth, NamesDependents, identify_schema_change-NamesDependents,
}
use stencil.Service.Versions.{pos}
use stencil.Tests.Samples.{ring, order_set, unmarshal_order}

ring_names : names (walk_lineage ring ".shop.Order" 2) ≡ ".shop.Book" ∷ ".shop.Item" ∷ []
unfolding walk_lineage
ring_names = refl

ring_below_one : walk_lineage ring ".shop.Item" 0 ≡ []
unfolding walk_lineage
ring_below_one = refl

ring-IsLineage : IsLineage ring ".shop.Order" 2 (walk_lineage ring ".shop.Order" 2)
ring-IsLineage = walk_lineage-IsLineage ring ".shop.Order" 2

ring_impacted :
    get_dependent_impacted_schemas ring ".shop.Order" 1
    ≡ ".shop.Order" ∷ names (walk_lineage ring ".shop.Order" 1)
ring_impacted = impacted-eq-walk ring ".shop.Order" 1

order_maps :
    (Memᴰ "shop.Book" ((build_dependency_maps order_set).forward_deps "shop.Order")
      ↔ DependsOn order_set "shop.Order" "shop.Book")
    × (Memᴰ "shop.Order" ((build_dependency_maps order_set).reverse_deps "shop.Book")
        ↔ DependsOn order_set "shop.Order" "shop.Book")
order_maps = dependency_maps_hold order_set "shop.Order" "shop.Book"

order_reverse :
    Memᴰ "shop.Order" (get_reverse_dependencies order_set "shop.Book")
    ↔ UsesDirectly order_set "shop.Order" "shop.Book"
order_reverse = reverse_dependencies_hold order_set "shop.Order" "shop.Book"

abbrev change_request : ChangeRequest
change_request = record {
  namespace_id = "shop";
  schema_name = "orders";
  version = 2;
  old_data = 1 ∷ [];
  new_data = 2 ∷ [];
  depth = pos 2;
  source_url = "";
  commit_sha = "c0ffee";
}

order-NamesDependents :
    (depth : ℕ) × (event : SchemaChangedEvent) × IsDepth change_request.depth depth
    × (identify_schema_change
          (λ _ _. false)
          (λ _ _. true)
          (λ ks. ks)
          unmarshal_order
          "e1"
          change_request
        ≡ ok event)
    × NamesDependents (λ _ _. false) (λ _ _. true) (λ ks. ks) order_set depth event
order-NamesDependents =
    identify_schema_change-NamesDependents (λ _ _. false) (λ _ _. true) (λ ks. ks) unmarshal_order
      "e1" change_request 1 [] order_set order_set refl refl refl
