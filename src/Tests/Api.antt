-- ===== src/Tests/Api.antt =====
-- The lineage handler at a concrete request.
use stencil.Base.{ℕ, String, ◌≢◌, ◌⊎◌, [], ◌∷◌, none, some, ◌≡◌, refl}
use stencil.Base.Outcome.{ok, err}
use stencil.Base.Sprintf.{sprintf}
use stencil.Lineage.Compute.{LineageResponse, invalid_direction}
use stencil.Lineage.Compute.Laws.{IsAnswer}
use stencil.Service.{get_latest, get_schema, cached_get_schema, schema_key_func}
use stencil.Store.Tables.{first, select, max_version}
use stencil.Store.Schemas.{
  Metadata, get_metadata, get_latest_version, get, get_data, find_schema, find_version,
  get_version_id, joined_schema, one_row,
}
use stencil.Service.Versions.{pos}
use stencil.Api.Schemas.{bad_request, refused_direction, handle_get_lineage}
use stencil.Api.Schemas.Lineage.Query.{IsLevel, IsDirection}
use stencil.Api.Schemas.Lineage.{handle_get_lineage-IsAnswer}
use stencil.Tests.Samples.{libraries, cache, decimal, text_bytes, unmarshal_order, order_set}
use stencil.Tests.Search.{book_tables}

abbrev book_meta : Metadata
book_meta = record {
  authority = "";
  format = "FORMAT_PROTOBUF";
  compatibility = "";
  source_url = "";
}

books_read :
    get_latest libraries cache decimal text_bytes book_tables (λ _. none) "shop" "books"
    ≡ (ok (book_meta, 1 ∷ []), cache.set (λ _. none) "shop-books-2" (1 ∷ []))
unfolding get_latest get_schema cached_get_schema schema_key_func sprintf get_metadata
    get_latest_version get get_data find_schema find_version get_version_id joined_schema one_row
    first select max_version
books_read = refl

order_request-IsAnswer :
    let sent =
      handle_get_lineage libraries cache decimal text_bytes unmarshal_order
        (λ fqns. fqns)
        (λ _. some (pos 3))
        book_tables
        (λ _. none)
        "shop"
        "books"
        "Order"
        "3"
        "" in
    ((◌≡◌ {A = String} "Order" "")
      × (sent ≡ (err (bad_request "missing required path parameter: type_name"), λ _. none)))
    ⊎ ((◌≢◌ {A = String} "Order" "")
        × (¬ ((accepted : String) × IsDirection "" accepted))
        × (sent ≡ (err (refused_direction (invalid_direction "")), λ _. none)))
    ⊎ ((◌≢◌ {A = String} "Order" "")
        × ((n : ℕ) × (resp : LineageResponse) × IsLevel (λ _. some (pos 3)) "3" n
            × IsDirection "" resp.direction
            × (sent ≡ (ok resp, cache.set (λ _. none) "shop-books-2" (1 ∷ [])))
            × IsAnswer (λ fqns. fqns) order_set "Order" n resp))
order_request-IsAnswer =
    handle_get_lineage-IsAnswer libraries cache decimal text_bytes unmarshal_order (λ fqns. fqns)
      (λ _. some (pos 3)) book_tables (λ _. none) (cache.set (λ _. none) "shop-books-2" (1 ∷ []))
      "shop" "books" "Order" "3" "" book_meta (1 ∷ []) order_set books_read refl
