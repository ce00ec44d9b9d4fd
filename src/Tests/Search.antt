-- ===== src/Tests/Search.antt =====
-- The theorems on core/search and on internal/api at concrete inputs.
use stencil.Base.{
  ℕ, String, List, [], ◌∷◌, Memᴰ, Bool, true, false, Option, some, ◌≡◌, refl, ◌⊎◌, ◌↔◌, str_eq,
  arith,
}
use stencil.Base.Outcome.{ok, err}
use stencil.Service.Versions.{pos}
use stencil.Store.Integrity.{IsConsistent}
use stencil.Store.Tables.{Db, select, max_version}
use stencil.Store.Schemas.{has_namespace, get}
use stencil.Search.{
  SearchRequest, SearchHits, SearchErr, search, search_latest, stored_files, latest_rows,
  latest_versions, schema_group, flat_map, hit_of,
}
use stencil.Search.Readable.{search_hits_read}
use stencil.Search.Hits.{IsHit}
use stencil.Search.Requests.{Fault, Wanted, search_answers}
use stencil.Api.Namespaces.{Namespace, handle_create, handle_update, handle_get}
use stencil.Api.Namespaces.Stored.{namespace_reads_back}
use stencil.Tests.Samples.{tables}

abbrev pub book_tables : Db
book_tables = record {
  namespaces =
      record { id = "shop"; format = "FORMAT_PROTOBUF"; compatibility = ""; description = "" } ∷ [];
  schemas =
      record {
        id = 1;
        name = "books";
        namespace_id = "shop";
        authority = "";
        format = "FORMAT_PROTOBUF";
        compatibility = "";
        source_url = "";
      }
      ∷ [];
  versions =
      record { id = "v2"; version = 2; schema_id = 1; commit_sha = "" }
      ∷ record { id = "v1"; version = 1; schema_id = 1; commit_sha = "" }
      ∷ [];
  schema_files =
      record {
        id = "f1";
        types = "shop.Book" ∷ [];
        fields = "shop.Book.title" ∷ [];
        content = 1 ∷ [];
      }
      ∷ [];
  versions_schema_files =
      record { version_id = "v2"; schema_file_id = "f1" }
      ∷ record { version_id = "v1"; schema_file_id = "f1" }
      ∷ [];
  next_schema_id = 2;
}

book_tables-IsConsistent : IsConsistent book_tables
book_tables-IsConsistent = record {
  namespace_ids = (tt, tt);
  schema_ids = (tt, tt);
  schema_names = (tt, tt);
  version_ids = ((refl, tt), (tt, tt));
  version_numbers = ((refl, tt), (tt, tt));
  file_ids = (tt, tt);
  homes = (refl, tt);
  schemas_there = (refl, (refl, tt));
  versions_there = (refl, (refl, tt));
  files_there = (refl, (refl, tt));
  numbered = (omega arith, (omega arith, tt));
  known = (omega arith, tt);
}

abbrev title_request : SearchRequest
title_request = record {
  namespace_id = "shop";
  schema_id = "";
  query = "title";
  history = false;
  version_id = pos 0;
}

abbrev is_title : String → Bool
is_title s = str_eq s "shop.Book.title"

abbrev title_regex : String → Option (String → Bool)
title_regex query = some is_title

title_found :
    ((e : SearchErr) × Fault title_request e
      × (search title_regex book_tables title_request ≡ err e))
    ⊎ (((e : SearchErr) → Fault title_request e → ⊥)
        × ((hits : List SearchHits) × (search title_regex book_tables title_request ≡ ok hits)
            × ((h : SearchHits)
                → Memᴰ h hits
                  ↔ IsHit book_tables is_title title_request (Wanted book_tables title_request) h)))
title_found =
    search_answers title_regex book_tables title_request is_title refl book_tables-IsConsistent

abbrev office : Namespace
office = record { id = "office"; format = 2; compatibility = 5; description = "papers" }

office_reads_back :
    ((has_namespace tables office.id ≡ false)
      × ((handle_create (λ _. "7") tables office).0 ≡ ok office)
      × (handle_get (handle_create (λ _. "7") tables office).1 office.id ≡ ok office))
    ⊎ ((has_namespace tables office.id ≡ true)
        × ((handle_update (λ _. "7") tables office).0 ≡ ok office)
        × (handle_get (handle_update (λ _. "7") tables office).1 office.id ≡ ok office))
office_reads_back = namespace_reads_back (λ _. "7") tables office (omega arith) (omega arith)

abbrev title_hit : SearchHits
title_hit = record {
  fields = "shop.Book.title" ∷ [];
  types = [];
  namespace_id = "shop";
  schema_id = "books";
  version_id = 2;
}

title_hits : search title_regex book_tables title_request ≡ ok (title_hit ∷ [])
unfolding search search_latest stored_files latest_rows latest_versions schema_group flat_map hit_of
    select max_version
title_hits = refl

title_hit_read : (content : List ℕ) × (get book_tables "shop" "books" 2 ≡ ok content)
title_hit_read =
    search_hits_read title_regex book_tables title_request is_title (title_hit ∷ []) title_hit refl
      book_tables-IsConsistent title_hits (Memᴰ.head refl)
