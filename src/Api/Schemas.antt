-- ===== src/Api/Schemas.antt =====
-- internal/api/schema.go, the responses of internal/api/api.go, and internal/api/search.go. The
-- parsing of numbers (strconv) and JSON are parameters; an error of a service becomes the HTTP status
-- that the gateway gives it, which is left out.
pub mod Lineage
use stencil.Base.{
  ℕ, String, List, [], ◌∷◌, map, length, ◌%◌, ◌^◌, Bool, Option, none, some, ltb, str_eq,
  if◌then◌else◌,
}
use stencil.Base.Sprintf.{sprintf}
use stencil.Base.Outcome.{Outcome, ok, err}
use stencil.Descriptors.{FileDescriptorSet}
use stencil.Formats.Parsed.{Libraries}
use stencil.Lineage.Compute.{
  LineageError, LineageResponse, direction_both, normalize_lineage_direction,
}
use stencil.Search.{SearchRequest, SearchHits, SearchErr, search}
use stencil.Service.{
  ServiceErr, SchemaInfo, Cache, get_schema, get_latest, create_schema, check_compatibility,
}
use stencil.Service.Calls.{
  GetLineageErr, get_lineage, delete_schema, delete_schema_version, get_schema_metadata,
  update_schema_metadata, list_schemas, list_schema_versions,
}
use stencil.Service.Versions.{ℤ, pos, negsuc}
use stencil.Store.Tables.{StorageErr, SchemaRow, Db}
use stencil.Store.Schemas.{Metadata}
use stencil.Api.{schema_format, schema_compatibility, enum_value, enum_string, success}

pub data HandlerErr (E : Type 0) : Type 0 where
  bad_request : String → HandlerErr E
  refused_direction : LineageError → HandlerErr E
  service_err : E → HandlerErr E

pub record SchemaMessage : Type 0 where
  pub name : String
  pub format : ℕ
  pub compatibility : ℕ
  pub authority : String
  pub source_url : String

unfoldable pub schema_to_proto : SchemaRow → SchemaMessage
schema_to_proto s = record {
  name = s.name;
  format = enum_value schema_format s.format;
  compatibility = enum_value schema_compatibility s.compatibility;
  authority = s.authority;
  source_url = s.source_url;
}

-- The metadata of GetSchemaMetadata's response, as a schema without a name.
unfoldable pub metadata_to_proto : Metadata → SchemaMessage
metadata_to_proto meta = record {
  name = "";
  format = enum_value schema_format meta.format;
  compatibility = enum_value schema_compatibility meta.compatibility;
  authority = meta.authority;
  source_url = meta.source_url;
}

unfoldable pub handle_list_schemas : Db → String → List SchemaMessage
unfolding schema_to_proto
handle_list_schemas db id = map schema_to_proto (list_schemas db id)

unfoldable pub handle_list_versions : Db → String → String → List ℕ
handle_list_versions db ns name = list_schema_versions db ns name

unfoldable pub handle_get_schema_metadata : Db → String → String → Outcome StorageErr SchemaMessage
unfolding metadata_to_proto
handle_get_schema_metadata db ns name = elim (get_schema_metadata db ns name) [
  | ok meta ↦ ok (metadata_to_proto meta)
  | err e ↦ err e
]

-- Only the compatibility is sent on, and the response has no source URL.
unfoldable pub handle_update_schema_metadata :
    (ℕ → String) → Db → String → String → ℕ → Outcome StorageErr SchemaMessage × Db
unfolding metadata_to_proto
handle_update_schema_metadata decimal db ns name compatibility =
    let (updated, db') = update_schema_metadata db ns name (record {
      authority = "";
      format = "";
      compatibility = enum_string decimal schema_compatibility compatibility;
      source_url = "";
    }) in
    elim updated [
      | ok meta ↦ (ok (record (metadata_to_proto meta) { source_url = "" }), db')
      | err e ↦ (err e, db')
    ]

unfoldable pub handle_delete_schema : Db → String → String → String × Db
handle_delete_schema db ns name = (success, delete_schema db ns name)

unfoldable pub handle_delete_version : Db → String → String → ℕ → String × Db
handle_delete_version db ns name version = (success, delete_schema_version db ns name version)

-- The headers and the body that handleSchemaResponse writes.
pub record SchemaResponse : Type 0 where
  pub content_type : String
  pub content_length : ℕ
  pub body : List ℕ

unfoldable pub schema_response : Metadata → List ℕ → SchemaResponse
schema_response meta content = record {
  content_type =
      if str_eq meta.format "FORMAT_PROTOBUF"
      then "application/octet-stream"
      else "application/json";
  content_length = length content;
  body = content;
}

unfoldable pub handle_schema_response :
    {E S : Type 0} → Outcome E (Metadata × List ℕ) × S → Outcome E SchemaResponse × S
unfolding schema_response
handle_schema_response (ok (meta, content), s) = (ok (schema_response meta content), s)
handle_schema_response (err e, s) = (err e, s)

unfoldable pub only_data :
    {E S : Type 0} → Outcome E (Metadata × List ℕ) × S → Outcome E (List ℕ) × S
only_data (ok (_, content), s) = (ok content, s)
only_data (err e, s) = (err e, s)

-- Search
unfoldable pub hit_path : (ℕ → String) → SearchHits → String
hit_path decimal hit = sprintf (
    "/v1beta1/namespaces/"
    ∷ hit.namespace_id
    ∷ "/schemas/"
    ∷ hit.schema_id
    ∷ "/versions/"
    ∷ decimal hit.version_id
    ∷ [])

-- The hits with their paths, and their number, below 2 ^ 32.
unfoldable pub handle_search :
    (ℕ → String)
    → (String → Option (String → Bool))
    → Db
    → SearchRequest
    → Outcome SearchErr (List (SearchHits × String) × ℕ)
unfolding hit_path
handle_search decimal like_regex db request = elim (search like_regex db request) [
  | err e ↦ err e
  | ok hits ↦ ok (map (λ hit. (hit, hit_path decimal hit)) hits, length hits % 2 ^ 32)
]

-- A level that is no positive number is 10.
unfoldable pub positive_level : Option ℤ → ℕ
positive_level none = 10
positive_level (some (negsuc _)) = 10
positive_level (some (pos parsed)) = if ltb 0 parsed then parsed else 10

unfoldable pub query_level : (String → Option ℤ) → String → ℕ
unfolding positive_level
query_level atoi d = if str_eq d "" then 10 else positive_level (atoi d)

unfoldable pub query_direction : String → String
query_direction direction = if str_eq direction "" then direction_both else direction

module _ (L : Libraries) (C : Cache) (decimal : ℕ → String) (text_bytes : String → List ℕ) where
  abbrev Created : Type 0
  Created = Outcome ServiceErr SchemaInfo × Db × C.State

  unfoldable pub handle_create_schema :
      Db → C.State → String → String → ℕ → ℕ → String → List ℕ → String → Created
  handle_create_schema db cache ns name format compatibility source_url content commit_sha =
      create_schema L C decimal text_bytes db cache ns name
        (record {
          authority = "";
          format = enum_string decimal schema_format format;
          compatibility = enum_string decimal schema_compatibility compatibility;
          source_url = source_url;
        })
        content commit_sha

  -- HTTPUpload: the metadata are the request's headers.
  unfoldable pub http_upload : Db → C.State → String → String → Metadata → List ℕ → String → Created
  http_upload db cache ns name headers content commit_sha =
      create_schema L C decimal text_bytes db cache ns name (record headers { authority = "" })
        content commit_sha

  unfoldable pub handle_check_compatibility :
      Db → C.State → String → String → ℕ → List ℕ → Option ServiceErr × C.State
  handle_check_compatibility db cache ns name compatibility content =
      check_compatibility L C decimal text_bytes db cache ns name
        (enum_string decimal schema_compatibility compatibility) content

  unfoldable pub http_check_compatibility :
      Db → C.State → String → String → String → List ℕ → Option ServiceErr × C.State
  http_check_compatibility db cache ns name compatibility content =
      check_compatibility L C decimal text_bytes db cache ns name compatibility content

  -- GetLatestSchema and GetSchema return the data alone.
  unfoldable pub handle_get_latest_schema :
      Db → C.State → String → String → Outcome ServiceErr (List ℕ) × C.State
  unfolding only_data
  handle_get_latest_schema db cache ns name =
      only_data (get_latest L C decimal text_bytes db cache ns name)

  unfoldable pub handle_get_schema :
      Db → C.State → String → String → ℕ → Outcome ServiceErr (List ℕ) × C.State
  unfolding only_data
  handle_get_schema db cache ns name version =
      only_data (get_schema L C decimal text_bytes db cache ns name version)

  unfoldable pub http_latest_schema :
      Db → C.State → String → String → Outcome ServiceErr SchemaResponse × C.State
  unfolding handle_schema_response
  http_latest_schema db cache ns name =
      handle_schema_response (get_latest L C decimal text_bytes db cache ns name)

  -- HTTPGetSchema, for a version that is a number of 32 bits and not negative.
  unfoldable pub http_get_schema :
      (String → Option ℕ)
      → Db
      → C.State
      → String
      → String
      → String
      → Outcome (HandlerErr ServiceErr) SchemaResponse × C.State
  unfolding handle_schema_response
  http_get_schema parse_version db cache ns name version = elim (parse_version version) [
    | none ↦ (err (bad_request "invalid version number"), cache)
    | some v ↦
        let (found, cache') =
          handle_schema_response (get_schema L C decimal text_bytes db cache ns name v) in
        elim found [ ok response ↦ (ok response, cache') | err e ↦ (err (service_err e), cache') ]
  ]

  module _ (unmarshal : List ℕ → Outcome String FileDescriptorSet)
      (range : List String → List String) (atoi : String → Option ℤ) where
    unfoldable pub handle_get_lineage :
        Db
        → C.State
        → String
        → String
        → String
        → String
        → String
        → Outcome (HandlerErr GetLineageErr) LineageResponse × C.State
    unfolding query_level query_direction
    handle_get_lineage db cache ns name root_type level direction =
        if str_eq root_type ""
        then (err (bad_request "missing required path parameter: type_name"), cache)
        else elim (normalize_lineage_direction (query_direction direction))
            as (λ _. Outcome (HandlerErr GetLineageErr) LineageResponse × C.State) [
              | err e ↦ (err (refused_direction e), cache)
              | ok _ ↦
                  let (resp, cache') =
                    get_lineage L C decimal text_bytes unmarshal range db cache ns name root_type
                      (query_level atoi level) (query_direction direction) in
                  elim resp [ ok r ↦ (ok r, cache') | err e ↦ (err (service_err e), cache') ]
            ]
