-- ===== src/Service.antt =====
-- core/schema/service.go: reading a schema through the cache, the compatibility check, and Create.
-- The cache (ristretto), `%d` and the formats' libraries are parameters. Left out: segments, logs,
-- and the change detection that Create starts in the background after its last change.
pub mod Checker
pub mod Guard
pub mod Keys
pub mod Versions
pub mod Calls
pub mod Notify
pub mod Detect
pub mod Cached
use stencil.Base.{ℕ, String, List, [], ◌∷◌, Option, none, some, str_eq, if◌then◌else◌}
use stencil.Base.Sprintf.{sprintf}
use stencil.Base.Outcome.{Outcome, ok, err}
use stencil.Formats.Parsed.Errors.{Bytes, Error, Result, ok as parsed, err as refused}
use stencil.Formats.Parsed.{Libraries, ParsedSchema, parse_schema, get_canonical_value}
use stencil.Service.Checker.{get_compatibility_checker, get_non_empty}
use stencil.Store.Tables.{StorageErr, no_rows, NamespaceRow, Db}
use stencil.Store.Schemas.{Metadata, UpdateSchemaRequest, get_metadata, get_latest_version}
use stencil.Store.Schemas.{get as repo_get, create as repo_create}
use stencil.Store.Namespaces.{get_namespace}

-- An error of a repository, or one of a format.
pub data ServiceErr : Type 0 where
  storage : StorageErr → ServiceErr
  invalid : Error → ServiceErr

pub record Cache : Type 1 where
  pub State : Type 0
  pub lookup : State → String → Option Bytes
  pub set : State → String → Bytes → State

pub record SchemaInfo : Type 0 where
  pub id : String
  pub version : ℕ
  pub location : String

module _ (L : Libraries) (C : Cache) (decimal : ℕ → String) (text_bytes : String → Bytes) where
  abbrev pub Reply : Type 0 → Type 0
  Reply A = Outcome ServiceErr A × C.State

  unfoldable pub schema_key_func : String → String → ℕ → String
  schema_key_func ns name version = sprintf (ns ∷ "-" ∷ name ∷ "-" ∷ decimal version ∷ [])

  unfoldable pub get_id_for_schema : String → String → String → String
  get_id_for_schema ns name data_uuid =
      L.new_sha1 (text_bytes (sprintf (ns ∷ "-" ∷ name ∷ "-" ∷ data_uuid ∷ [])))

  unfoldable pub cached_get_schema : Db → C.State → String → String → ℕ → Reply Bytes
  unfolding schema_key_func
  cached_get_schema db cache ns name version =
      let key = schema_key_func ns name version in
      elim (C.lookup cache key) [
        | some val ↦ (ok val, cache)
        | none ↦ elim (repo_get db ns name version) [
          | err e ↦ (err (storage e), cache)
          | ok found ↦ (ok found, C.set cache key found)
        ]
      ]

  -- Get, by withMetadata
  unfoldable pub get_schema : Db → C.State → String → String → ℕ → Reply (Metadata × Bytes)
  unfolding cached_get_schema
  get_schema db cache ns name version = elim (get_metadata db ns name) [
    | err e ↦ (err (storage e), cache)
    | ok meta ↦
        let (content, cache') = cached_get_schema db cache ns name version in
        elim content [ err e ↦ (err e, cache') | ok found ↦ (ok (meta, found), cache') ]
  ]

  unfoldable pub get_latest : Db → C.State → String → String → Reply (Metadata × Bytes)
  unfolding get_schema
  get_latest db cache ns name = get_schema db cache ns name (get_latest_version db ns name)

  -- The private checkCompatibility, given what GetLatest returned. A schema without versions passes.
  unfoldable pub check_against_latest :
      String → ParsedSchema L.AvroSchema → Outcome ServiceErr (Metadata × Bytes) → Option ServiceErr
  check_against_latest compatibility current (err (storage no_rows)) = none
  check_against_latest compatibility current (err e) = some e
  check_against_latest compatibility current (ok (meta, found)) =
      elim (parse_schema L meta.format found) [
        | refused e ↦ some (invalid e)
        | parsed prev ↦ elim (get_compatibility_checker L compatibility current (prev ∷ [])) [
          | none ↦ none
          | some e ↦ some (invalid e)
        ]
      ]

  -- CheckCompatibility
  unfoldable pub check_compatibility :
      Db → C.State → String → String → String → Bytes → Option ServiceErr × C.State
  unfolding get_latest check_against_latest
  check_compatibility db cache ns_name name compatibility content =
      elim (get_namespace db ns_name) [
        | err e ↦ (some (storage e), cache)
        | ok ns ↦
            let compatibility' = get_non_empty (compatibility ∷ ns.compatibility ∷ []) in
            elim (parse_schema L ns.format content) [
              | refused e ↦ (some (invalid e), cache)
              | parsed current ↦
                  let (latest, cache') = get_latest db cache ns_name name in
                  (check_against_latest compatibility' current latest, cache')
            ]
      ]

  -- What Create asks of the repository.
  unfoldable pub update_request :
      String → String → Metadata → String → String → ParsedSchema L.AvroSchema → UpdateSchemaRequest
  update_request ns_name name meta format compatibility current =
      let sf = get_canonical_value L current in
      record {
        namespace_name = ns_name;
        schema = name;
        metadata = record {
          authority = "";
          format = format;
          compatibility = compatibility;
          source_url = meta.source_url;
        };
        schema_file = record {
          id = sf.id;
          types = sf.types;
          fields = sf.fields;
          content = sf.content;
        };
      }

  unfoldable pub create_checked :
      Db
      → C.State
      → String
      → String
      → Metadata
      → String
      → String
      → String
      → ParsedSchema L.AvroSchema
      → Outcome ServiceErr SchemaInfo × Db × C.State
  unfolding get_latest update_request get_id_for_schema
  create_checked db cache ns_name name meta commit_sha format compatibility current =
      let request = update_request ns_name name meta format compatibility current in
      let version_id = get_id_for_schema ns_name name request.schema_file.id in
      let (_, cache') = get_latest db cache ns_name name in
      let (created, db') = repo_create db request version_id commit_sha in
      elim created [
        | err e ↦ (err (storage e), db', cache')
        | ok version ↦ (
          ok (record {
            id = version_id;
            version = version;
            location = sprintf (
                "/v1beta1/namespaces/"
                ∷ ns_name
                ∷ "/schemas/"
                ∷ name
                ∷ "/versions/"
                ∷ decimal version
                ∷ []);
          }),
          db',
          cache',
        )
      ]

  -- Create
  unfoldable pub create_schema :
      Db
      → C.State
      → String
      → String
      → Metadata
      → Bytes
      → String
      → Outcome ServiceErr SchemaInfo × Db × C.State
  unfolding create_checked get_latest check_against_latest
  create_schema db cache ns_name name meta content commit_sha = elim (get_namespace db ns_name) [
    | err e ↦ (err (storage e), db, cache)
    | ok ns ↦
        let format = get_non_empty (meta.format ∷ ns.format ∷ []) in
        let compatibility = get_non_empty (meta.compatibility ∷ ns.compatibility ∷ []) in
        elim (parse_schema L format content) [
          | refused e ↦ (err (invalid e), db, cache)
          | parsed current ↦
              let (latest, cache') = get_latest db cache ns_name name in
              elim (check_against_latest compatibility current latest) [
                | some e ↦ (err e, db, cache')
                | none ↦
                    create_checked db cache' ns_name name meta commit_sha format compatibility
                      current
              ]
        ]
  ]
