-- ===== src/Store/Integrity.antt =====
-- The constraints of internal/store/postgres/migrations, and the calls of the repositories as steps
-- from one state of the tables to the next.
pub mod Pairs
pub mod Dropped
pub mod Added
pub mod Created
pub mod Reached
use stencil.Base.{
  ℕ, ◌≤◌, ◌<◌, String, List, Bool, true, false, any, All, ◌≡◌, ◌≢◌, str_eq, ◌==◌, ◌&&◌,
}
use stencil.Store.Tables.{NamespaceRow, SchemaRow, VersionRow, SchemaFileRow, VersionFileRow, Db}
use stencil.Store.Integrity.Pairs.{Pairwise}
use stencil.Store.Schemas.{
  Metadata, UpdateSchemaRequest, has_namespace, create, update_metadata, delete, delete_version,
}
use stencil.Store.Namespaces.{create_namespace, update_namespace, delete_namespace}

-- The unique columns, and the columns that name a row of another table.
pub record IsConsistent (db : Db) : Type 0 where
  pub namespace_ids : Pairwise (λ (a b : NamespaceRow). str_eq a.id b.id ≡ false) db.namespaces
  pub schema_ids : Pairwise (λ (a b : SchemaRow). (a.id == b.id) ≡ false) db.schemas
  pub schema_names :
      Pairwise
        (λ (a b : SchemaRow).
          (str_eq a.namespace_id b.namespace_id && str_eq a.name b.name) ≡ false)
        db.schemas
  pub version_ids : Pairwise (λ (a b : VersionRow). str_eq a.id b.id ≡ false) db.versions
  pub version_numbers :
      Pairwise
        (λ (a b : VersionRow). ((a.schema_id == b.schema_id) && (a.version == b.version)) ≡ false)
        db.versions
  pub file_ids : Pairwise (λ (a b : SchemaFileRow). str_eq a.id b.id ≡ false) db.schema_files
  pub homes : All (λ (s : SchemaRow). has_namespace db s.namespace_id ≡ true) db.schemas
  pub schemas_there :
      All
        (λ (v : VersionRow). any (λ (s : SchemaRow). s.id == v.schema_id) db.schemas ≡ true)
        db.versions
  pub versions_there :
      All
        (λ (m : VersionFileRow).
          any (λ (v : VersionRow). str_eq v.id m.version_id) db.versions ≡ true)
        db.versions_schema_files
  pub files_there :
      All
        (λ (m : VersionFileRow).
          any (λ (f : SchemaFileRow). str_eq f.id m.schema_file_id) db.schema_files ≡ true)
        db.versions_schema_files
  pub numbered : All (λ (v : VersionRow). 1 ≤ v.version) db.versions
  pub known : All (λ (s : SchemaRow). s.id < db.next_schema_id) db.schemas

-- A call that changes the tables, with its arguments.
pub data Call : Type 0 where
  create_namespace_call : NamespaceRow → Call
  update_namespace_call : NamespaceRow → Call
  delete_namespace_call : String → Call
  create_call : UpdateSchemaRequest → String → String → Call
  update_metadata_call : String → String → Metadata → Call
  delete_call : String → String → Call
  delete_version_call : String → String → ℕ → Call

-- The tables after a call, whatever it returns.
unfoldable pub after : Db → Call → Db
after db (create_namespace_call ns) = (create_namespace db ns).1
after db (update_namespace_call ns) = (update_namespace db ns).1
after db (delete_namespace_call id) = delete_namespace db id
after db (create_call request version_id commit_sha) = (create db request version_id commit_sha).1
after db (update_metadata_call ns name meta) = (update_metadata db ns name meta).1
after db (delete_call ns name) = delete db ns name
after db (delete_version_call ns name version) = delete_version db ns name version
