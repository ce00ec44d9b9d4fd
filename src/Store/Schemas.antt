-- ===== src/Store/Schemas.antt =====
-- internal/store/postgres/schema_repository.go.
use stencil.Base.{
  ℕ, suc, ◌+◌, String, List, [], ◌∷◌, map, Bool, false, not, ◌&&◌, any, Option, none, some, str_eq,
  ◌==◌, if◌then◌else◌,
}
use stencil.Base.Outcome.{Outcome, ok, err, ◌>>=◌}
use stencil.Store.Tables.{
  StorageErr, no_rows, unknown, NamespaceRow, SchemaRow, VersionRow, SchemaFileRow, VersionFileRow,
  Db, first, select, max_version,
}

pub record Metadata : Type 0 where
  pub authority : String
  pub format : String
  pub compatibility : String
  pub source_url : String

pub record SchemaFile : Type 0 where
  pub id : String
  pub types : List String
  pub fields : List String
  pub content : List ℕ

pub record UpdateSchemaRequest : Type 0 where
  pub namespace_name : String
  pub schema : String
  pub metadata : Metadata
  pub schema_file : SchemaFile

-- A query for one row: pgx.ErrNoRows if there is none.
unfoldable pub one_row {ℓ} : {A : Type ℓ} → Option A → Outcome StorageErr A
one_row none = err no_rows
one_row (some a) = ok a

abbrev pub is_schema : String → String → SchemaRow → Bool
is_schema ns name s = str_eq s.namespace_id ns && str_eq s.name name

abbrev pub has_namespace : Db → String → Bool
has_namespace db ns = any (λ (n : NamespaceRow). str_eq n.id ns) db.namespaces

-- `select id from schemas …` of one schema.
unfoldable pub find_schema : Db → String → String → Option SchemaRow
find_schema db ns name = first (is_schema ns name) db.schemas

abbrev pub versions_of : Db → ℕ → List VersionRow
versions_of db schema_id = select (λ v. v.schema_id == schema_id) db.versions

-- getSchemaVersionByID
unfoldable pub find_version : Db → String → Option VersionRow
find_version db version_id = first (λ v. str_eq v.id version_id) db.versions

-- schemaInsertQuery: a schema that is there keeps its columns. The namespace is a foreign key.
unfoldable pub insert_schema : Db → String → String → Metadata → Outcome StorageErr (ℕ × Db)
unfolding find_schema
insert_schema db ns name meta = elim (find_schema db ns name) [
  | some s ↦ ok (s.id, record db { next_schema_id = suc db.next_schema_id })
  | none ↦
      if has_namespace db ns
      then ok (
        db.next_schema_id,
        record db {
          schemas =
              record {
                id = db.next_schema_id;
                name = name;
                namespace_id = ns;
                authority = "";
                format = meta.format;
                compatibility = meta.compatibility;
                source_url = meta.source_url;
              }
              ∷ db.schemas;
          next_schema_id = suc db.next_schema_id;
        },
      )
      else err unknown
]

-- versionInsertQuery: the next version, its file unless a file of this id is there, and the pair.
unfoldable pub insert_version : Db → ℕ → String → String → SchemaFile → ℕ × Db
insert_version db schema_id version_id commit_sha file =
    let version = max_version (versions_of db schema_id) + 1 in
    (
      version,
      record db {
        versions =
            record {
              id = version_id;
              version = version;
              schema_id = schema_id;
              commit_sha = commit_sha;
            }
            ∷ db.versions;
        schema_files =
            if any (λ (f : SchemaFileRow). str_eq f.id file.id) db.schema_files
            then db.schema_files
            else (record {
              id = file.id;
              types = file.types;
              fields = file.fields;
              content = file.content;
            }
                ∷ db.schema_files);
        versions_schema_files =
            record { version_id = version_id; schema_file_id = file.id } ∷ db.versions_schema_files;
      },
    )

-- An error rolls back all but the sequence.
unfoldable pub create : Db → UpdateSchemaRequest → String → String → Outcome StorageErr ℕ × Db
create db request version_id commit_sha = elim (find_version db version_id) [
  | some v ↦ (ok v.version, db)
  | none ↦ elim (insert_schema db request.namespace_name request.schema request.metadata) [
    | err e ↦ (err e, record db { next_schema_id = suc db.next_schema_id })
    | ok (schema_id, db') ↦
        let (version, db'') =
          insert_version db' schema_id version_id commit_sha request.schema_file in
        (ok version, db'')
  ]
]

-- `ns.id=$1 AND sc.name=$2`, joined with the namespaces.
unfoldable pub joined_schema : Db → String → String → Option SchemaRow
joined_schema db ns name = if has_namespace db ns then find_schema db ns name else none

unfoldable pub get_version_id : Db → String → String → ℕ → Outcome StorageErr String
get_version_id db ns name version = elim (joined_schema db ns name) [
  | none ↦ err no_rows
  | some s ↦ elim (first (λ v. v.version == version) (versions_of db s.id)) [
    | none ↦ err no_rows
    | some v ↦ ok v.id
  ]
]

-- getSchemaDataByVersionID
unfoldable pub get_data : Db → String → Outcome StorageErr (List ℕ)
unfolding find_version
get_data db version_id = elim (find_version db version_id) [
  | none ↦ err no_rows
  | some _ ↦ elim (first (λ m. str_eq m.version_id version_id) db.versions_schema_files) [
    | none ↦ err no_rows
    | some m ↦ elim (first (λ f. str_eq f.id m.schema_file_id) db.schema_files) [
      | none ↦ err no_rows
      | some f ↦ ok f.content
    ]
  ]
]

unfoldable pub get : Db → String → String → ℕ → Outcome StorageErr (List ℕ)
get db ns name version = do version_id ← get_version_id db ns name version; get_data db version_id

-- Of a schema that is not there the latest version is 0.
unfoldable pub get_latest_version : Db → String → String → ℕ
get_latest_version db ns name = elim (joined_schema db ns name) [
  | none ↦ 0
  | some s ↦ max_version (versions_of db s.id)
]

unfoldable pub get_metadata : Db → String → String → Outcome StorageErr Metadata
unfolding one_row
get_metadata db ns name = do
  s ← one_row (find_schema db ns name)
  ok (record {
    authority = s.authority;
    format = s.format;
    compatibility = s.compatibility;
    source_url = s.source_url;
  })

-- The query returns no source_url.
unfoldable pub update_metadata : Db → String → String → Metadata → Outcome StorageErr Metadata × Db
update_metadata db ns name meta = elim (find_schema db ns name) [
  | none ↦ (err no_rows, db)
  | some s ↦ (
    ok (record {
      authority = s.authority;
      format = s.format;
      compatibility = meta.compatibility;
      source_url = "";
    }),
    record db {
      schemas =
          map
            (λ r.
              if is_schema ns name r then record r { compatibility = meta.compatibility } else r)
            db.schemas;
    },
  )
]

unfoldable pub list : Db → String → List SchemaRow
list db ns = select (λ s. str_eq s.namespace_id ns) db.schemas

unfoldable pub list_versions : Db → String → String → List ℕ
list_versions db ns name = elim (find_schema db ns name) [
  | none ↦ []
  | some s ↦ map (λ (v : VersionRow). v.version) (versions_of db s.id)
]

-- A deleted version takes its pairs along, and files without a pair are deleted after that.
unfoldable pub drop_versions : (VersionRow → Bool) → Db → Db
drop_versions dropped db =
    let gone = select dropped db.versions in
    let pairs =
      select (λ (m : VersionFileRow). not (any (λ (v : VersionRow). str_eq v.id m.version_id) gone))
        db.versions_schema_files in
    record db {
      versions = select (λ v. not (dropped v)) db.versions;
      versions_schema_files = pairs;
      schema_files =
          select
            (λ (f : SchemaFileRow).
              any (λ (m : VersionFileRow). str_eq m.schema_file_id f.id) pairs)
            db.schema_files;
    }

unfoldable pub delete : Db → String → String → Db
delete db ns name =
    let gone = select (is_schema ns name) db.schemas in
    drop_versions (λ v. any (λ (s : SchemaRow). s.id == v.schema_id) gone)
      (record db { schemas = select (λ s. not (is_schema ns name s)) db.schemas })

unfoldable pub delete_version : Db → String → String → ℕ → Db
delete_version db ns name version = elim (find_schema db ns name) [
  | none ↦ drop_versions (λ _. false) db
  | some s ↦ drop_versions (λ v. (v.schema_id == s.id) && (v.version == version)) db
]

unfoldable pub get_schema_id : Db → String → String → Outcome StorageErr ℕ
unfolding one_row
get_schema_id db ns name = do s ← one_row (find_schema db ns name); ok s.id

unfoldable pub get_version_commit_sha : Db → ℕ → ℕ → Outcome StorageErr String
unfolding one_row
get_version_commit_sha db schema_id version = do
  v ← one_row (first (λ v. v.version == version) (versions_of db schema_id))
  ok v.commit_sha
