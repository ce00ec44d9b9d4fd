-- ===== src/Search.antt =====
-- core/search/service.go, core/search/search.go and internal/store/postgres/search_repository.go.
-- The database's like_regex with the flag i is a parameter: the test that a query stands for, or none
-- if the query makes no regular expression, which is an error. A version of a request may be
-- negative; the tables hold none.
pub mod Joins
pub mod Hits
pub mod Answers
pub mod Requests
pub mod Readable
use stencil.Base.{
  ℕ, String, List, [], ◌∷◌, ◌++◌, map, Bool, true, false, not, ◌&&◌, ◌||◌, any, Option, none, some,
  str_eq, ◌==◌, if◌then◌else◌,
}
use stencil.Base.Outcome.{Outcome, ok, err, ◌>>=◌, ◌>>◌, fail_if}
use stencil.Service.Versions.{ℤ, pos, negsuc}
use stencil.Store.Tables.{
  StorageErr, unknown, NamespaceRow, SchemaRow, VersionRow, SchemaFileRow, VersionFileRow, Db,
  select, max_version,
}
use stencil.Store.Schemas.{versions_of}

pub record SearchRequest : Type 0 where
  pub namespace_id : String
  pub schema_id : String
  pub query : String
  pub history : Bool
  pub version_id : ℤ

pub record SearchHits : Type 0 where
  pub fields : List String
  pub types : List String
  pub namespace_id : String
  pub schema_id : String
  pub version_id : ℕ

pub data SearchErr : Type 0 where
  err_empty_query_string : SearchErr
  err_empty_schema_id : SearchErr
  err_empty_namespace_id : SearchErr
  repository_err : StorageErr → SearchErr

-- For each row, the rows that a query joins to it.
unfoldable pub flat_map : {A B : Type 0} → (A → List B) → List A → List B
flat_map f [] = []
flat_map f (x ∷ xs) = f x ++ flat_map f xs

-- `col = COALESCE(NULLIF(given, ''), col)`
abbrev pub is_given : String → String → Bool
is_given given col = str_eq given "" || str_eq col given

-- The same for a number, with 0.
unfoldable pub is_given_version : ℤ → ℕ → Bool
is_given_version (pos n) version = (n == 0) || (version == n)
is_given_version (negsuc n) version = false

-- The WITH part of searchLatestQuery: a schema with a version, and its greatest version.
pub record LatestVersion : Type 0 where
  pub namespace_id : String
  pub schema_id : ℕ
  pub version_id : ℕ

-- A schema without versions has no row in the join, and so no group.
unfoldable pub schema_group : Db → SchemaRow → NamespaceRow → List LatestVersion
schema_group db s ns = elim (versions_of db s.id) [
  | [] ↦ []
  | v ∷ vs ↦
      record { namespace_id = ns.id; schema_id = s.id; version_id = max_version (v ∷ vs) } ∷ []
]

unfoldable pub latest_versions : Db → String → String → List LatestVersion
unfolding schema_group flat_map
latest_versions db namespace_id schema_id =
    flat_map
      (λ (s : SchemaRow). flat_map (schema_group db s) (
        select
          (λ (ns : NamespaceRow).
            str_eq ns.id s.namespace_id
            && (is_given namespace_id ns.id && is_given schema_id s.name))
          db.namespaces))
      db.schemas

-- The file and the version of each pair.
unfoldable pub stored_files : {B : Type 0} → Db → (SchemaFileRow → VersionRow → List B) → List B
unfolding flat_map
stored_files db use_row =
    flat_map
      (λ (m : VersionFileRow).
        flat_map
          (λ (sf : SchemaFileRow).
            flat_map (use_row sf)
              (select (λ (v : VersionRow). str_eq v.id m.version_id) db.versions))
          (select (λ (sf : SchemaFileRow). str_eq sf.id m.schema_file_id) db.schema_files))
      db.versions_schema_files

-- A hit, if a field or a type matches.
unfoldable pub hit_of : (String → Bool) → SchemaFileRow → String → String → ℕ → List SearchHits
hit_of matches sf namespace_id schema_id version_id =
    if any matches sf.fields || any matches sf.types
    then record {
      fields = select matches sf.fields;
      types = select matches sf.types;
      namespace_id = namespace_id;
      schema_id = schema_id;
      version_id = version_id;
    }
      ∷ []
    else []

-- searchAllQuery, for the rows of one file and version.
unfoldable pub all_rows :
    Db → (String → Bool) → SearchRequest → SchemaFileRow → VersionRow → List SearchHits
unfolding flat_map hit_of is_given_version
all_rows db matches req sf v =
    flat_map
      (λ (s : SchemaRow).
        flat_map (λ (ns : NamespaceRow). hit_of matches sf ns.id s.name v.version)
          (select
            (λ (ns : NamespaceRow).
              str_eq s.namespace_id ns.id
              && (is_given req.namespace_id ns.id
                  && (is_given req.schema_id s.name && is_given_version req.version_id v.version)))
            db.namespaces))
      (select (λ (s : SchemaRow). s.id == v.schema_id) db.schemas)

-- searchLatestQuery, for the rows of one file and version.
unfoldable pub latest_rows :
    Db → (String → Bool) → SearchRequest → SchemaFileRow → VersionRow → List SearchHits
unfolding flat_map hit_of latest_versions
latest_rows db matches req sf v =
    flat_map
      (λ (lv : LatestVersion).
        flat_map (λ (s : SchemaRow). hit_of matches sf lv.namespace_id s.name lv.version_id)
          (select (λ (s : SchemaRow). s.id == lv.schema_id) db.schemas))
      (select
        (λ (lv : LatestVersion). (v.schema_id == lv.schema_id) && (v.version == lv.version_id))
        (latest_versions db req.namespace_id req.schema_id))

abbrev pub repository_result :
    Outcome StorageErr (List SearchHits) → Outcome SearchErr (List SearchHits)
repository_result (ok hits) = ok hits
repository_result (err e) = err (repository_err e)

abbrev pub is_positive : ℤ → Bool
is_positive (pos n) = not (n == 0)
is_positive (negsuc n) = false

abbrev pub is_zero : ℤ → Bool
is_zero (pos n) = n == 0
is_zero (negsuc n) = false

module _ (like_regex : String → Option (String → Bool)) where
  unfoldable pub search_all : Db → SearchRequest → Outcome StorageErr (List SearchHits)
  unfolding stored_files all_rows
  search_all db req = elim (like_regex req.query) [
    | none ↦ err unknown
    | some matches ↦ ok (stored_files db (all_rows db matches req))
  ]

  unfoldable pub search_latest : Db → SearchRequest → Outcome StorageErr (List SearchHits)
  unfolding stored_files latest_rows
  search_latest db req = elim (like_regex req.query) [
    | none ↦ err unknown
    | some matches ↦ ok (stored_files db (latest_rows db matches req))
  ]

  -- Search of the service
  unfoldable pub search : Db → SearchRequest → Outcome SearchErr (List SearchHits)
  unfolding search_all search_latest
  search db req =
      if str_eq req.query ""
      then err err_empty_query_string
      else if not (str_eq req.schema_id "") && str_eq req.namespace_id ""
      then err err_empty_namespace_id
      else if is_zero req.version_id && not req.history
      then repository_result (search_latest db req)
      else if is_positive req.version_id && str_eq req.schema_id ""
      then err err_empty_schema_id
      else repository_result (search_all db req)
