-- ===== src/Store/Tables.antt =====
-- The tables of internal/store/postgres/migrations, and the errors of internal/store/errors.go.
-- The columns of times and those that no query reads are left out. A sequence that gives ids goes on
-- also when its transaction is rolled back.
use stencil.Base.{ℕ, String, List, [], ◌∷◌, Bool, Option, none, some, if◌then◌else◌, ltb}

-- ErrNoRows, a violated unique constraint (23505), or another error of the database.
pub data StorageErr : Type 0 where
  no_rows : StorageErr
  conflict : StorageErr
  unknown : StorageErr

pub record NamespaceRow : Type 0 where
  pub id : String
  pub format : String
  pub compatibility : String
  pub description : String

pub record SchemaRow : Type 0 where
  pub id : ℕ
  pub name : String
  pub namespace_id : String
  pub authority : String
  pub format : String
  pub compatibility : String
  pub source_url : String

pub record VersionRow : Type 0 where
  pub id : String
  pub version : ℕ
  pub schema_id : ℕ
  pub commit_sha : String

pub record SchemaFileRow : Type 0 where
  pub id : String
  pub types : List String
  pub fields : List String
  pub content : List ℕ

pub record VersionFileRow : Type 0 where
  pub version_id : String
  pub schema_file_id : String

pub record Db : Type 0 where
  pub namespaces : List NamespaceRow
  pub schemas : List SchemaRow
  pub versions : List VersionRow
  pub schema_files : List SchemaFileRow
  pub versions_schema_files : List VersionFileRow
  pub next_schema_id : ℕ

-- The first row that a condition selects, and all of them.
module _ {ℓ} {A : Type ℓ} where
  unfoldable pub first : (A → Bool) → List A → Option A
  first p [] = none
  first p (x ∷ xs) = let rest = first p xs in if p x then some x else rest

  unfoldable pub select : (A → Bool) → List A → List A
  select p [] = []
  select p (x ∷ xs) = let rest = select p xs in if p x then x ∷ rest else rest

-- COALESCE(MAX(version), 0)
unfoldable pub max_version : List VersionRow → ℕ
max_version [] = 0
max_version (v ∷ vs) = let m = max_version vs in if ltb m v.version then v.version else m
