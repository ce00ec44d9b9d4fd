-- ===== src/Store/Integrity/Dropped.antt =====
-- The calls that delete keep the constraints.
use stencil.Base.{
  ℕ, ◌<◌, String, List, Bool, true, false, not, ◌&&◌, any, All, All-of_mem, All-mem, ◌≡◌, str_eq,
  eq_iff, ◌==◌, Option-cases, inl, inr, arith,
}
use stencil.Store.Tables.{
  NamespaceRow, SchemaRow, VersionRow, SchemaFileRow, VersionFileRow, Db, select,
}
use stencil.Store.Schemas.{
  has_namespace, is_schema, find_schema, drop_versions, delete, delete_version,
}
use stencil.Store.Namespaces.{delete_namespace}
use stencil.Store.Integrity.Pairs.{
  Pairwise, All-select, All-select_if, All-weaken, Pairwise-select, any-select, any-select_rest,
  any_of_mem,
}
use stencil.Store.Integrity.{IsConsistent}

module _ (db : Db) (c : IsConsistent db) (dropped : VersionRow → Bool) where
  abbrev pairs : List VersionFileRow
  pairs =
      select
        (λ (m : VersionFileRow).
          not (any (λ (v : VersionRow). str_eq v.id m.version_id) (select dropped db.versions)))
        db.versions_schema_files

  kept_versions :
      All
        (λ (m : VersionFileRow).
          any
            (λ (v : VersionRow). str_eq v.id m.version_id)
            (select (λ v. not (dropped v)) db.versions)
          ≡ true)
        pairs
  kept_versions = All-select_if _ _ db.versions_schema_files (
      All-weaken _ _ db.versions_schema_files
        (λ (m : VersionFileRow) there stays.
          any-select_rest (λ (v : VersionRow). str_eq v.id m.version_id) dropped db.versions there
            (ground arith))
        c.versions_there)

  kept_files :
      All
        (λ (m : VersionFileRow).
          any
            (λ (f : SchemaFileRow). str_eq f.id m.schema_file_id)
            (select
              (λ (f : SchemaFileRow).
                any (λ (n : VersionFileRow). str_eq n.schema_file_id f.id) pairs)
              db.schema_files)
          ≡ true)
        pairs
  kept_files = All-of_mem _ pairs (λ m i.
      any-select (λ (f : SchemaFileRow). str_eq f.id m.schema_file_id) _ db.schema_files
        (λ f e.
          any_of_mem (λ (n : VersionFileRow). str_eq n.schema_file_id f.id) pairs m i
            (ground (arith, eq_iff f.id m.schema_file_id, eq_iff m.schema_file_id f.id)))
        (All-mem
          (λ (n : VersionFileRow).
            any (λ (f : SchemaFileRow). str_eq f.id n.schema_file_id) db.schema_files ≡ true)
          pairs (All-select _ _ db.versions_schema_files c.files_there) m i))

  -- With fewer namespaces and schemas, as long as each version that stays has its schema.
  module _ (namespaces : List NamespaceRow) (schemas : List SchemaRow) where
    abbrev fewer : Db
    fewer = record db { namespaces = namespaces; schemas = schemas }

    drop-IsConsistent :
        Pairwise (λ (a b : NamespaceRow). str_eq a.id b.id ≡ false) namespaces
        → Pairwise (λ (a b : SchemaRow). (a.id == b.id) ≡ false) schemas
        → Pairwise
            (λ (a b : SchemaRow).
              (str_eq a.namespace_id b.namespace_id && str_eq a.name b.name) ≡ false)
            schemas
        → All (λ (s : SchemaRow). has_namespace fewer s.namespace_id ≡ true) schemas
        → All (λ (s : SchemaRow). s.id < db.next_schema_id) schemas
        → All
            (λ (v : VersionRow).
              not (dropped v) ≡ true → any (λ (s : SchemaRow). s.id == v.schema_id) schemas ≡ true)
            db.versions
        → IsConsistent (drop_versions dropped fewer)
    unfolding drop_versions
    drop-IsConsistent ids schema_ids names homes known there = record {
      namespace_ids = ids;
      schema_ids = schema_ids;
      schema_names = names;
      version_ids = Pairwise-select _ _ db.versions c.version_ids;
      version_numbers = Pairwise-select _ _ db.versions c.version_numbers;
      file_ids = Pairwise-select _ _ db.schema_files c.file_ids;
      homes = homes;
      schemas_there = All-select_if _ _ db.versions there;
      versions_there = kept_versions;
      files_there = kept_files;
      numbered = All-select _ _ db.versions c.numbered;
      known = known;
    }

-- Schemas that go take their versions along.
module _ (db : Db) (c : IsConsistent db) (gone : SchemaRow → Bool) where
  abbrev of_gone : VersionRow → Bool
  of_gone v = any (λ (s : SchemaRow). s.id == v.schema_id) (select gone db.schemas)

  there_after :
      All
        (λ (v : VersionRow).
          not (of_gone v) ≡ true
          → any (λ (s : SchemaRow). s.id == v.schema_id) (select (λ s. not (gone s)) db.schemas)
            ≡ true)
        db.versions
  there_after =
      All-weaken _ _ db.versions
        (λ (v : VersionRow) there stays.
          any-select_rest (λ (s : SchemaRow). s.id == v.schema_id) gone db.schemas there
            (ground arith))
        c.schemas_there

  pub without-IsConsistent :
      (namespaces : List NamespaceRow)
      → Pairwise (λ (a b : NamespaceRow). str_eq a.id b.id ≡ false) namespaces
      → All
          (λ (s : SchemaRow).
            not (gone s) ≡ true
            → any (λ (n : NamespaceRow). str_eq n.id s.namespace_id) namespaces ≡ true)
          db.schemas
      → IsConsistent (
          drop_versions of_gone (record db {
            namespaces = namespaces;
            schemas = select (λ s. not (gone s)) db.schemas;
          }))
  without-IsConsistent namespaces ids homes =
      drop-IsConsistent db c of_gone namespaces (select (λ s. not (gone s)) db.schemas) ids
        (Pairwise-select _ _ db.schemas c.schema_ids)
        (Pairwise-select _ _ db.schemas c.schema_names) (All-select_if _ _ db.schemas homes)
        (All-select _ _ db.schemas c.known) there_after

module _ (db : Db) (c : IsConsistent db) where
  pub delete-IsConsistent : (ns name : String) → IsConsistent (delete db ns name)
  unfolding delete
  delete-IsConsistent ns name =
      without-IsConsistent db c (is_schema ns name) db.namespaces c.namespace_ids
        (All-weaken _ _ db.schemas (λ s home _. home) c.homes)

  pub delete_version-IsConsistent :
      (ns name : String) (version : ℕ) → IsConsistent (delete_version db ns name version)
  unfolding delete_version
  delete_version-IsConsistent ns name version = elim (Option-cases (find_schema db ns name)) [
    | inl e ↦ rw (e, delete_version) (drop (λ _. false))
    | inr (s, e) ↦
        rw (e, delete_version) (drop (λ v. (v.schema_id == s.id) && (v.version == version)))
  ]
    where
      drop : (dropped : VersionRow → Bool) → IsConsistent (drop_versions dropped db)
      drop dropped =
          drop-IsConsistent db c dropped db.namespaces db.schemas c.namespace_ids c.schema_ids
            c.schema_names c.homes c.known
            (All-weaken _ _ db.versions (λ v there _. there) c.schemas_there)

  pub delete_namespace-IsConsistent : (id : String) → IsConsistent (delete_namespace db id)
  unfolding delete_namespace
  delete_namespace-IsConsistent id =
      without-IsConsistent db c (λ s. str_eq s.namespace_id id)
        (select (λ (n : NamespaceRow). not (str_eq n.id id)) db.namespaces)
        (Pairwise-select _ _ db.namespaces c.namespace_ids)
        (All-weaken _ _ db.schemas
          (λ (s : SchemaRow) home stays.
            any-select (λ (n : NamespaceRow). str_eq n.id s.namespace_id) _ db.namespaces
              (λ n e.
                ground
                  (arith, eq_iff n.id s.namespace_id, eq_iff n.id id, eq_iff s.namespace_id id))
              home)
          c.homes)
