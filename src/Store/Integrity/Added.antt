-- ===== src/Store/Integrity/Added.antt =====
-- The calls that add or change rows keep the constraints.
use stencil.Base.{
  String, ◌≡◌, str_eq, eq_iff, ◌==◌, Bool-cases, Option-cases, inl, inr, arith, if◌then◌else◌,
}
use stencil.Store.Tables.{NamespaceRow, SchemaRow, VersionRow, Db}
use stencil.Store.Schemas.{Metadata, has_namespace, is_schema, find_schema, update_metadata}
use stencil.Store.Namespaces.{create_namespace, update_namespace}
use stencil.Store.Integrity.Pairs.{All-map, All-weaken, Pairwise-map, any-map, All-of_any-false}
use stencil.Store.Integrity.{IsConsistent}

module _ (db : Db) (c : IsConsistent db) where
  pub create_namespace-IsConsistent : (ns : NamespaceRow) → IsConsistent (create_namespace db ns).1
  unfolding create_namespace
  create_namespace-IsConsistent ns = elim (Bool-cases (has_namespace db ns.id)) [
    | inl e ↦ rw (e, create_namespace) c
    | inr e ↦
        rw (e, create_namespace)
          (record {
            namespace_ids = (
              All-weaken _ _ db.namespaces
                  (λ (n : NamespaceRow) h. ground (arith, h, eq_iff n.id ns.id, eq_iff ns.id n.id))
                  (All-of_any-false (λ (n : NamespaceRow). str_eq n.id ns.id) db.namespaces e),
              c.namespace_ids,
            );
            schema_ids = c.schema_ids;
            schema_names = c.schema_names;
            version_ids = c.version_ids;
            version_numbers = c.version_numbers;
            file_ids = c.file_ids;
            homes = All-weaken _ _ db.schemas (λ (s : SchemaRow) h. ground (arith, h)) c.homes;
            schemas_there = c.schemas_there;
            versions_there = c.versions_there;
            files_there = c.files_there;
            numbered = c.numbered;
            known = c.known;
          })
  ]

  same_id : (ns n : NamespaceRow) → (if str_eq n.id ns.id then ns else n).id ≡ n.id
  same_id ns n = ground (arith, eq_iff n.id ns.id)

  pub update_namespace-IsConsistent : (ns : NamespaceRow) → IsConsistent (update_namespace db ns).1
  unfolding update_namespace
  update_namespace-IsConsistent ns = elim (Bool-cases (has_namespace db ns.id)) [
    | inr e ↦ rw (e, update_namespace) c
    | inl e ↦
        rw (e, update_namespace)
          (record {
            namespace_ids =
                Pairwise-map _ _ db.namespaces
                  (λ (a b : NamespaceRow) h. rw (same_id ns a, same_id ns b) h) c.namespace_ids;
            schema_ids = c.schema_ids;
            schema_names = c.schema_names;
            version_ids = c.version_ids;
            version_numbers = c.version_numbers;
            file_ids = c.file_ids;
            homes =
                All-weaken _ _ db.schemas
                  (λ (s : SchemaRow) h.
                    any-map (λ (n : NamespaceRow). str_eq n.id s.namespace_id) _ db.namespaces
                      (λ (n : NamespaceRow) k. rw (same_id ns n) k) h)
                  c.homes;
            schemas_there = c.schemas_there;
            versions_there = c.versions_there;
            files_there = c.files_there;
            numbered = c.numbered;
            known = c.known;
          })
  ]

  module _ (ns name : String) (meta : Metadata) where
    abbrev changed : SchemaRow → SchemaRow
    changed r = if is_schema ns name r then record r { compatibility = meta.compatibility } else r

    changed_id : (r : SchemaRow) → (changed r).id ≡ r.id
    changed_id r = ground arith

    changed_home : (r : SchemaRow) → (changed r).namespace_id ≡ r.namespace_id
    changed_home r = ground arith

    changed_name : (r : SchemaRow) → (changed r).name ≡ r.name
    changed_name r = ground arith

    pub update_metadata-IsConsistent : IsConsistent (update_metadata db ns name meta).1
    unfolding update_metadata
    update_metadata-IsConsistent = elim (Option-cases (find_schema db ns name)) [
      | inl e ↦ rw (e, update_metadata) c
      | inr (s, e) ↦
          rw (e, update_metadata)
            (record {
              namespace_ids = c.namespace_ids;
              schema_ids =
                  Pairwise-map _ _ db.schemas
                    (λ (a b : SchemaRow) h. rw (changed_id a, changed_id b) h) c.schema_ids;
              schema_names =
                  Pairwise-map _ _ db.schemas
                    (λ (a b : SchemaRow) h.
                      rw (changed_home a, changed_home b, changed_name a, changed_name b) h)
                    c.schema_names;
              version_ids = c.version_ids;
              version_numbers = c.version_numbers;
              file_ids = c.file_ids;
              homes = All-map _ _ db.schemas (λ (r : SchemaRow) h. rw (changed_home r) h) c.homes;
              schemas_there =
                  All-weaken _ _ db.versions
                    (λ (v : VersionRow) h.
                      any-map (λ (r : SchemaRow). r.id == v.schema_id) _ db.schemas
                        (λ (r : SchemaRow) k. rw (changed_id r) k) h)
                    c.schemas_there;
              versions_there = c.versions_there;
              files_there = c.files_there;
              numbered = c.numbered;
              known = All-map _ _ db.schemas (λ (r : SchemaRow) h. rw (changed_id r) h) c.known;
            })
    ]
