-- ===== src/Store/Create/Branches.antt =====
-- When SchemaRepository.Create fails, and what it leaves behind on each of its ways.
use stencil.Base.{
  suc, String, true, false, none, some, ◌≡◌, ◌≢◌, ◌⊎◌, Bool-cases, Option-cases, sym, ap, ◌∙◌, inl,
  inr,
}
use stencil.Base.Outcome.{ok, err}
use stencil.Store.Tables.{unknown, VersionRow, Db}
use stencil.Store.Schemas.{
  UpdateSchemaRequest, has_namespace, find_schema, find_version, insert_schema, insert_version,
  create,
}
use stencil.Store.Inserted.{IsWellFormed, insert_schema-Inserted, has_home}
use stencil.Store.Create.{
  insert_total, created-IsWellFormed, create_new, create_failed, create_old, found-inserted,
}

module _ (db : Db) (request : UpdateSchemaRequest) (version_id commit_sha : String) where
  homeless :
      IsWellFormed db
      → has_namespace db request.namespace_name ≡ false
      → insert_schema db request.namespace_name request.schema request.metadata ≡ err unknown
  unfolding insert_schema
  homeless wf away = elim (Option-cases (find_schema db request.namespace_name request.schema)) [
    | inr (s, found) ↦
        let home = has_home db request.namespace_name request.schema request.metadata wf s found in
        absurd (cc (home, away))
    | inl missing ↦ rw (missing, insert_schema) (rw (away, insert_schema))
  ]

  -- `Create` in well-formed tables, on each of its ways. It fails exactly if the version id is new and
  -- the namespace is not there, and then the tables stay as they were, but for the next id of a
  -- schema. Otherwise the version that it returns is the one that is stored under the version id
  -- afterwards, and the tables stay well formed.
  pub create_outcome :
      IsWellFormed db
      → ((find_version db version_id ≡ none)
          × (has_namespace db request.namespace_name ≡ false)
          × (create db request version_id commit_sha
              ≡ (err unknown, record db { next_schema_id = suc db.next_schema_id })))
        ⊎ (((find_version db version_id ≢ none) ⊎ (has_namespace db request.namespace_name ≡ true))
            × ((v : VersionRow) × (db' : Db) × (create db request version_id commit_sha
                  ≡ (ok v.version, db'))
                × (find_version db' version_id ≡ some v)
                × IsWellFormed db'))
  create_outcome wf = elim (Option-cases (find_version db version_id)) [
    | inr (v, found) ↦ inr (
      inl (λ e. absurd (cc (e, found))),
      (v, db, create_old db request version_id commit_sha v found, found, wf),
    )
    | inl missing ↦ elim (Bool-cases (has_namespace db request.namespace_name)) [
      | inr away ↦ inl (
        missing,
        away,
        create_failed db request version_id commit_sha missing unknown (homeless wf away),
      )
      | inl home ↦
          let ((schema_id, db1), e) = insert_total db request version_id commit_sha home in
          let h =
            insert_schema-Inserted db request.namespace_name request.schema request.metadata wf
              schema_id db1 e in
          let last = insert_version db1 schema_id version_id commit_sha request.schema_file in
          let (v, found, same) =
            found-inserted db1 schema_id version_id commit_sha request.schema_file in
          inr (
            inr home,
            (
              v,
              last.1,
              create_new db request version_id commit_sha missing schema_id db1 e
                  ∙ ap (λ n. (ok n, last.1)) (sym same),
              found,
              created-IsWellFormed db request version_id commit_sha schema_id db1 h.well_formed
                  h.given,
            ),
          )
    ]
  ]
