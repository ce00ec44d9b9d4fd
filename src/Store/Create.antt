-- ===== src/Store/Create.antt =====
-- What SchemaRepository.Create does to the tables.
pub mod Branches
use mathlib.Core.Path.{subst}
use stencil.Base.{
  ℕ, suc, ◌+◌, ◌<◌, String, true, none, some, ◌≡◌, refl, sym, ap, ◌∙◌, str_eq, ◌==◌, Option-cases,
  inl, inr, arith,
}
use stencil.Base.Outcome.{Outcome, ok, err, Outcome-cases}
use stencil.Store.Tables.{
  StorageErr, SchemaRow, VersionRow, SchemaFileRow, Db, first, select, max_version,
}
use stencil.Store.Schemas.{
  SchemaFile, UpdateSchemaRequest, has_namespace, find_schema, versions_of, find_version,
  insert_schema, insert_version, create, joined_schema, get_version_id, get_data, get,
  get_latest_version,
}
use stencil.Store.Rows.{str_eq_refl, first-cons, max-inserted, first-inserted, data-inserted}
use stencil.Store.Inserted.{IsWellFormed, Inserted, insert_schema-Inserted}

err≢ok : {x : StorageErr} {n : ℕ} → ¬ (◌≡◌ {A = Outcome StorageErr ℕ} (err x) (ok n))
err≢ok e = absurd (cc (e))

module _ (db : Db) (ns name : String) (s : SchemaRow) where
  latest_of_joined :
      joined_schema db ns name ≡ some s
      → get_latest_version db ns name ≡ max_version (versions_of db s.id)
  unfolding get_latest_version
  latest_of_joined e = rw (e, get_latest_version)

  get_of_joined :
      (v : VersionRow) (version : ℕ)
      → joined_schema db ns name ≡ some s
      → first (λ (w : VersionRow). w.version == version) (versions_of db s.id) ≡ some v
      → get db ns name version ≡ get_data db v.id
  unfolding get get_version_id
  get_of_joined v version e f = rw (e, get, get_version_id) (rw f)

-- The version that a fresh `Create` makes, and what can be read after it.
pub record IsCreated (db db' : Db) (request : UpdateSchemaRequest) (version : ℕ) : Type 0 where
  pub next : version ≡ get_latest_version db request.namespace_name request.schema + 1
  pub latest : get_latest_version db' request.namespace_name request.schema ≡ version
  pub stored :
      get db' request.namespace_name request.schema version ≡ ok request.schema_file.content

-- The id of a file decides its bytes: a file that is stored under this id holds the same.
abbrev pub IsSameContent : Db → SchemaFile → Type 0
IsSameContent db file =
    (f : SchemaFileRow)
    → first (λ (g : SchemaFileRow). str_eq g.id file.id) db.schema_files ≡ some f
    → f.content ≡ file.content

pub found-inserted :
    (db : Db) (schema_id : ℕ) (version_id commit_sha : String) (file : SchemaFile)
    → let last = insert_version db schema_id version_id commit_sha file in
      (v : VersionRow) × (find_version last.1 version_id ≡ some v) × (v.version ≡ last.0)
unfolding insert_version find_version
found-inserted db schema_id version_id commit_sha file = (
  record {
    id = version_id;
    version = max_version (versions_of db schema_id) + 1;
    schema_id = schema_id;
    commit_sha = commit_sha;
  },
  first-cons _ _ _ (str_eq_refl version_id),
  refl,
)

module _ (db : Db) (request : UpdateSchemaRequest) (version_id commit_sha : String) where
  pub insert_total :
      has_namespace db request.namespace_name ≡ true
      → (r : ℕ × Db) × (insert_schema db request.namespace_name request.schema request.metadata
          ≡ ok r)
  unfolding insert_schema
  insert_total home =
      elim (Outcome-cases
        (insert_schema db request.namespace_name request.schema request.metadata)) [
          | inl (r, e) ↦ (r, e)
          | inr (x, e) ↦ absurd (ground arith)
        ]

  pub created-IsWellFormed :
      (schema_id : ℕ) (db' : Db)
      → IsWellFormed db'
      → schema_id < db'.next_schema_id
      → IsWellFormed (insert_version db' schema_id version_id commit_sha request.schema_file).1
  unfolding insert_version
  created-IsWellFormed schema_id db' wf given = record {
    homes = wf.homes;
    known = wf.known;
    below = (given, wf.below);
  }

  Inserted-IsCreated :
      IsSameContent db request.schema_file
      → (wf : IsWellFormed db) (schema_id : ℕ) (db1 : Db)
      → Inserted db request.namespace_name request.schema request.metadata wf schema_id db1
      → let last = insert_version db1 schema_id version_id commit_sha request.schema_file in
        IsCreated db last.1 request last.0
  Inserted-IsCreated only wf schema_id db1 h =
      let last = insert_version db1 schema_id version_id commit_sha request.schema_file in
      let (s, found, same) = h.joined in
      let found' : joined_schema last.1 request.namespace_name request.schema ≡ some s =
        (unfold insert_version joined_schema find_schema in found) in
      record {
        next =
            unfold insert_version in
            ap (λ vs. max_version (select (λ v. v.schema_id == schema_id) vs) + 1) h.versions
            ∙ ap (λ n. n + 1) h.latest;
        latest =
            latest_of_joined last.1 _ _ s found'
            ∙ ap (λ i. max_version (versions_of last.1 i)) same
            ∙ max-inserted db1 schema_id version_id commit_sha request.schema_file;
        stored =
            get_of_joined last.1 _ _ s _ last.0 found' (
              ap (λ i. first (λ v. v.version == last.0) (versions_of last.1 i)) same
              ∙ first-inserted db1 schema_id version_id commit_sha request.schema_file)
            ∙ data-inserted db1 schema_id version_id commit_sha request.schema_file (λ f e.
              only f
                (ap (first (λ g. str_eq g.id request.schema_file.id)) (sym h.schema_files) ∙ e));
      }

  pub create_new :
      find_version db version_id ≡ none
      → (schema_id : ℕ) (db1 : Db)
      → insert_schema db request.namespace_name request.schema request.metadata
        ≡ ok (schema_id, db1)
      → let last = insert_version db1 schema_id version_id commit_sha request.schema_file in
        create db request version_id commit_sha ≡ (ok last.0, last.1)
  unfolding create
  create_new missing schema_id db1 e = rw (missing, create) (rw (e, create))

  pub create_failed :
      find_version db version_id ≡ none
      → (x : StorageErr)
      → insert_schema db request.namespace_name request.schema request.metadata ≡ err x
      → create db request version_id commit_sha
        ≡ (err x, record db { next_schema_id = suc db.next_schema_id })
  unfolding create
  create_failed missing x e = rw (missing, create) (rw (e, create))

  pub create_old :
      (v : VersionRow)
      → find_version db version_id ≡ some v
      → create db request version_id commit_sha ≡ (ok v.version, db)
  unfolding create
  create_old v found = rw (found, create)

  -- A new version id in a namespace that is there, with a file whose id is not stored with other
  -- bytes, in well-formed tables: `Create` succeeds, the version is the one after the latest, it
  -- becomes the latest, and reading it gives the bytes of the request. The tables stay well formed.
  pub create_fresh :
      IsWellFormed db
      → has_namespace db request.namespace_name ≡ true
      → find_version db version_id ≡ none
      → IsSameContent db request.schema_file
      → (version : ℕ) × (db' : Db) × (create db request version_id commit_sha ≡ (ok version, db'))
        × IsCreated db db' request version
        × IsWellFormed db'
  create_fresh wf home missing only =
      let ((schema_id, db1), e) = insert_total home in
      let h =
        insert_schema-Inserted db request.namespace_name request.schema request.metadata wf
          schema_id db1 e in
      let last = insert_version db1 schema_id version_id commit_sha request.schema_file in
      (
        last.0,
        last.1,
        create_new missing schema_id db1 e,
        Inserted-IsCreated only wf schema_id db1 h,
        created-IsWellFormed schema_id db1 h.well_formed h.given,
      )

-- The version id decides: a second `Create` with it, whatever it asks for, returns the version
-- of the first and changes nothing.
pub create_again :
    (db : Db) (request request' : UpdateSchemaRequest) (version_id commit_sha commit_sha' : String)
    (version : ℕ) (db' : Db)
    → create db request version_id commit_sha ≡ (ok version, db')
    → create db' request' version_id commit_sha' ≡ (ok version, db')
create_again db request request' version_id commit_sha commit_sha' version db' e =
    let P : (Outcome StorageErr ℕ × Db → Type 0) =
      (λ z. create z.1 request' version_id commit_sha' ≡ z) in
    elim (Option-cases (find_version db version_id)) [
      | inr (v, found) ↦
          subst P (sym (create_old db request version_id commit_sha v found) ∙ e)
            (create_old db request' version_id commit_sha' v found)
      | inl missing ↦
          elim (Outcome-cases
            (insert_schema db request.namespace_name request.schema request.metadata)) [
              | inr (x, failed) ↦
                  let shown =
                    sym (create_failed db request version_id commit_sha missing x failed) ∙ e in
                  absurd (err≢ok (ap (λ z. z.0) shown))
              | inl ((schema_id, db1), done) ↦
                  let last =
                    insert_version db1 schema_id version_id commit_sha request.schema_file in
                  let (v, found, same) =
                    found-inserted db1 schema_id version_id commit_sha request.schema_file in
                  subst P
                    (sym (create_new db request version_id commit_sha missing schema_id db1 done)
                      ∙ e)
                    (create_old last.1 request' version_id commit_sha' v found
                      ∙ ap (λ n. (ok n, last.1)) same)
            ]
    ]
