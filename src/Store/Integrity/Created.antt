-- ===== src/Store/Integrity/Created.antt =====
-- Create of the repository keeps the constraints.
use stencil.Base.{
  ap, ◌∙◌, ℕ, suc, ◌≤◌, ◌<◌, String, List, [], ◌∷◌, Bool, true, false, any, All, none, some, ◌≡◌,
  refl, str_eq, eq_iff, ◌==◌, subst, Bool-cases, Option-cases, inl, inr, arith,
}
use stencil.Base.Outcome.{ok, Outcome-cases}
use stencil.Store.Tables.{
  SchemaRow, VersionRow, SchemaFileRow, VersionFileRow, Db, first, select, max_version,
}
use stencil.Store.Schemas.{
  Metadata, SchemaFile, UpdateSchemaRequest, has_namespace, is_schema, find_schema, find_version,
  insert_schema, insert_version, create,
}
use stencil.Store.Rows.{str_eq_refl}
use stencil.Store.Inserted.{ok_pair}
use stencil.Store.Integrity.Pairs.{Pairwise, All-weaken, All-of_any-false}
use stencil.Store.Integrity.{IsConsistent}

pub any-of_first {ℓ} :
    {A : Type ℓ} (p q : A → Bool) (xs : List A) (x : A)
    → first p xs ≡ some x
    → q x ≡ true
    → any q xs ≡ true
unfolding first
any-of_first p q [] x e h = absurd (cc (e))
any-of_first p q (y ∷ xs) x e h = elim (Bool-cases (p y)) [
  | inl hit ↦
      let same : some y ≡ some x = rw hit at e in let k : q y ≡ true = ground (arith, same) in rw k
  | inr miss ↦ ground (arith, any-of_first p q xs x (rw miss at e) h)
]

pub any-of_first-none {ℓ} :
    {A : Type ℓ} (p : A → Bool) (xs : List A) → first p xs ≡ none → any p xs ≡ false
unfolding first
any-of_first-none p [] e = refl
any-of_first-none p (x ∷ xs) e = elim (Bool-cases (p x)) [
  | inl hit ↦ absurd (cc (rw hit at e))
  | inr miss ↦ rw miss (any-of_first-none p xs (rw miss at e))
]

pub below_max :
    (schema_id : ℕ) (vs : List VersionRow)
    → All
        (λ (v : VersionRow).
          ((v.schema_id == schema_id) ≡ true)
          → v.version ≤ max_version (select (λ (w : VersionRow). w.schema_id == schema_id) vs))
        vs
unfolding max_version select
below_max schema_id [] = tt
below_max schema_id (v ∷ vs) = (
  λ e. ground (arith, e),
  All-weaken _ _ vs (λ (w : VersionRow) h e. ground (arith, h e)) (below_max schema_id vs),
)

module _ (db : Db) (c : IsConsistent db) where
  -- After the insert of a schema: the constraints, the schema, and the versions as they were.
  record IsInserted (schema_id : ℕ) (db' : Db) : Type 0 where
    consistent : IsConsistent db'
    there : any (λ (s : SchemaRow). s.id == schema_id) db'.schemas ≡ true
    versions : db'.versions ≡ db.versions

  module _ (ns name : String) (meta : Metadata) where
    abbrev row : SchemaRow
    row = record {
      id = db.next_schema_id;
      name = name;
      namespace_id = ns;
      authority = "";
      format = meta.format;
      compatibility = meta.compatibility;
      source_url = meta.source_url;
    }

    abbrev with_row : Db
    with_row = record db { schemas = row ∷ db.schemas; next_schema_id = suc db.next_schema_id }

    later : All (λ (s : SchemaRow). s.id < suc db.next_schema_id) db.schemas
    later = All-weaken _ _ db.schemas (λ (s : SchemaRow) h. omega (arith, h)) c.known

    bumped-IsConsistent : IsConsistent (record db { next_schema_id = suc db.next_schema_id })
    bumped-IsConsistent = record {
      namespace_ids = c.namespace_ids;
      schema_ids = c.schema_ids;
      schema_names = c.schema_names;
      version_ids = c.version_ids;
      version_numbers = c.version_numbers;
      file_ids = c.file_ids;
      homes = c.homes;
      schemas_there = c.schemas_there;
      versions_there = c.versions_there;
      files_there = c.files_there;
      numbered = c.numbered;
      known = later;
    }

    new-IsConsistent :
        find_schema db ns name ≡ none → has_namespace db ns ≡ true → IsConsistent with_row
    unfolding find_schema
    new-IsConsistent missing home = record {
      namespace_ids = c.namespace_ids;
      schema_ids = (
        All-weaken _ _ db.schemas (λ (s : SchemaRow) h. ground (arith, h)) c.known,
        c.schema_ids,
      );
      schema_names = (
        All-weaken _ _ db.schemas
            (λ (s : SchemaRow) h. ground (
              arith,
              h,
              eq_iff s.namespace_id ns,
              eq_iff ns s.namespace_id,
              eq_iff s.name name,
              eq_iff name s.name,
            ))
            (All-of_any-false (is_schema ns name) db.schemas
              (any-of_first-none (is_schema ns name) db.schemas missing)),
        c.schema_names,
      );
      version_ids = c.version_ids;
      version_numbers = c.version_numbers;
      file_ids = c.file_ids;
      homes = (home, c.homes);
      schemas_there =
          All-weaken _ _ db.versions (λ (v : VersionRow) h. ground (arith, h)) c.schemas_there;
      versions_there = c.versions_there;
      files_there = c.files_there;
      numbered = c.numbered;
      known = (omega arith, later);
    }

    insert_schema-IsInserted :
        (schema_id : ℕ) (db' : Db)
        → insert_schema db ns name meta ≡ ok (schema_id, db')
        → IsInserted schema_id db'
    unfolding insert_schema
    insert_schema-IsInserted schema_id db' e = elim (Option-cases (find_schema db ns name)) [
      | inr (s, found) ↦
          subst (λ z. IsInserted z.0 z.1) (ok_pair (rw (found, insert_schema) at e))
            (record {
              consistent = bumped-IsConsistent;
              there =
                  any-of_first (is_schema ns name) (λ (r : SchemaRow). r.id == s.id) db.schemas s
                    (unfold find_schema in found) (ground arith);
              versions = refl;
            })
      | inl missing ↦ elim (Bool-cases (has_namespace db ns)) [
        | inl home ↦
            let e' = rw home at (rw (missing, insert_schema) at e) in
            subst (λ z. IsInserted z.0 z.1) (ok_pair e')
              (record {
                consistent = new-IsConsistent missing home;
                there = ground arith;
                versions = refl;
              })
        | inr away ↦ absurd (cc (rw away at (rw (missing, insert_schema) at e)))
      ]
    ]

  module _ (schema_id : ℕ) (version_id commit_sha : String) (file : SchemaFile) where
    abbrev added : Db
    added = (insert_version db schema_id version_id commit_sha file).1

    grown :
        (p : SchemaFileRow → Bool) → any p db.schema_files ≡ true → any p added.schema_files ≡ true
    unfolding insert_version
    grown p h =
        elim (Bool-cases (any (λ (f : SchemaFileRow). str_eq f.id file.id) db.schema_files)) [
          | inl stored ↦ rw stored h
          | inr new ↦ rw new (ground (arith, h))
        ]

    own_file : any (λ (f : SchemaFileRow). str_eq f.id file.id) added.schema_files ≡ true
    unfolding insert_version
    own_file =
        elim (Bool-cases (any (λ (f : SchemaFileRow). str_eq f.id file.id) db.schema_files)) [
          | inl stored ↦ rw stored stored
          | inr new ↦ rw new (ground (arith, str_eq_refl file.id))
        ]

    pairs_there :
        All
          (λ (m : VersionFileRow).
            any (λ (f : SchemaFileRow). str_eq f.id m.schema_file_id) added.schema_files ≡ true)
          (record { version_id = version_id; schema_file_id = file.id } ∷ db.versions_schema_files)
    pairs_there = (
      own_file,
      All-weaken _ _ db.versions_schema_files
          (λ (m : VersionFileRow) h. grown (λ (f : SchemaFileRow). str_eq f.id m.schema_file_id) h)
          c.files_there,
    )

    files_apart : Pairwise (λ (a b : SchemaFileRow). str_eq a.id b.id ≡ false) added.schema_files
    unfolding insert_version
    files_apart =
        elim (Bool-cases (any (λ (f : SchemaFileRow). str_eq f.id file.id) db.schema_files)) [
          | inl stored ↦ rw stored c.file_ids
          | inr new ↦ rw new (
            All-weaken _ _ db.schema_files
                (λ (f : SchemaFileRow) h.
                  ground (arith, h, eq_iff f.id file.id, eq_iff file.id f.id))
                (All-of_any-false (λ (f : SchemaFileRow). str_eq f.id file.id) db.schema_files new),
            c.file_ids,
          )
        ]

    insert_version-IsConsistent :
        find_version db version_id ≡ none
        → any (λ (s : SchemaRow). s.id == schema_id) db.schemas ≡ true
        → IsConsistent added
    unfolding find_version insert_version
    insert_version-IsConsistent fresh there = record {
      namespace_ids = c.namespace_ids;
      schema_ids = c.schema_ids;
      schema_names = c.schema_names;
      version_ids = (
        All-weaken _ _ db.versions
            (λ (v : VersionRow) h.
              ground (arith, h, eq_iff v.id version_id, eq_iff version_id v.id))
            (All-of_any-false (λ (v : VersionRow). str_eq v.id version_id) db.versions
              (any-of_first-none (λ (v : VersionRow). str_eq v.id version_id) db.versions fresh)),
        c.version_ids,
      );
      version_numbers = (
        All-weaken _ _ db.versions
            (λ (v : VersionRow) h. elim (Bool-cases (v.schema_id == schema_id)) [
              | inl same ↦ ground (arith, h same)
              | inr other ↦ ground arith
            ])
            (below_max schema_id db.versions),
        c.version_numbers,
      );
      file_ids = files_apart;
      homes = c.homes;
      schemas_there = (there, c.schemas_there);
      versions_there = (
        ground (arith, str_eq_refl version_id),
        All-weaken _ _ db.versions_schema_files (λ (m : VersionFileRow) h. ground (arith, h))
            c.versions_there,
      );
      files_there = pairs_there;
      numbered = (omega arith, c.numbered);
      known = c.known;
    }

pub create-IsConsistent :
    (db : Db)
    → IsConsistent db
    → (request : UpdateSchemaRequest) (version_id commit_sha : String)
    → IsConsistent (create db request version_id commit_sha).1
unfolding create
create-IsConsistent db c request version_id commit_sha =
    elim (Option-cases (find_version db version_id)) [
      | inr (v, found) ↦ rw (found, create) c
      | inl fresh ↦
          elim (Outcome-cases
            (insert_schema db request.namespace_name request.schema request.metadata)) [
              | inr (x, e) ↦
                  rw (fresh, create)
                    (rw (e, create)
                      (bumped-IsConsistent db c request.namespace_name request.schema
                        request.metadata))
              | inl ((schema_id, db'), e) ↦
                  let h =
                    insert_schema-IsInserted db c request.namespace_name request.schema
                      request.metadata schema_id db' e in
                  let fresh' : find_version db' version_id ≡ none =
                    (unfold find_version in
                      (ap (first (λ (v : VersionRow). str_eq v.id version_id)) h.versions
                        ∙ fresh)) in
                  rw (fresh, create)
                    (rw (e, create)
                      (insert_version-IsConsistent db' h.consistent schema_id version_id commit_sha
                        request.schema_file fresh' h.there))
            ]
    ]
