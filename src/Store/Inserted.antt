-- ===== src/Store/Inserted.antt =====
-- The rows after schemaInsertQuery of schema_repository.go.
use mathlib.Core.Path.{subst}
use stencil.Base.{
  ℕ, suc, ◌<◌, String, List, [], ◌∷◌, true, All, none, some, ◌≡◌, refl, ap, eq_iff, Bool-cases,
  Option-cases, inl, inr, arith,
}
use stencil.Base.Outcome.{Outcome, ok, err}
use stencil.Store.Tables.{StorageErr, SchemaRow, VersionRow, Db, max_version}
use stencil.Store.Schemas.{
  Metadata, is_schema, has_namespace, find_schema, versions_of, insert_schema, joined_schema,
  get_latest_version,
}
use stencil.Store.Rows.{str_eq_refl, first-cons, none-below, first-All}

-- The foreign keys that `Create` relies on: a schema stands in a namespace, and the ids of schemas
-- that versions name were given before.
pub record IsWellFormed (db : Db) : Type 0 where
  pub homes : All (λ (s : SchemaRow). has_namespace db s.namespace_id ≡ true) db.schemas
  pub known : All (λ (s : SchemaRow). s.id < db.next_schema_id) db.schemas
  pub below : All (λ (v : VersionRow). v.schema_id < db.next_schema_id) db.versions

pub ok_pair : {x y : ℕ × Db} → ◌≡◌ {A = Outcome StorageErr (ℕ × Db)} (ok x) (ok y) → x ≡ y
ok_pair {x} e = ap (λ o. elim o [ ok z ↦ z | err _ ↦ x ]) e

-- Of the rows after `insert_schema`.
module _ (db : Db) (ns name : String) (meta : Metadata) (wf : IsWellFormed db) where
  -- The schema that a successful insert leaves, and what it leaves as it was.
  pub record Inserted (schema_id : ℕ) (db' : Db) : Type 0 where
    pub joined : (s : SchemaRow) × (joined_schema db' ns name ≡ some s) × (s.id ≡ schema_id)
    pub versions : db'.versions ≡ db.versions
    pub schema_files : db'.schema_files ≡ db.schema_files
    pub latest : max_version (versions_of db schema_id) ≡ get_latest_version db ns name
    pub well_formed : IsWellFormed db'
    pub given : schema_id < db'.next_schema_id

  All-below_suc :
      (n : ℕ) (vs : List VersionRow)
      → All (λ (v : VersionRow). v.schema_id < n) vs
      → All (λ (v : VersionRow). v.schema_id < suc n) vs
  All-below_suc n [] h = tt
  All-below_suc n (v ∷ vs) h = (omega arith, All-below_suc n vs h.1)

  All-known_suc :
      (n : ℕ) (ss : List SchemaRow)
      → All (λ (s : SchemaRow). s.id < n) ss
      → All (λ (s : SchemaRow). s.id < suc n) ss
  All-known_suc n [] h = tt
  All-known_suc n (v ∷ vs) h = (omega arith, All-known_suc n vs h.1)

  abbrev bumped : Db
  bumped = record db { next_schema_id = suc db.next_schema_id }

  abbrev row : SchemaRow
  row = record {
    id = db.next_schema_id;
    name = name;
    namespace_id = ns;
    authority = "";
    format = meta.format;
    compatibility = meta.compatibility;
    source_url = meta.source_url;
  }

  abbrev with_row : Db
  with_row = record db { schemas = row ∷ db.schemas; next_schema_id = suc db.next_schema_id }

  bumped-IsWellFormed : IsWellFormed bumped
  bumped-IsWellFormed = record {
    homes = wf.homes;
    known = All-known_suc db.next_schema_id db.schemas wf.known;
    below = All-below_suc db.next_schema_id db.versions wf.below;
  }

  pub has_home : (s : SchemaRow) → find_schema db ns name ≡ some s → has_namespace db ns ≡ true
  unfolding find_schema
  has_home s e =
      let (home, hit) =
        first-All (λ (r : SchemaRow). has_namespace db r.namespace_id ≡ true) (is_schema ns name)
          db.schemas s wf.homes e in
      subst (λ z. has_namespace db z ≡ true) ((eq_iff s.namespace_id ns).0 (ground arith)) home

  joined_found :
      (s : SchemaRow) → find_schema db ns name ≡ some s → joined_schema db ns name ≡ some s
  unfolding joined_schema
  joined_found s found = rw (has_home s found) found

  latest_found :
      (s : SchemaRow)
      → find_schema db ns name ≡ some s
      → max_version (versions_of db s.id) ≡ get_latest_version db ns name
  unfolding get_latest_version
  latest_found s found = rw (joined_found s found, get_latest_version)

  latest_missing : find_schema db ns name ≡ none → 0 ≡ get_latest_version db ns name
  unfolding get_latest_version joined_schema
  latest_missing missing = ground arith

  old-Inserted : (s : SchemaRow) → find_schema db ns name ≡ some s → Inserted s.id bumped
  unfolding joined_schema find_schema
  old-Inserted s found =
      let (known, _) =
        first-All (λ (r : SchemaRow). r.id < db.next_schema_id) (is_schema ns name) db.schemas s
          wf.known found in
      record {
        joined = (s, joined_found s found, refl);
        versions = refl;
        schema_files = refl;
        latest = latest_found s found;
        well_formed = bumped-IsWellFormed;
        given = omega arith;
      }

  row-is_schema : is_schema ns name row ≡ true
  row-is_schema = ground (arith, str_eq_refl ns, str_eq_refl name)

  new-Inserted :
      find_schema db ns name ≡ none
      → has_namespace db ns ≡ true
      → Inserted db.next_schema_id with_row
  unfolding find_schema joined_schema
  new-Inserted missing home = record {
    joined = (row, rw home (first-cons (is_schema ns name) row db.schemas row-is_schema), refl);
    versions = refl;
    schema_files = refl;
    latest =
        rw (none-below db.next_schema_id db.versions wf.below)
          (unfold max_version in latest_missing missing);
    well_formed = record {
      homes = (home, wf.homes);
      known = (omega arith, All-known_suc db.next_schema_id db.schemas wf.known);
      below = All-below_suc db.next_schema_id db.versions wf.below;
    };
    given = omega arith;
  }

  -- A successful insert is one of the two.
  pub insert_schema-Inserted :
      (schema_id : ℕ) (db' : Db)
      → insert_schema db ns name meta ≡ ok (schema_id, db')
      → Inserted schema_id db'
  unfolding insert_schema
  insert_schema-Inserted schema_id db' e = elim (Option-cases (find_schema db ns name)) [
    | inr (s, found) ↦
        let same = ok_pair (rw (found, insert_schema) at e) in
        subst (λ z. Inserted z.0 z.1) same (old-Inserted s found)
    | inl missing ↦ elim (Bool-cases (has_namespace db ns)) [
      | inl home ↦
          let same = ok_pair (rw (home) at (rw (missing, insert_schema) at e)) in
          subst (λ z. Inserted z.0 z.1) same (new-Inserted missing home)
      | inr away ↦ absurd (cc (rw away at (rw (missing, insert_schema) at e)))
    ]
  ]
