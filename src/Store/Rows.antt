-- ===== src/Store/Rows.antt =====
-- Lookups of rows, and the rows after versionInsertQuery of schema_repository.go.
use mathlib.Core.Path.{subst}
use mathlib.Core.Option.{some-injective}
use stencil.Base.{
  ℕ, ◌<◌, String, List, [], ◌∷◌, Bool, true, any, All, some, ◌≡◌, refl, ap, str_eq, eq_iff, ◌==◌,
  Bool-cases, inl, inr, arith,
}
use stencil.Base.Outcome.{ok}
use stencil.Store.Tables.{VersionRow, SchemaFileRow, VersionFileRow, Db, first, select, max_version}
use stencil.Store.Schemas.{find_version, SchemaFile, versions_of, insert_version, get_data}

pub str_eq_refl : (s : String) → str_eq s s ≡ true
str_eq_refl s = (eq_iff s s).1 refl

pub first-cons {ℓ} :
    {A : Type ℓ} (p : A → Bool) (x : A) (xs : List A) → p x ≡ true → first p (x ∷ xs) ≡ some x
unfolding first
first-cons p x xs h = rw h

pub none-below :
    (n : ℕ) (vs : List VersionRow)
    → All (λ (v : VersionRow). v.schema_id < n) vs
    → select (λ (v : VersionRow). v.schema_id == n) vs ≡ []
unfolding select
none-below n [] h = refl
none-below n (v ∷ vs) h = ground (arith, none-below n vs h.1)

pub first-All :
    {A : Type 0} (P : A → Type 0) (p : A → Bool) (xs : List A) (x : A)
    → All P xs
    → first p xs ≡ some x
    → P x × (p x ≡ true)
unfolding first
first-All P p [] x h e = absurd (cc)
first-All P p (y ∷ xs) x h e = elim (Bool-cases (p y)) [
  | inl hit ↦
      let same : some y ≡ some x = rw hit at e in
      subst (λ z. P z × (p z ≡ true)) (some-injective _ _ same) (h.0, hit)
  | inr miss ↦ first-All P p xs x h.1 (rw miss at e)
]

pub first_of_any {ℓ} :
    {A : Type ℓ} (p : A → Bool) (xs : List A) → any p xs ≡ true → (x : A) × (first p xs ≡ some x)
unfolding first
first_of_any p [] h = absurd (cc)
first_of_any p (x ∷ xs) h = elim (Bool-cases (p x)) [
  | inl hit ↦ (x, rw hit)
  | inr miss ↦ let (y, e) = first_of_any p xs (rw miss at h) in (y, rw miss e)
]

-- Of the rows after `insert_version`.
module _ (db : Db) (schema_id : ℕ) (version_id commit_sha : String) (file : SchemaFile) where
  abbrev inserted : ℕ × Db
  inserted = insert_version db schema_id version_id commit_sha file

  pub max-inserted : max_version (versions_of inserted.1 schema_id) ≡ inserted.0
  unfolding insert_version max_version select
  max-inserted = ground arith

  pub first-inserted :
      first (λ (v : VersionRow). v.version == inserted.0) (versions_of inserted.1 schema_id)
      ≡ some (record {
        id = version_id;
        version = inserted.0;
        schema_id = schema_id;
        commit_sha = commit_sha;
      })
  unfolding insert_version first select
  first-inserted = ground arith

  pub data-inserted :
      ((f : SchemaFileRow)
        → first (λ (g : SchemaFileRow). str_eq g.id file.id) db.schema_files ≡ some f
        → f.content ≡ file.content)
      → get_data inserted.1 version_id ≡ ok file.content
  unfolding insert_version get_data find_version
  data-inserted same =
      rw
        (
          first-cons (λ (v : VersionRow). str_eq v.id version_id)
              (record {
                id = version_id;
                version = inserted.0;
                schema_id = schema_id;
                commit_sha = commit_sha;
              })
              db.versions (str_eq_refl version_id),
          get_data,
          find_version,
          inserted,
          insert_version,
        )
        (rw
          (
            first-cons (λ (m : VersionFileRow). str_eq m.version_id version_id)
                (record { version_id = version_id; schema_file_id = file.id })
                db.versions_schema_files (str_eq_refl version_id),
            get_data,
          )
          (elim (Bool-cases (any (λ (f : SchemaFileRow). str_eq f.id file.id) db.schema_files)) [
            | inl stored ↦
                let (f, e) =
                  first_of_any (λ (g : SchemaFileRow). str_eq g.id file.id) db.schema_files
                    stored in
                rw (stored, e) (ap ok (same f e))
            | inr new ↦ rw (
              new,
              first-cons (λ (f : SchemaFileRow). str_eq f.id file.id)
                  (record {
                    id = file.id;
                    types = file.types;
                    fields = file.fields;
                    content = file.content;
                  })
                  db.schema_files (str_eq_refl file.id),
            )
          ]))
