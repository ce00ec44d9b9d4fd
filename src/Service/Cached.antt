-- ===== src/Service/Cached.antt =====
-- Reading through the cache of core/schema/service.go against reading the tables.
use stencil.Base.{ℕ, String, some, ◌≡◌, refl, sym, ap, ◌∙◌, ◌⊎◌, inl, inr, Option-cases}
use stencil.Base.Outcome.{Outcome, ok, err, Outcome-cases}
use stencil.Formats.Parsed.Errors.{Bytes}
use stencil.Formats.Parsed.{Libraries}
use stencil.Service.{
  ServiceErr, storage, Cache, schema_key_func, cached_get_schema, get_schema, get_latest,
}
use stencil.Store.Tables.{Db}
use stencil.Store.Schemas.{Metadata, get_metadata, get_latest_version}
use stencil.Store.Schemas.{get as repo_get}

-- What the tables hold, read without a cache.
abbrev pub read_tables : Db → String → String → ℕ → Outcome ServiceErr (Metadata × Bytes)
read_tables db ns name version = elim (get_metadata db ns name) [
  | err e ↦ err (storage e)
  | ok meta ↦ elim (repo_get db ns name version) [
    | err e ↦ err (storage e)
    | ok found ↦ ok (meta, found)
  ]
]

-- `Known` says which namespaces and schemas are in use.
module _ (L : Libraries) (C : Cache) (decimal : ℕ → String) (text_bytes : String → Bytes)
    (Known : String → String → Type 0) where
  abbrev key : String → String → ℕ → String
  key = schema_key_func L C decimal text_bytes

  -- A value that the cache gives for a key was set under that key, by the last `set` or before.
  abbrev pub KeepsValues : Type 0
  KeepsValues =
      (st : C.State) (k k' : String) (b v : Bytes)
      → C.lookup (C.set st k b) k' ≡ some v
      → (C.lookup st k' ≡ some v) ⊎ ((k ≡ k') × (v ≡ b))

  -- The schemas in use have different keys.
  abbrev pub AreApart : Type 0
  AreApart =
      (ns name ns' name' : String) (v v' : ℕ)
      → Known ns name
      → Known ns' name'
      → key ns name v ≡ key ns' name' v'
      → (ns ≡ ns') × ((name ≡ name') × (v ≡ v'))

  -- What the cache has for a schema in use is what the tables hold.
  abbrev pub IsCoherent : Db → C.State → Type 0
  IsCoherent db cache =
      (ns name : String) (version : ℕ) (b : Bytes)
      → Known ns name
      → C.lookup cache (key ns name version) ≡ some b
      → repo_get db ns name version ≡ ok b

  module _ (keeps : KeepsValues) (apart : AreApart) (db : Db) (cache : C.State) (ns name : String)
      (known : Known ns name) (coherent : IsCoherent db cache) where
    set-IsCoherent :
        (version : ℕ) (found : Bytes)
        → repo_get db ns name version ≡ ok found
        → IsCoherent db (C.set cache (key ns name version) found)
    set-IsCoherent version found e ns' name' version' b known' hit =
        elim (keeps cache (key ns name version) (key ns' name' version') found b hit) [
          | inl old ↦ coherent ns' name' version' b known' old
          | inr (same, value) ↦
              let (n, (m, v)) = apart ns name ns' name' version version' known known' same in
              ap (λ z. repo_get db z name' version') (sym n)
              ∙ ap (λ z. repo_get db ns z version') (sym m)
              ∙ ap (λ z. repo_get db ns name z) (sym v)
              ∙ e
              ∙ ap ok (sym value)
        ]

    cached_get_schema-IsCoherent :
        (version : ℕ)
        → (((cached_get_schema L C decimal text_bytes db cache ns name version).0
              ≡ elim (repo_get db ns name version) [
                | err e ↦ err (storage e)
                | ok found ↦ ok found
              ])
            × IsCoherent db (cached_get_schema L C decimal text_bytes db cache ns name version).1)
    unfolding cached_get_schema
    cached_get_schema-IsCoherent version =
        elim (Option-cases (C.lookup cache (key ns name version))) [
          | inr (b, hit) ↦
              let e = coherent ns name version b known hit in
              rw (hit, cached_get_schema) (rw (e) refl, coherent)
          | inl miss ↦ elim (Outcome-cases (repo_get db ns name version)) [
            | inl (found, e) ↦
                rw (miss, cached_get_schema)
                  (rw (e, cached_get_schema) (refl, set-IsCoherent version found e))
            | inr (x, e) ↦ rw (miss, cached_get_schema) (rw (e, cached_get_schema) (refl, coherent))
          ]
        ]

    one_read :
        (v : ℕ)
        → ((get_schema L C decimal text_bytes db cache ns name v).0 ≡ read_tables db ns name v)
          × IsCoherent db (get_schema L C decimal text_bytes db cache ns name v).1
    unfolding get_schema
    one_read v =
        let (a, b) = cached_get_schema-IsCoherent v in
        elim (Outcome-cases (get_metadata db ns name)) [
          | inr (x, bad) ↦
              let direct : err (storage x) ≡ read_tables db ns name v =
                rw (bad, read_tables) refl in
              rw (bad, get_schema) (direct, coherent)
          | inl (meta, good) ↦ elim (Outcome-cases (repo_get db ns name v)) [
            | inl (found, e) ↦
                let a' = rw (e) at a in
                let direct : ok (meta, found) ≡ read_tables db ns name v =
                  rw (good, read_tables) (rw (e, read_tables) refl) in
                rw (good, get_schema) (rw (a', get_schema) (direct, b))
            | inr (x, e) ↦
                let a' = rw (e) at a in
                let direct : err (storage x) ≡ read_tables db ns name v =
                  rw (good, read_tables) (rw (e, read_tables) refl) in
                rw (good, get_schema) (rw (a', get_schema) (direct, b))
          ]
        ]

    -- With a cache that gives only values that were set, and schemas in use whose keys differ: as
    -- long as what the cache has for them is what the tables hold, Get, and GetLatest with the latest
    -- version, return what reading the tables returns, and the cache stays so.
    pub get_schema-IsCoherent :
        (version : ℕ)
        → ((get_schema L C decimal text_bytes db cache ns name version).0
            ≡ read_tables db ns name version)
          × ((get_latest L C decimal text_bytes db cache ns name).0
              ≡ read_tables db ns name (get_latest_version db ns name))
          × IsCoherent db (get_schema L C decimal text_bytes db cache ns name version).1
          × IsCoherent db (get_latest L C decimal text_bytes db cache ns name).1
    unfolding get_latest
    get_schema-IsCoherent version =
        let (a, b) = one_read version in
        let (c, d) = one_read (get_latest_version db ns name) in (a, c, b, d)
