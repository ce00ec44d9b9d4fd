-- ===== src/Search/Hits.antt =====
-- What the two search queries find.
use mathlib.Core.List.Memᴰ
use stencil.Base.{
  ℕ, ◌≤◌, String, List, [], ◌∷◌, Memᴰ, Bool, true, ◌||◌, any, ◌≡◌, ◌≢◌, refl, sym, ap, ◌⊎◌, inl,
  inr, ◌↔◌, eq_iff, ◌==◌, ==_iff, arith, Bool-cases,
}
use stencil.Service.Versions.{ℤ, pos, negsuc}
use stencil.Store.Tables.{
  VersionRow, SchemaRow, SchemaFileRow, VersionFileRow, NamespaceRow, Db, select, max_version,
}
use stencil.Store.Schemas.{versions_of}
use stencil.Search.{
  SearchRequest, SearchHits, is_given_version, LatestVersion, schema_group, latest_versions,
  stored_files, hit_of,
}
use stencil.Search.Joins.{and_iff, is_given_iff, mem-select, mem-flat_map}

abbrev pub hit : (String → Bool) → SchemaFileRow → String → String → ℕ → SearchHits
hit matches sf namespace_id schema_id version_id = record {
  fields = select matches sf.fields;
  types = select matches sf.types;
  namespace_id = namespace_id;
  schema_id = schema_id;
  version_id = version_id;
}

-- A file with a field or a type that matches, stored as a version that `Chosen` allows, of a schema
-- and a namespace that are the ones asked for, if the request names any.
pub record IsHit (db : Db) (matches : String → Bool) (req : SearchRequest)
    (Chosen : VersionRow → Type 0) (h : SearchHits) : Type 0 where
  pub file : SchemaFileRow
  pub version : VersionRow
  pub schema : SchemaRow
  pub namespace : NamespaceRow
  pub stored :
      (m : VersionFileRow) × Memᴰ m db.versions_schema_files
      × (file.id ≡ m.schema_file_id)
      × (version.id ≡ m.version_id)
  pub in_files : Memᴰ file db.schema_files
  pub in_versions : Memᴰ version db.versions
  pub in_schemas : Memᴰ schema db.schemas
  pub in_namespaces : Memᴰ namespace db.namespaces
  pub of_schema : schema.id ≡ version.schema_id
  pub of_namespace : schema.namespace_id ≡ namespace.id
  pub asked_namespace : (req.namespace_id ≡ "") ⊎ (namespace.id ≡ req.namespace_id)
  pub asked_schema : (req.schema_id ≡ "") ⊎ (schema.name ≡ req.schema_id)
  pub chosen : Chosen version
  pub matching : (any matches file.fields || any matches file.types) ≡ true
  pub same : h ≡ hit matches file namespace.id schema.name version.version

-- Versions that are the greatest of their schema.
abbrev pub IsLatest : Db → VersionRow → Type 0
IsLatest db v =
    (w : VersionRow) → Memᴰ w db.versions → w.schema_id ≡ v.schema_id → w.version ≤ v.version

-- Versions that the request names, or all if it names 0.
abbrev pub IsAsked : ℤ → VersionRow → Type 0
IsAsked asked v = (asked ≡ pos 0) ⊎ (asked ≡ pos v.version)

pub mem-stored_files :
    {B : Type 0} (db : Db) (use_row : SchemaFileRow → VersionRow → List B) (y : B)
    → Memᴰ y (stored_files db use_row) ↔ (
        (sf : SchemaFileRow) × ((v : VersionRow) × Memᴰ sf db.schema_files
          × Memᴰ v db.versions
          × ((m : VersionFileRow) × Memᴰ m db.versions_schema_files
              × (sf.id ≡ m.schema_file_id)
              × (v.id ≡ m.version_id))
          × Memᴰ y (use_row sf v)))
unfolding stored_files
mem-stored_files db use_row y = (
  λ i.
      let (m, im, i1) = (mem-flat_map _ _ y).0 i in
      let (sf, is, i2) = (mem-flat_map _ _ y).0 i1 in
      let (v, iv, i3) = (mem-flat_map _ _ y).0 i2 in
      let (is', es) = (mem-select _ _ sf).0 is in
      let (iv', ev) = (mem-select _ _ v).0 iv in
      (sf, (v, is', iv', (m, im, (eq_iff _ _).0 es, (eq_iff _ _).0 ev), i3)),
  λ (sf, (v, is, iv, (m, im, es, ev), i)). (mem-flat_map _ _ y).1 (
    m,
    im,
    (mem-flat_map _ _ y).1 (
      sf,
      (mem-select _ _ sf).1 (is, (eq_iff _ _).1 es),
      (mem-flat_map _ _ y).1 (v, (mem-select _ _ v).1 (iv, (eq_iff _ _).1 ev), i),
    ),
  ),
)

pub mem-hit_of :
    (matches : String → Bool) (sf : SchemaFileRow) (ns name : String) (n : ℕ) (h : SearchHits)
    → Memᴰ h (hit_of matches sf ns name n)
      ↔ (((any matches sf.fields || any matches sf.types) ≡ true) × (h ≡ hit matches sf ns name n))
unfolding hit_of
mem-hit_of matches sf ns name n h =
    elim (Bool-cases (any matches sf.fields || any matches sf.types)) [
      | inl e ↦
          rw (e, hit_of)
            (
              λ i. elim (Memᴰ.cases_cons i) [ inl s ↦ (refl, s) | inr j ↦ absurd (Memᴰ.not-nil j) ],
              λ p. Memᴰ.head p.1,
            )
      | inr e ↦ rw (e, hit_of) (λ i. absurd (Memᴰ.not-nil i), λ p. absurd (cc (p.0)))
    ]

pub is_given_version_iff :
    (asked : ℤ) (v : VersionRow) → (is_given_version asked v.version ≡ true) ↔ IsAsked asked v
unfolding is_given_version
is_given_version_iff (pos n) v =
    let number : ℤ → ℕ = λ z. elim z [ pos k ↦ k | negsuc _ ↦ 0 ] in
    (
      λ e. elim (Bool-cases (n == 0)) [
        | inl zero ↦ inl (ap pos ((==_iff n 0).0 zero))
        | inr other ↦
            inr (ap pos (sym ((==_iff v.version n).0 (rw (other, is_given_version) at e))))
      ],
      λ h. elim h [
        | inl a ↦ let n0 = ap number a in ground (arith, n0)
        | inr b ↦ let nv = ap number b in ground (arith, nv)
      ],
    )
is_given_version_iff (negsuc n) v =
    (λ e. absurd (cc (e)), λ e. absurd (elim e [ inl a ↦ cc (a) | inr b ↦ cc (b) ]))

-- A row of the WITH part: a schema that the request allows, with its greatest version.
pub record IsGroup (db : Db) (namespace_id schema_id : String) (lv : LatestVersion) : Type 0 where
  pub schema : SchemaRow
  pub namespace : NamespaceRow
  pub in_schemas : Memᴰ schema db.schemas
  pub in_namespaces : Memᴰ namespace db.namespaces
  pub of_namespace : namespace.id ≡ schema.namespace_id
  pub asked_namespace : (namespace_id ≡ "") ⊎ (namespace.id ≡ namespace_id)
  pub asked_schema : (schema_id ≡ "") ⊎ (schema.name ≡ schema_id)
  pub versioned : versions_of db schema.id ≢ []
  pub same : lv ≡ record {
    namespace_id = namespace.id;
    schema_id = schema.id;
    version_id = max_version (versions_of db schema.id);
  }

mem-schema_group :
    (db : Db) (s : SchemaRow) (ns : NamespaceRow) (lv : LatestVersion)
    → Memᴰ lv (schema_group db s ns) ↔ (
        (versions_of db s.id ≢ [])
        × (lv ≡ record {
          namespace_id = ns.id;
          schema_id = s.id;
          version_id = max_version (versions_of db s.id);
        }))
unfolding schema_group
mem-schema_group db s ns lv = go (versions_of db s.id) refl
  where
    go :
        (vs : List VersionRow)
        → versions_of db s.id ≡ vs
        → Memᴰ lv (schema_group db s ns) ↔ (
            (versions_of db s.id ≢ [])
            × (lv ≡ record {
              namespace_id = ns.id;
              schema_id = s.id;
              version_id = max_version (versions_of db s.id);
            }))
    go [] e = rw (e, schema_group) (λ i. absurd (Memᴰ.not-nil i), λ h. absurd (h.0 refl))
    go (v ∷ vs) e =
        rw (e, schema_group)
          (
            λ i. (
              λ n. cc (n),
              elim (Memᴰ.cases_cons i) [ inl h ↦ h | inr j ↦ absurd (Memᴰ.not-nil j) ],
            ),
            λ h. Memᴰ.head h.1,
          )

pub mem-latest_versions :
    (db : Db) (namespace_id schema_id : String) (lv : LatestVersion)
    → Memᴰ lv (latest_versions db namespace_id schema_id) ↔ IsGroup db namespace_id schema_id lv
unfolding latest_versions
mem-latest_versions db namespace_id schema_id lv = (
  λ i.
      let (s, is, i1) = (mem-flat_map _ _ lv).0 i in
      let (ns, in', i2) = (mem-flat_map _ _ lv).0 i1 in
      let (in'', e) = (mem-select _ _ ns).0 in' in
      let (e1, e2) = (and_iff _ _).0 e in
      let (e3, e4) = (and_iff _ _).0 e2 in
      let (v, same) = (mem-schema_group db s ns lv).0 i2 in
      record {
        schema = s;
        namespace = ns;
        in_schemas = is;
        in_namespaces = in'';
        of_namespace = (eq_iff _ _).0 e1;
        asked_namespace = (is_given_iff _ _).0 e3;
        asked_schema = (is_given_iff _ _).0 e4;
        versioned = v;
        same = same;
      },
  λ g. (mem-flat_map _ _ lv).1 (
    g.schema,
    g.in_schemas,
    (mem-flat_map _ _ lv).1 (
      g.namespace,
      (mem-select _ _ g.namespace).1 (
        g.in_namespaces,
        (and_iff _ _).1 (
          (eq_iff _ _).1 g.of_namespace,
          (and_iff _ _).1
              ((is_given_iff _ _).1 g.asked_namespace, (is_given_iff _ _).1 g.asked_schema),
        ),
      ),
      (mem-schema_group db g.schema g.namespace lv).1 (g.versioned, g.same),
    ),
  ),
)
