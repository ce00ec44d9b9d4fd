-- ===== src/Search/Readable.antt =====
-- What a search finds can be read.
use mathlib.Core.List.Memᴰ
use stencil.Base.{
  ℕ, String, List, [], ◌∷◌, Memᴰ, Bool, true, false, ◌&&◌, any, Option, some, ◌≡◌, refl, sym, ap,
  ◌∙◌, subst, inl, inr, str_eq, eq_iff, ◌==◌, ==_iff, arith, All-of_mem,
}
use stencil.Base.Outcome.{Outcome, ok, err}
use stencil.Store.Tables.{
  VersionRow, SchemaRow, NamespaceRow, SchemaFileRow, VersionFileRow, Db, first,
}
use stencil.Store.Rows.{first_of_any, first-All, str_eq_refl}
use stencil.Store.Schemas.{
  has_namespace, is_schema, find_schema, versions_of, find_version, joined_schema, get_version_id,
  get_data, get,
}
use stencil.Store.Integrity.{IsConsistent}
use stencil.Store.Integrity.Pairs.{Pairwise, Pairwise-select}
use stencil.Search.{SearchRequest, SearchHits, SearchErr, search}
use stencil.Search.Requests.{Wanted, search_answers}
use stencil.Search.Joins.{and_iff, mem-select, Pairwise-same}
use stencil.Search.Hits.{IsHit}

any-mem :
    {A : Type 0} (p : A → Bool) (xs : List A) (a : A) → Memᴰ a xs → p a ≡ true → any p xs ≡ true
any-mem p [] a i h = absurd (Memᴰ.not-nil i)
any-mem p (x ∷ xs) a i h = elim (Memᴰ.cases_cons i) [
  | inl e ↦ rw (sym (ap p e) ∙ h) refl
  | inr j ↦ let rest = any-mem p xs a j h in ground (arith, rest)
]

-- The only row that passes is the first.
first-only :
    {A : Type 0} (same_key : A → A → Bool) (p : A → Bool) (xs : List A) (a : A)
    → Pairwise (λ x y. same_key x y ≡ false) xs
    → ((x y : A) → same_key x y ≡ true → same_key y x ≡ true)
    → Memᴰ a xs
    → p a ≡ true
    → ((b : A) → Memᴰ b xs → p b ≡ true → same_key a b ≡ true)
    → first p xs ≡ some a
first-only same_key p xs a apart flip i h only =
    let (b, found) = first_of_any p xs (any-mem p xs a i h) in
    let (j, k) = first-All (λ x. Memᴰ x xs) p xs b (All-of_mem _ xs (λ x m. m)) found in
    found ∙ ap some (sym (Pairwise-same same_key xs a b apart flip i j (only b j k)))

both_flip :
    (a b x y : String) → (str_eq a b && str_eq x y) ≡ true → (str_eq b a && str_eq y x) ≡ true
both_flip a b x y k =
    let (e, f) = (and_iff (str_eq a b) (str_eq x y)).0 k in
    (and_iff (str_eq b a) (str_eq y x)).1
      ((eq_iff b a).1 (sym ((eq_iff a b).0 e)), (eq_iff y x).1 (sym ((eq_iff x y).0 f)))

both_numbers_flip : (a b x y : ℕ) → ((a == b) && (x == y)) ≡ true → ((b == a) && (y == x)) ≡ true
both_numbers_flip a b x y k =
    let (e, f) = (and_iff (a == b) (x == y)).0 k in
    (and_iff (b == a) (y == x)).1
      ((==_iff b a).1 (sym ((==_iff a b).0 e)), (==_iff y x).1 (sym ((==_iff x y).0 f)))

module _ (db : Db) (c : IsConsistent db) where
  stored_data :
      (v : VersionRow) (m : VersionFileRow)
      → Memᴰ v db.versions
      → Memᴰ m db.versions_schema_files
      → v.id ≡ m.version_id
      → (content : List ℕ) × (get_data db v.id ≡ ok content)
  unfolding get_data find_version
  stored_data v m iv im e =
      let (v', found) =
        first_of_any (λ (w : VersionRow). str_eq w.id v.id) db.versions
          (any-mem _ db.versions v iv (str_eq_refl v.id)) in
      let (m', paired) =
        first_of_any (λ (n : VersionFileRow). str_eq n.version_id v.id) db.versions_schema_files
          (any-mem _ db.versions_schema_files m im ((eq_iff _ _).1 (sym e))) in
      let (there, _) =
        first-All _ (λ (n : VersionFileRow). str_eq n.version_id v.id) db.versions_schema_files m'
          c.files_there paired in
      let (f, stored) =
        first_of_any (λ (g : SchemaFileRow). str_eq g.id m'.schema_file_id) db.schema_files there in
      (f.content, rw (found, get_data) (rw (paired, get_data) (rw (stored, get_data) refl)))

  -- The namespace, the schema and the version of every hit can be read from the tables.
  pub hit_reads :
      (matches : String → Bool) (req : SearchRequest) (Chosen : VersionRow → Type 0)
      (h : SearchHits)
      → IsHit db matches req Chosen h
      → (content : List ℕ) × (get db h.namespace_id h.schema_id h.version_id ≡ ok content)
  unfolding get get_version_id joined_schema find_schema
  hit_reads matches req Chosen h q =
      let (m, im, _, e) = q.stored in
      let (content, read) = stored_data q.version m q.in_versions im e in
      let home : has_namespace db q.namespace.id ≡ true =
        any-mem (λ (n : NamespaceRow). str_eq n.id q.namespace.id) db.namespaces q.namespace
          q.in_namespaces (str_eq_refl _) in
      let schema : find_schema db q.namespace.id q.schema.name ≡ some q.schema =
        first-only
          (λ (a b : SchemaRow). str_eq a.namespace_id b.namespace_id && str_eq a.name b.name)
          (is_schema q.namespace.id q.schema.name) db.schemas q.schema c.schema_names
          (λ a b. both_flip a.namespace_id b.namespace_id a.name b.name) q.in_schemas
          ((and_iff _ _).1 ((eq_iff _ _).1 q.of_namespace, str_eq_refl _))
          (λ b _ k.
            let (x, y) = (and_iff _ _).0 k in
            (and_iff _ _).1 (
              (eq_iff _ _).1 (q.of_namespace ∙ sym ((eq_iff _ _).0 x)),
              (eq_iff _ _).1 (sym ((eq_iff _ _).0 y)),
            )) in
      let version : first (λ (v : VersionRow). v.version == q.version.version)
            (versions_of db q.schema.id)
          ≡ some q.version =
        first-only (λ (a b : VersionRow). (a.schema_id == b.schema_id) && (a.version == b.version))
          (λ (v : VersionRow). v.version == q.version.version) (versions_of db q.schema.id)
          q.version
          (Pairwise-select _ (λ (v : VersionRow). v.schema_id == q.schema.id) db.versions
            c.version_numbers)
          (λ a b. both_numbers_flip a.schema_id b.schema_id a.version b.version)
          ((mem-select (λ (v : VersionRow). v.schema_id == q.schema.id) db.versions q.version).1
            (q.in_versions, (==_iff _ _).1 (sym q.of_schema)))
          ((==_iff _ _).1 refl)
          (λ b j k.
            let (_, mine) =
              (mem-select (λ (v : VersionRow). v.schema_id == q.schema.id) db.versions b).0 j in
            (and_iff _ _).1 (
              (==_iff _ _).1 (sym q.of_schema ∙ sym ((==_iff _ _).0 mine)),
              (==_iff _ _).1 (sym ((==_iff _ _).0 k)),
            )) in
      let found : get db q.namespace.id q.schema.name q.version.version ≡ ok content =
        rw (home, get, get_version_id, joined_schema)
          (rw (schema, get, get_version_id) (rw (version, get, get_version_id) read)) in
      (
        content,
        subst (λ (z : SearchHits). get db z.namespace_id z.schema_id z.version_id ≡ ok content)
            (sym q.same) found,
      )

-- With a query that makes a regular expression, on tables that keep their constraints, the
-- namespace, the schema and the version of every hit that Search returns are those of a version that
-- the repository reads.
pub search_hits_read :
    (like_regex : String → Option (String → Bool)) (db : Db) (req : SearchRequest)
    (matches : String → Bool) (hits : List SearchHits) (h : SearchHits)
    → like_regex req.query ≡ some matches
    → IsConsistent db
    → search like_regex db req ≡ ok hits
    → Memᴰ h hits
    → (content : List ℕ) × (get db h.namespace_id h.schema_id h.version_id ≡ ok content)
search_hits_read like_regex db req matches hits h query c found i =
    elim (search_answers like_regex db req matches query c) [
      | inl (e, _, bad) ↦ absurd (cc (bad, found))
      | inr (_, (hits', found', exact)) ↦
          let same =
            ap (λ (o : Outcome SearchErr (List SearchHits)). elim o [ ok z ↦ z | err _ ↦ hits ])
              (sym found ∙ found') in
          hit_reads db c matches req (Wanted db req) h ((exact h).0 (subst (Memᴰ h) same i))
    ]
