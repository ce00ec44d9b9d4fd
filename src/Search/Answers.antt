-- ===== src/Search/Answers.antt =====
-- The hits of the two queries, and what the service answers.
use mathlib.Core.List.Memᴰ
use stencil.Base.{
  ℕ, String, Memᴰ, Bool, ◌≡◌, refl, sym, ap, ◌∙◌, subst, ◌↔◌, eq_iff, ◌==◌, ==_iff, arith,
}
use stencil.Store.Tables.{VersionRow, SchemaRow, SchemaFileRow, Db, max_version}
use stencil.Store.Schemas.{versions_of}
use stencil.Store.Integrity.{IsConsistent}
use stencil.Search.{SearchRequest, SearchHits, LatestVersion, stored_files, all_rows, latest_rows}
use stencil.Search.Joins.{
  and_iff, is_given_iff, mem-select, mem-flat_map, Pairwise-same, max_version-above,
  max_version-least,
}
use stencil.Search.Hits.{
  hit, IsHit, IsLatest, IsAsked, mem-stored_files, mem-hit_of, is_given_version_iff,
  mem-latest_versions,
}

module _ (db : Db) (matches : String → Bool) (req : SearchRequest) (h : SearchHits) where
  pub all-IsHit :
      Memᴰ h (stored_files db (all_rows db matches req))
      ↔ IsHit db matches req (IsAsked req.version_id) h
  unfolding all_rows
  all-IsHit = (
    λ i.
        let (sf, (v, is, iv, st, i1)) = (mem-stored_files db _ h).0 i in
        let (s, is1, i2) = (mem-flat_map _ _ h).0 i1 in
        let (is2, es) = (mem-select _ _ s).0 is1 in
        let (ns, in1, i3) = (mem-flat_map _ _ h).0 i2 in
        let (in2, e) = (mem-select _ _ ns).0 in1 in
        let (e1, e2) = (and_iff _ _).0 e in
        let (e3, e4) = (and_iff _ _).0 e2 in
        let (e5, e6) = (and_iff _ _).0 e4 in
        let (m, same) = (mem-hit_of matches sf ns.id s.name v.version h).0 i3 in
        record {
          file = sf;
          version = v;
          schema = s;
          namespace = ns;
          stored = st;
          in_files = is;
          in_versions = iv;
          in_schemas = is2;
          in_namespaces = in2;
          of_schema = (==_iff _ _).0 es;
          of_namespace = (eq_iff _ _).0 e1;
          asked_namespace = (is_given_iff _ _).0 e3;
          asked_schema = (is_given_iff _ _).0 e5;
          chosen = (is_given_version_iff _ v).0 e6;
          matching = m;
          same = same;
        },
    λ q. (mem-stored_files db _ h).1 (
      q.file,
      (
        q.version,
        q.in_files,
        q.in_versions,
        q.stored,
        (mem-flat_map _ _ h).1 (
          q.schema,
          (mem-select _ _ q.schema).1 (q.in_schemas, (==_iff _ _).1 q.of_schema),
          (mem-flat_map _ _ h).1 (
            q.namespace,
            (mem-select _ _ q.namespace).1 (
              q.in_namespaces,
              (and_iff _ _).1 (
                (eq_iff _ _).1 q.of_namespace,
                (and_iff _ _).1 (
                  (is_given_iff _ _).1 q.asked_namespace,
                  (and_iff _ _).1 (
                    (is_given_iff _ _).1 q.asked_schema,
                    (is_given_version_iff _ q.version).1 q.chosen,
                  ),
                ),
              ),
            ),
            (mem-hit_of matches q.file q.namespace.id q.schema.name q.version.version h).1
                (q.matching, q.same),
          ),
        ),
      ),
    ),
  )

  schema_of_id :
      IsConsistent db
      → (a b : SchemaRow) → Memᴰ a db.schemas
      → Memᴰ b db.schemas
      → a.id ≡ b.id
      → a ≡ b
  schema_of_id c a b i j e =
      Pairwise-same (λ (x : SchemaRow) (y : SchemaRow). x.id == y.id) db.schemas a b c.schema_ids
        (λ x y f. (==_iff y.id x.id).1 (sym ((==_iff x.id y.id).0 f))) i j ((==_iff a.id b.id).1 e)

  -- A version whose number is the greatest of its schema.
  IsLatest-iff :
      (v : VersionRow)
      → Memᴰ v db.versions
      → IsLatest db v ↔ (v.version ≡ max_version (versions_of db v.schema_id))
  IsLatest-iff v i =
      let mine = λ (w : VersionRow) (j : Memᴰ w db.versions) (e : w.schema_id ≡ v.schema_id).
        (mem-select (λ (z : VersionRow). z.schema_id == v.schema_id) db.versions w).1
          (j, (==_iff _ _).1 e) in
      let above = max_version-above (versions_of db v.schema_id) in
      (
        λ l.
            let upper =
              max_version-least (versions_of db v.schema_id) v.version
                (λ w j. let (k, e) = (mem-select _ _ w).0 j in l w k ((==_iff _ _).0 e)) in
            let lower = above v (mine v i refl) in omega (arith, upper, lower),
        λ e w j k. let below = above w (mine w j k) in omega (arith, below, e),
      )

  hit_same :
      (sf : SchemaFileRow) {ns ns' name name' : String} {n n' : ℕ}
      → ns ≡ ns'
      → name ≡ name'
      → n ≡ n'
      → hit matches sf ns name n ≡ hit matches sf ns' name' n'
  hit_same sf {ns} {ns'} {name} {name'} {n} {n'} e1 e2 e3 =
      ap (λ x. hit matches sf x name n) e1
      ∙ ap (λ x. hit matches sf ns' x n) e2
      ∙ ap (λ x. hit matches sf ns' name' x) e3

  pub IsLatest-IsHit :
      IsConsistent db
      → Memᴰ h (stored_files db (latest_rows db matches req)) ↔ IsHit db matches req (IsLatest db) h
  unfolding latest_rows
  IsLatest-IsHit c = (
    λ i.
        let (sf, (v, is, iv, st, i1)) = (mem-stored_files db _ h).0 i in
        let (lv, il, i2) = (mem-flat_map _ _ h).0 i1 in
        let (il', e) = (mem-select _ _ lv).0 il in
        let (e1, e2) = (and_iff _ _).0 e in
        let g = (mem-latest_versions db req.namespace_id req.schema_id lv).0 il' in
        let (s, is1, i3) = (mem-flat_map _ _ h).0 i2 in
        let (is2, es) = (mem-select _ _ s).0 is1 in
        let (m, same) = (mem-hit_of matches sf lv.namespace_id s.name lv.version_id h).0 i3 in
        let id_same : lv.schema_id ≡ g.schema.id = ap (λ (z : LatestVersion). z.schema_id) g.same in
        let v_id : g.schema.id ≡ v.schema_id = sym ((==_iff _ _).0 e1 ∙ id_same) in
        let v_version : v.version ≡ lv.version_id = (==_iff _ _).0 e2 in
        record {
          file = sf;
          version = v;
          schema = g.schema;
          namespace = g.namespace;
          stored = st;
          in_files = is;
          in_versions = iv;
          in_schemas = g.in_schemas;
          in_namespaces = g.in_namespaces;
          of_schema = v_id;
          of_namespace = sym g.of_namespace;
          asked_namespace = g.asked_namespace;
          asked_schema = g.asked_schema;
          chosen = (IsLatest-iff v iv).1 (
              v_version
              ∙ ap (λ (z : LatestVersion). z.version_id) g.same
              ∙ ap (λ k. max_version (versions_of db k)) v_id);
          matching = m;
          same =
              same
              ∙ hit_same sf (ap (λ (z : LatestVersion). z.namespace_id) g.same)
                  (ap (λ (z : SchemaRow). z.name)
                    (schema_of_id c s g.schema is2 g.in_schemas ((==_iff _ _).0 es ∙ id_same)))
                  (sym v_version);
        },
    λ q.
        let lv : LatestVersion = record {
          namespace_id = q.namespace.id;
          schema_id = q.schema.id;
          version_id = max_version (versions_of db q.schema.id);
        } in
        let newest : q.version.version ≡ max_version (versions_of db q.schema.id) =
          (IsLatest-iff q.version q.in_versions).0 q.chosen
          ∙ ap (λ k. max_version (versions_of db k)) (sym q.of_schema) in
        let mine =
          (mem-select (λ (z : VersionRow). z.schema_id == q.schema.id) db.versions q.version).1
            (q.in_versions, (==_iff _ _).1 (sym q.of_schema)) in
        (mem-stored_files db _ h).1 (
          q.file,
          (
            q.version,
            q.in_files,
            q.in_versions,
            q.stored,
            (mem-flat_map _ _ h).1 (
              lv,
              (mem-select _ _ lv).1 (
                (mem-latest_versions db req.namespace_id req.schema_id lv).1 (record {
                  schema = q.schema;
                  namespace = q.namespace;
                  in_schemas = q.in_schemas;
                  in_namespaces = q.in_namespaces;
                  of_namespace = sym q.of_namespace;
                  asked_namespace = q.asked_namespace;
                  asked_schema = q.asked_schema;
                  versioned = λ n. Memᴰ.not-nil (subst (Memᴰ q.version) n mine);
                  same = refl;
                }),
                (and_iff _ _).1 ((==_iff _ _).1 (sym q.of_schema), (==_iff _ _).1 newest),
              ),
              (mem-flat_map _ _ h).1 (
                q.schema,
                (mem-select _ _ q.schema).1 (q.in_schemas, (==_iff _ _).1 refl),
                (mem-hit_of matches q.file q.namespace.id q.schema.name lv.version_id h).1
                    (q.matching, q.same ∙ hit_same q.file refl refl newest),
              ),
            ),
          ),
        ),
  )
