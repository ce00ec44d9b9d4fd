-- ===== src/Lineage/Compute/Sides.antt =====
-- One side of the response: what the loop over the roots collects.
use mathlib.Core.List.{foldl, map-append, append_assoc, append-nil}
use mathlib.Core.List.Memᴰ
use stencil.Base.{
  ℕ, ◌≤◌, String, List, [], ◌∷◌, ◌++◌, map, Memᴰ, true, false, ◌≡◌, ◌≢◌, refl, sym, subst, ap, ◌∙◌,
  ◌⊎◌, inl, inr, ◌↔◌, Bool-cases,
}
use stencil.Lineage.Walk.{Graph, mark, BfsNode, walk_lineage}
use stencil.Lineage.Walk.Trail.{Trail, Unique, names}
use stencil.Lineage.Walk.Round.{Unique-concat, mark_self, mark_grows, mark_cases}
use stencil.Lineage.Walk.Correct.{walk_lineage-IsLineage}
use stencil.Lineage.Compute.{
  LineageSchema, convert_lineage_nodes, Side, Filtered, filter_node, extend, side_of,
}

abbrev pub type_names : List LineageSchema → List String
type_names schemas = map (λ (s : LineageSchema). s.type_name) schemas

-- Some root other than `v` leads to `v` in at most `level` steps.
abbrev pub Reached : Graph → ℕ → List String → String → Type 0
Reached graph level roots v =
    (root : String) × Memᴰ root roots
    × (v ≢ root)
    × ((k : ℕ) × (path : List String) × Trail graph root k path v × (k ≤ level))

-- The marks are the names after `base`.
record Marks (base : List String) (f : Filtered) : Type 0 where
  seen : (v : String) → f.seen v ≡ true → Memᴰ v (base ++ names f.kept)
  marked : (v : String) → Memᴰ v (base ++ names f.kept) → f.seen v ≡ true
  unique : Unique (base ++ names f.kept)

names-concat :
    (base : List String) (kept : List BfsNode) (n : BfsNode)
    → base ++ names (kept ++ n ∷ []) ≡ (base ++ names kept) ++ n.fqn ∷ []
names-concat base kept n =
    ap (λ z. base ++ z) (map-append _ kept (n ∷ [])) ∙ sym (append_assoc base (names kept) _)

filter_node-Marks :
    (base : List String) (f : Filtered) (n : BfsNode) → Marks base f → Marks base (filter_node f n)
unfolding filter_node
filter_node-Marks base f n h = elim (Bool-cases (f.seen n.fqn)) [
  | inl old ↦ rw old h
  | inr new ↦
      let split = names-concat base f.kept n in
      rw new (record {
        seen = λ v m. subst (Memᴰ v) (sym split) (elim (mark_cases f.seen n.fqn v m) [
          | inl old ↦ Memᴰ.append_left _ (h.seen v old)
          | inr e ↦ Memᴰ.append_right (base ++ names f.kept) (Memᴰ.head e)
        ]);
        marked = λ v m. elim (Memᴰ.append_cases (base ++ names f.kept) (subst (Memᴰ v) split m)) [
          | inl old ↦ mark_grows f.seen n.fqn v (h.marked v old)
          | inr last ↦
              subst (λ z. mark f.seen n.fqn z ≡ true) (sym (Memᴰ.eq_of_singleton last))
                (mark_self f.seen n.fqn)
        ];
        unique = subst Unique (sym split) (
            Unique-concat (base ++ names f.kept) n.fqn h.unique
              (λ m. absurd (cc (h.marked n.fqn m))));
      })
]

filter_nodes-Marks :
    (base : List String) (f : Filtered) (nodes : List BfsNode)
    → Marks base f
    → Marks base (foldl filter_node f nodes)
filter_nodes-Marks base f [] h = h
filter_nodes-Marks base f (n ∷ nodes) h =
    filter_nodes-Marks base (filter_node f n) nodes (filter_node-Marks base f n h)

filter_node_seen :
    (f : Filtered) (n : BfsNode) (v : String)
    → ((filter_node f n).seen v ≡ true) ↔ ((f.seen v ≡ true) ⊎ (v ≡ n.fqn))
unfolding filter_node
filter_node_seen f n v = elim (Bool-cases (f.seen n.fqn)) [
  | inl old ↦
      rw old (inl, λ h. elim h [ inl m ↦ m | inr e ↦ subst (λ z. f.seen z ≡ true) (sym e) old ])
  | inr new ↦ rw new (
    mark_cases f.seen n.fqn v,
    λ h. elim h [
      | inl m ↦ mark_grows f.seen n.fqn v m
      | inr e ↦ subst (λ z. mark f.seen n.fqn z ≡ true) (sym e) (mark_self f.seen n.fqn)
    ],
  )
]

filter_nodes_seen :
    (f : Filtered) (nodes : List BfsNode) (v : String)
    → ((foldl filter_node f nodes).seen v ≡ true) ↔ ((f.seen v ≡ true) ⊎ Memᴰ v (names nodes))
filter_nodes_seen f [] v = (inl, λ h. elim h [ inl m ↦ m | inr n ↦ absurd (Memᴰ.not-nil n) ])
filter_nodes_seen f (n ∷ nodes) v =
    let rest = filter_nodes_seen (filter_node f n) nodes v in
    let one = filter_node_seen f n v in
    (
      λ m. elim (rest.0 m) [
        | inl m' ↦ elim (one.0 m') [ inl old ↦ inl old | inr e ↦ inr (Memᴰ.head e) ]
        | inr t ↦ inr (Memᴰ.tail t)
      ],
      λ h. elim h [
        | inl old ↦ rest.1 (inl (one.1 (inl old)))
        | inr i ↦ elim (Memᴰ.cases_cons i) [
          | inl e ↦ rest.1 (inl (one.1 (inr e)))
          | inr t ↦ rest.1 (inr t)
        ]
      ],
    )

module _ (namespace_id schema_id : String) (graph : Graph) (level : ℕ) where
  record IsSide (P : String → Type 0) (side : Side) : Type 0 where
    seen : (v : String) → side.seen v ≡ true → Memᴰ v (type_names side.schemas)
    marked : (v : String) → Memᴰ v (type_names side.schemas) → side.seen v ≡ true
    unique : Unique (type_names side.schemas)
    holds : (v : String) → (side.seen v ≡ true) ↔ P v

  type_names-convert :
      (nodes : List BfsNode)
      → type_names (convert_lineage_nodes namespace_id schema_id nodes) ≡ names nodes
  unfolding convert_lineage_nodes
  type_names-convert [] = refl
  type_names-convert (n ∷ nodes) = ap (λ z. n.fqn ∷ z) (type_names-convert nodes)

  IsSide-Marks :
      (P : String → Type 0) (side : Side)
      → IsSide P side
      → Marks (type_names side.schemas) (record { seen = side.seen; kept = [] })
  IsSide-Marks P side h =
      let e = append-nil (type_names side.schemas) in
      record {
        seen = λ v m. subst (Memᴰ v) (sym e) (h.seen v m);
        marked = λ v m. h.marked v (subst (Memᴰ v) e m);
        unique = subst Unique (sym e) h.unique;
      }

  extend-IsSide :
      (P : String → Type 0) (side : Side) (root : String)
      → IsSide P side
      → IsSide
          (λ v. P v ⊎ Memᴰ v (names (walk_lineage graph root level)))
          (extend namespace_id schema_id graph level side root)
  unfolding extend
  extend-IsSide P side root h =
      let nodes = walk_lineage graph root level in
      let first : Filtered = record { seen = side.seen; kept = [] } in
      let f = foldl filter_node first nodes in
      let marks =
        filter_nodes-Marks (type_names side.schemas) first nodes (IsSide-Marks P side h) in
      let split : type_names (side.schemas ++ convert_lineage_nodes namespace_id schema_id f.kept)
          ≡ type_names side.schemas ++ names f.kept =
        map-append _ side.schemas (convert_lineage_nodes namespace_id schema_id f.kept)
        ∙ ap (λ z. type_names side.schemas ++ z) (type_names-convert f.kept) in
      record {
        seen = λ v m. subst (Memᴰ v) (sym split) (marks.seen v m);
        marked = λ v m. marks.marked v (subst (Memᴰ v) split m);
        unique = subst Unique (sym split) marks.unique;
        holds = λ v.
            let s = filter_nodes_seen first nodes v in
            (
              λ m. elim (s.0 m) [ inl old ↦ inl ((h.holds v).0 old) | inr new ↦ inr new ],
              λ p. elim p [ inl old ↦ s.1 (inl ((h.holds v).1 old)) | inr new ↦ s.1 (inr new) ],
            );
      }

  IsSide-iff :
      {P Q : String → Type 0} {side : Side}
      → ((v : String) → P v ↔ Q v)
      → IsSide P side
      → IsSide Q side
  IsSide-iff e h = record {
    seen = h.seen;
    marked = h.marked;
    unique = h.unique;
    holds = λ v. ((λ m. (e v).0 ((h.holds v).0 m)), (λ q. (h.holds v).1 ((e v).1 q)));
  }

  abbrev Walked : List String → String → Type 0
  Walked roots v =
      (root : String) × Memᴰ root roots × Memᴰ v (names (walk_lineage graph root level))

  extends-IsSide :
      (P : String → Type 0) (side : Side) (roots : List String)
      → IsSide P side
      → IsSide
          (λ v. P v ⊎ Walked roots v)
          (foldl (extend namespace_id schema_id graph level) side roots)
  extends-IsSide P side [] h =
      IsSide-iff (λ v. (inl, λ p. elim p [ inl q ↦ q | inr w ↦ absurd (Memᴰ.not-nil w.1) ])) h
  extends-IsSide P side (root ∷ roots) h =
      IsSide-iff
        (λ v. (
          (λ p. elim p [
            | inl (inl q) ↦ inl q
            | inl (inr m) ↦ inr (root, Memᴰ.head refl, m)
            | inr (r, i, m) ↦ inr (r, Memᴰ.tail i, m)
          ]),
          (λ p. elim p [
            | inl q ↦ inl (inl q)
            | inr (r, i, m) ↦ elim (Memᴰ.cases_cons i) [
              | inl e ↦ inl (inr (subst (λ z. Memᴰ v (names (walk_lineage graph z level))) e m))
              | inr t ↦ inr (r, t, m)
            ]
          ]),
        ))
        (extends-IsSide (λ v. P v ⊎ Memᴰ v (names (walk_lineage graph root level)))
          (extend namespace_id schema_id graph level side root) roots (extend-IsSide P side root h))

  -- A name that the walk reports is one that the root reaches.
  name_node :
      (nodes : List BfsNode) (v : String)
      → Memᴰ v (names nodes)
      → (n : BfsNode) × Memᴰ n nodes × (v ≡ n.fqn)
  name_node [] v m = absurd (Memᴰ.not-nil m)
  name_node (n ∷ nodes) v m = elim (Memᴰ.cases_cons m) [
    | inl e ↦ (n, Memᴰ.head refl, e)
    | inr t ↦ let (k, i, e) = name_node nodes v t in (k, Memᴰ.tail i, e)
  ]

  Walked-Reached : (roots : List String) (v : String) → Walked roots v ↔ Reached graph level roots v
  Walked-Reached roots v = (
    λ (root, i, m).
        let walk = walk_lineage-IsLineage graph root level in
        let (n, j, e) = name_node (walk_lineage graph root level) v m in
        let (t, b) = walk.trails n j in
        (
          root,
          i,
          (λ same.
              walk.unique.0 (subst (λ z. Memᴰ z (names (walk_lineage graph root level))) same m)),
          (n.level, n.path, subst (Trail graph root n.level n.path) (sym e) t, b),
        ),
    λ (root, i, other, (k, path, t, b)).
        let walk = walk_lineage-IsLineage graph root level in
        elim (walk.complete k path v t b) [ inl same ↦ absurd (other same) | inr m ↦ (root, i, m) ],
  )

  -- What a side that is asked for holds.
  pub side_of_holds :
      (roots : List String)
      → ((v : String)
          → Memᴰ v (type_names (side_of namespace_id schema_id graph level true roots))
            ↔ Reached graph level roots v)
        × Unique (type_names (side_of namespace_id schema_id graph level true roots))
  unfolding side_of
  side_of_holds roots =
      let side =
        extends-IsSide (λ _. ⊥) (record { seen = λ _. false; schemas = [] }) roots
          (record {
            seen = λ v m. absurd (cc);
            marked = λ v m. absurd (Memᴰ.not-nil m);
            unique = tt;
            holds = λ v. ((λ m. absurd (cc)), absurd);
          }) in
      (
        λ v. (
          (λ m. elim ((side.holds v).0 (side.marked v m)) [
            | inl bad ↦ absurd bad
            | inr w ↦ (Walked-Reached roots v).0 w
          ]),
          (λ r. side.seen v ((side.holds v).1 (inr ((Walked-Reached roots v).1 r)))),
        ),
        side.unique,
      )
