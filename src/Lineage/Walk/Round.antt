-- ===== src/Lineage/Walk/Round.antt =====
-- One round of the search: what it marks, reports and queues.
use mathlib.Core.List.{foldl, map-append}
use mathlib.Core.List.Memᴰ
use native.Mathlib.Decide.{dec_le}
use stencil.Base.{
  ℕ, suc, ◌≤◌, String, List, [], ◌∷◌, ◌++◌, map, Memᴰ, true, false, ◌≡◌, refl, sym, subst, ◌⊎◌, inl,
  inr, eq_iff, Bool-cases, arith,
}
use stencil.Lineage.Walk.{Graph, Visited, mark, BfsNode, Item, Search, visit_relation, visit_item}
use stencil.Lineage.Walk.Trail.{Trail, step, Unique, names}

abbrev pub item_names : List Item → List String
item_names items = map (λ (i : Item). i.name) items

pub Unique-concat :
    (xs : List String) (x : String) → Unique xs → (Memᴰ x xs → ⊥) → Unique (xs ++ x ∷ [])
Unique-concat [] x u new = ((λ m. absurd (Memᴰ.not-nil m)), tt)
Unique-concat (y ∷ xs) x u new = (
  λ m. elim (Memᴰ.append_cases xs m) [
    | inl old ↦ u.0 old
    | inr last ↦ new (Memᴰ.head (sym (Memᴰ.eq_of_singleton last)))
  ],
  Unique-concat xs x u.1 (λ m. new (Memᴰ.tail m)),
)

-- The marks, the reports and the walks agree, up to a level.
pub record Found (graph : Graph) (root : String) (bound : ℕ) (visited : Visited)
    (results : List BfsNode) : Type 0 where
  pub seen : (v : String) → visited v ≡ true → Memᴰ v (root ∷ names results)
  pub marked : (v : String) → Memᴰ v (root ∷ names results) → visited v ≡ true
  pub unique : Unique (root ∷ names results)
  pub trails :
      (n : BfsNode) → Memᴰ n results → Trail graph root n.level n.path n.fqn × (n.level ≤ bound)
  pub shortest :
      (n : BfsNode)
      → Memᴰ n results
      → (k : ℕ) (path : List String) → Trail graph root k path n.fqn
      → n.level ≤ k

pub mark_self : (visited : Visited) (v : String) → mark visited v v ≡ true
mark_self visited v = ground (arith, eq_iff v v)

pub mark_grows : (visited : Visited) (v x : String) → visited x ≡ true → mark visited v x ≡ true
mark_grows visited v x h = ground arith

pub mark_cases :
    (visited : Visited) (v x : String) → mark visited v x ≡ true → (visited x ≡ true) ⊎ (x ≡ v)
mark_cases visited v x h = ground (arith, eq_iff x v)

module _ {graph : Graph} {root : String} {visited : Visited} {results : List BfsNode} where
  Found-add :
      (bound : ℕ) (n : BfsNode)
      → Found graph root bound visited results
      → visited n.fqn ≡ false
      → Trail graph root n.level n.path n.fqn
      → n.level ≤ bound
      → ((k : ℕ) (path : List String) → Trail graph root k path n.fqn → n.level ≤ k)
      → Found graph root bound (mark visited n.fqn) (results ++ n ∷ [])
  Found-add bound n h new t b short =
      let split : names (results ++ n ∷ []) ≡ names results ++ n.fqn ∷ [] =
        map-append _ results (n ∷ []) in
      record {
        seen = λ v m. elim (mark_cases visited n.fqn v m) [
          | inl old ↦
              subst (λ z. Memᴰ v (root ∷ z)) (sym split)
                (Memᴰ.append_left (n.fqn ∷ []) (h.seen v old))
          | inr e ↦
              subst (λ z. Memᴰ v (root ∷ z)) (sym split)
                (Memᴰ.append_right (root ∷ names results) (Memᴰ.head e))
        ];
        marked = λ v m.
            elim (Memᴰ.append_cases (root ∷ names results)
              (subst (λ z. Memᴰ v (root ∷ z)) split m)) [
                | inl old ↦ mark_grows visited n.fqn v (h.marked v old)
                | inr last ↦
                    subst (λ z. mark visited n.fqn z ≡ true) (sym (Memᴰ.eq_of_singleton last))
                      (mark_self visited n.fqn)
              ];
        unique =
            subst (λ z. Unique (root ∷ z)) (sym split)
              (Unique-concat (root ∷ names results) n.fqn h.unique
                (λ m. absurd (cc (h.marked n.fqn m))));
        trails = λ x m. elim (Memᴰ.append_cases results m) [
          | inl old ↦ h.trails x old
          | inr last ↦
              subst (λ z. Trail graph root z.level z.path z.fqn × (z.level ≤ bound))
                (sym (Memᴰ.eq_of_singleton last)) (t, b)
        ];
        shortest = λ x m. elim (Memᴰ.append_cases results m) [
          | inl old ↦ h.shortest x old
          | inr last ↦
              subst
                (λ z. (k : ℕ) (path : List String) → Trail graph root k path z.fqn → z.level ≤ k)
                (sym (Memᴰ.eq_of_singleton last)) short
        ];
      }

module _ (graph : Graph) (root : String) (level : ℕ) (before : Visited) where
  -- What holds in the middle of the round that comes after `level`.
  pub record Middle (s : Search) : Type 0 where
    pub found : Found graph root (suc level) s.visited s.results
    pub grows : (v : String) → before v ≡ true → s.visited v ≡ true
    pub fresh :
        (v : String) → s.visited v ≡ true → (before v ≡ true) ⊎ Memᴰ v (item_names s.next_queue)
    pub queued : (i : Item) → Memᴰ i s.next_queue → Trail graph root (suc level) i.path i.name

  module _
      (covered : (k : ℕ) (path : List String) (v : String)
        → Trail graph root k path v
        → k ≤ level
        → before v ≡ true) where
    add-Middle :
        (cur : Item) (s : Search) (w : String)
        → Trail graph root level cur.path cur.name
        → Memᴰ w (graph cur.name)
        → s.visited w ≡ false
        → Middle s
        → Middle (record {
          visited = mark s.visited w;
          results =
              s.results ++ record { fqn = w; level = suc level; path = cur.path ++ w ∷ [] } ∷ [];
          next_queue = s.next_queue ++ record { name = w; path = cur.path ++ w ∷ [] } ∷ [];
        })
    add-Middle cur s w t edge new h =
        let item : Item = record { name = w; path = cur.path ++ w ∷ [] } in
        let split : item_names (s.next_queue ++ item ∷ []) ≡ item_names s.next_queue ++ w ∷ [] =
          map-append _ s.next_queue (item ∷ []) in
        record {
          found =
              Found-add (suc level)
                (record { fqn = w; level = suc level; path = cur.path ++ w ∷ [] }) h.found new
                (step w t edge) (omega arith)
                (λ k path short. elim (dec_le k level) [
                  | yes near ↦ absurd (cc (h.grows w (covered k path w short near)))
                  | no far ↦ omega arith
                ]);
          grows = λ v old. mark_grows s.visited w v (h.grows v old);
          fresh = λ v m. elim (mark_cases s.visited w v m) [
            | inl old ↦ elim (h.fresh v old) [
              | inl b ↦ inl b
              | inr q ↦ inr (subst (Memᴰ v) (sym split) (Memᴰ.append_left (w ∷ []) q))
            ]
            | inr e ↦ inr (
                subst (Memᴰ v) (sym split)
                  (Memᴰ.append_right (item_names s.next_queue) (Memᴰ.head e)))
          ];
          queued = λ i m. elim (Memᴰ.append_cases s.next_queue m) [
            | inl old ↦ h.queued i old
            | inr last ↦
                subst (λ z. Trail graph root (suc level) z.path z.name)
                  (sym (Memᴰ.eq_of_singleton last)) (step w t edge)
          ];
        }

    visit_relation-Middle :
        (cur : Item) (s : Search) (w : String)
        → Trail graph root level cur.path cur.name
        → Memᴰ w (graph cur.name)
        → Middle s
        → Middle (visit_relation (suc level) cur s w)
    unfolding visit_relation
    visit_relation-Middle cur s w t edge h = elim (Bool-cases (s.visited w)) [
      | inl old ↦ rw old h
      | inr new ↦ rw new (add-Middle cur s w t edge new h)
    ]

    visit_relations-Middle :
        (cur : Item) (s : Search) (ws : List String)
        → Trail graph root level cur.path cur.name
        → ((w : String) → Memᴰ w ws → Memᴰ w (graph cur.name))
        → Middle s
        → Middle (foldl (visit_relation (suc level) cur) s ws)
    visit_relations-Middle cur s [] t edges h = h
    visit_relations-Middle cur s (w ∷ ws) t edges h =
        visit_relations-Middle cur (visit_relation (suc level) cur s w) ws t
          (λ x m. edges x (Memᴰ.tail m))
          (visit_relation-Middle cur s w t (edges w (Memᴰ.head refl)) h)

    pub visit_items-Middle :
        (s : Search) (queue : List Item)
        → ((i : Item) → Memᴰ i queue → Trail graph root level i.path i.name)
        → Middle s
        → Middle (foldl (visit_item graph (suc level)) s queue)
    unfolding visit_item
    visit_items-Middle s [] trails h = h
    visit_items-Middle s (cur ∷ queue) trails h =
        visit_items-Middle (visit_item graph (suc level) s cur) queue
          (λ i m. trails i (Memᴰ.tail m))
          (visit_relations-Middle cur s (graph cur.name) (trails cur (Memᴰ.head refl)) (λ x m. m) h)

-- A round marks every relation of what it takes from the queue.
module _ (graph : Graph) (level : ℕ) where
  relation_marks :
      (cur : Item) (s : Search) (w v : String)
      → s.visited v ≡ true
      → (visit_relation level cur s w).visited v ≡ true
  unfolding visit_relation
  relation_marks cur s w v h = ground arith

  relation_marked :
      (cur : Item) (s : Search) (w : String) → (visit_relation level cur s w).visited w ≡ true
  unfolding visit_relation
  relation_marked cur s w = ground (arith, eq_iff w w)

  relations_keep :
      (cur : Item) (s : Search) (ws : List String) (v : String)
      → s.visited v ≡ true
      → (foldl (visit_relation level cur) s ws).visited v ≡ true
  relations_keep cur s [] v h = h
  relations_keep cur s (w ∷ ws) v h =
      relations_keep cur (visit_relation level cur s w) ws v (relation_marks cur s w v h)

  relations_mark :
      (cur : Item) (s : Search) (ws : List String) (w : String)
      → Memᴰ w ws
      → (foldl (visit_relation level cur) s ws).visited w ≡ true
  relations_mark cur s [] w m = absurd (Memᴰ.not-nil m)
  relations_mark cur s (x ∷ ws) w m = elim (Memᴰ.cases_cons m) [
    | inl e ↦ relations_keep cur (visit_relation level cur s x) ws w (
        subst (λ z. (visit_relation level cur s x).visited z ≡ true) (sym e)
          (relation_marked cur s x))
    | inr t ↦ relations_mark cur (visit_relation level cur s x) ws w t
  ]

  items_keep :
      (s : Search) (queue : List Item) (v : String)
      → s.visited v ≡ true
      → (foldl (visit_item graph level) s queue).visited v ≡ true
  unfolding visit_item
  items_keep s [] v h = h
  items_keep s (cur ∷ queue) v h =
      items_keep (visit_item graph level s cur) queue v (relations_keep cur s (graph cur.name) v h)

  pub items_mark :
      (s : Search) (queue : List Item) (v w : String)
      → Memᴰ v (item_names queue)
      → Memᴰ w (graph v)
      → (foldl (visit_item graph level) s queue).visited w ≡ true
  unfolding visit_item
  items_mark s [] v w m edge = absurd (Memᴰ.not-nil m)
  items_mark s (cur ∷ queue) v w m edge = elim (Memᴰ.cases_cons m) [
    | inl e ↦
        items_keep (visit_item graph level s cur) queue w
          (relations_mark cur s (graph cur.name) w (subst (λ z. Memᴰ w (graph z)) e edge))
    | inr t ↦ items_mark (visit_item graph level s cur) queue v w t edge
  ]
