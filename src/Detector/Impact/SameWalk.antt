-- ===== src/Detector/Impact/SameWalk.antt =====
-- The change detector's search and the lineage walk are the same search.
use mathlib.Core.List.{foldl, map-append, append_assoc, append-nil}
use stencil.Base.{
  ℕ, zero, suc, String, List, [], ◌∷◌, ◌++◌, true, false, ◌≡◌, refl, sym, ap, ◌∙◌, subst, inl, inr,
  length, Bool-cases,
}
use stencil.Lineage.Walk.{
  Graph, Visited, mark, BfsNode, Item, Search, visit_relation, visit_item, round, walk_loop,
  walk_lineage,
}
use stencil.Lineage.Walk.Trail.{names}
use stencil.Lineage.Walk.Round.{item_names}
use stencil.Detector.Impact.{
  Bfs, push_neighbor, pop_front, take_level, impact_loop, get_dependent_impacted_schemas,
}

length-map : (items : List Item) → length (item_names items) ≡ length items
length-map [] = refl
length-map (i ∷ items) = ap suc (length-map items)

-- In the middle of a round: what is left of the round's queue comes before the next queue.
record Agrees (left out : List String) (s : Search) (b : Bfs) : Type 0 where
  queue : b.queue ≡ left ++ item_names s.next_queue
  visited : b.visited_messages ≡ s.visited
  out_eq : b.dependent_impacted_schemas ≡ out

module _ (graph : Graph) (level : ℕ) where
  push-Agrees :
      (left out : List String) (cur : Item) (s : Search) (b : Bfs) (w : String)
      → Agrees left out s b
      → Agrees left out (visit_relation level cur s w) (push_neighbor b w)
  unfolding push_neighbor visit_relation
  push-Agrees left out cur s b w h = elim (Bool-cases (s.visited w)) [
    | inl old ↦
        let old' : b.visited_messages w ≡ true = ap (λ v. v w) h.visited ∙ old in rw old (rw old' h)
    | inr new ↦
        let new' : b.visited_messages w ≡ false = ap (λ v. v w) h.visited ∙ new in
        rw new (
          rw new' (record {
            queue =
                ap (λ q. q ++ w ∷ []) h.queue
                ∙ append_assoc left (item_names s.next_queue) _
                ∙ ap (λ z. left ++ z) (sym (map-append _ s.next_queue _));
            visited = ap (λ v. mark v w) h.visited;
            out_eq = h.out_eq;
          }))
  ]

  pushes-Agrees :
      (left out : List String) (cur : Item) (s : Search) (b : Bfs) (ws : List String)
      → Agrees left out s b
      → Agrees left out (foldl (visit_relation level cur) s ws) (foldl push_neighbor b ws)
  pushes-Agrees left out cur s b [] h = h
  pushes-Agrees left out cur s b (w ∷ ws) h =
      pushes-Agrees left out cur (visit_relation level cur s w) (push_neighbor b w) ws
        (push-Agrees left out cur s b w h)

  take_level-Agrees :
      (queue : List Item) (out : List String) (s : Search) (b : Bfs)
      → Agrees (item_names queue) out s b
      → Agrees []
          (out ++ item_names queue)
          (foldl (visit_item graph level) s queue)
          (take_level graph (length queue) b)
  unfolding take_level visit_item pop_front
  take_level-Agrees [] out s b h = record {
    queue = h.queue;
    visited = h.visited;
    out_eq = h.out_eq ∙ sym (append-nil out);
  }
  take_level-Agrees (cur ∷ queue) out s b h =
      rw (h.queue, take_level)
        (subst
          (λ o. Agrees [] o (foldl (visit_item graph level) (visit_item graph level s cur) queue) (
            take_level graph (length queue)
              (pop_front graph cur.name (item_names queue ++ item_names s.next_queue) b)))
          (append_assoc out (cur.name ∷ []) (item_names queue))
          (take_level-Agrees queue (out ++ cur.name ∷ []) (visit_item graph level s cur) _ (
            pushes-Agrees (item_names queue) (out ++ cur.name ∷ []) cur s _ (graph cur.name)
              (record {
                queue = refl;
                visited = h.visited;
                out_eq = ap (λ o. o ++ cur.name ∷ []) h.out_eq;
              }))))

  -- A round reports what it queues.
  visit_relation-reports :
      (old : List String) (cur : Item) (s : Search) (w : String)
      → names s.results ≡ old ++ item_names s.next_queue
      → names (visit_relation level cur s w).results
        ≡ old ++ item_names (visit_relation level cur s w).next_queue
  unfolding visit_relation
  visit_relation-reports old cur s w h = elim (Bool-cases (s.visited w)) [
    | inl seen ↦ rw seen h
    | inr new ↦ rw new (
        map-append _ s.results _
        ∙ ap (λ z. z ++ w ∷ []) h
        ∙ append_assoc old (item_names s.next_queue) _
        ∙ ap (λ z. old ++ z) (sym (map-append _ s.next_queue _)))
  ]

  visit_relations-report :
      (old : List String) (cur : Item) (s : Search) (ws : List String)
      → names s.results ≡ old ++ item_names s.next_queue
      → names (foldl (visit_relation level cur) s ws).results
        ≡ old ++ item_names (foldl (visit_relation level cur) s ws).next_queue
  visit_relations-report old cur s [] h = h
  visit_relations-report old cur s (w ∷ ws) h =
      visit_relations-report old cur (visit_relation level cur s w) ws
        (visit_relation-reports old cur s w h)

  visit_items-report :
      (old : List String) (s : Search) (queue : List Item)
      → names s.results ≡ old ++ item_names s.next_queue
      → names (foldl (visit_item graph level) s queue).results
        ≡ old ++ item_names (foldl (visit_item graph level) s queue).next_queue
  unfolding visit_item
  visit_items-report old s [] h = h
  visit_items-report old s (cur ∷ queue) h =
      visit_items-report old (visit_item graph level s cur) queue
        (visit_relations-report old cur s (graph cur.name) h)

not_empty :
    (queue : List String) (s t : Bfs) (x : String) (rest : List String)
    → queue ≡ x ∷ rest
    → ◌≡◌ {A = Bfs} (elim queue [ [] ↦ s | _ ∷ _ ↦ t ]) t
not_empty [] s t x rest e = absurd (cc)
not_empty (_ ∷ _) s t x rest e = refl

impact_step :
    (graph : Graph) (rounds : ℕ) (b : Bfs) (x : String) (rest : List String)
    → b.queue ≡ x ∷ rest
    → impact_loop graph (suc rounds) b
      ≡ impact_loop graph rounds (take_level graph (length b.queue) b)
unfolding impact_loop
impact_step graph rounds b x rest e = not_empty b.queue b _ x rest e

module _ (graph : Graph) (root : String) where
  -- Between two rounds: what was taken from the queue and what waits in it is what was reported.
  record Between (queue : List Item) (visited : Visited) (results : List BfsNode) (b : Bfs)
      : Type 0 where
    waiting : b.queue ≡ item_names queue
    same_visited : b.visited_messages ≡ visited
    taken : b.dependent_impacted_schemas ++ item_names queue ≡ root ∷ names results

  take-Between :
      (level : ℕ) (queue : List Item) (visited : Visited) (results : List BfsNode) (b : Bfs)
      → Between queue visited results b
      → let s = round graph level queue visited results in
        Between s.next_queue s.visited s.results (take_level graph (length b.queue) b)
        × ((take_level graph (length b.queue) b).dependent_impacted_schemas ≡ root ∷ names results)
  unfolding round
  take-Between level queue visited results b h =
      let first : Search = record { visited = visited; results = results; next_queue = [] } in
      let s = foldl (visit_item graph level) first queue in
      let sizes : length queue ≡ length b.queue = sym (ap length h.waiting ∙ length-map queue) in
      let a : Agrees [] (b.dependent_impacted_schemas ++ item_names queue) s
          (take_level graph (length b.queue) b) =
        subst
          (λ n.
            Agrees [] (b.dependent_impacted_schemas ++ item_names queue) s (take_level graph n b))
          sizes
          (take_level-Agrees graph level queue b.dependent_impacted_schemas first b (record {
            queue = h.waiting ∙ sym (append-nil (item_names queue));
            visited = h.same_visited;
            out_eq = refl;
          })) in
      let out = a.out_eq ∙ h.taken in
      (
        record {
          waiting = a.queue;
          same_visited = a.visited;
          taken =
              ap (λ z. z ++ item_names s.next_queue) out
              ∙ ap (λ z. root ∷ z)
                  (sym (
                    visit_items-report graph level (names results) first queue
                      (sym (append-nil (names results)))));
        },
        out,
      )

  loops_agree :
      (rounds level : ℕ) (queue : List Item) (visited : Visited) (results : List BfsNode) (b : Bfs)
      → Between queue visited results b
      → (impact_loop graph (suc rounds) b).dependent_impacted_schemas
        ≡ root ∷ names (walk_loop graph rounds level queue visited results)
  unfolding impact_loop walk_loop
  loops_agree zero level [] visited results b h =
      rw (h.waiting, impact_loop) (sym (append-nil _) ∙ h.taken)
  loops_agree (suc rounds) level [] visited results b h =
      rw (h.waiting, impact_loop) (sym (append-nil _) ∙ h.taken)
  loops_agree zero level (cur ∷ queue) visited results b h =
      let (next, out) = take-Between (suc level) (cur ∷ queue) visited results b h in
      ap (λ z. z.dependent_impacted_schemas) (impact_step graph zero b _ _ h.waiting) ∙ out
  loops_agree (suc rounds) level (cur ∷ queue) visited results b h =
      let s = round graph (suc level) (cur ∷ queue) visited results in
      let (next, out) = take-Between (suc level) (cur ∷ queue) visited results b h in
      ap (λ z. z.dependent_impacted_schemas) (impact_step graph (suc rounds) b _ _ h.waiting)
      ∙ loops_agree rounds (suc level) s.next_queue s.visited s.results _ next

-- The types that the change detector reports as impacted up to a depth are the changed type and, in
-- the same order, what the lineage walk from it reports with that depth as its level: the changed
-- type stands before all other types within that many steps of it.
pub impacted-eq-walk :
    (graph : Graph) (root : String) (depth : ℕ)
    → get_dependent_impacted_schemas graph root depth ≡ root ∷ names (walk_lineage graph root depth)
unfolding get_dependent_impacted_schemas walk_lineage
impacted-eq-walk graph root depth =
    loops_agree graph root depth 0 (record { name = root; path = root ∷ [] } ∷ [])
      (mark (λ _. false) root) [] _ (record { waiting = refl; same_visited = refl; taken = refl })
