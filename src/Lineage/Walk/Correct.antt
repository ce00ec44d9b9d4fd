-- ===== src/Lineage/Walk/Correct.antt =====
-- The search reports exactly the types within the given number of steps, each once, at its
-- distance from the root, with a walk of that length.
use mathlib.Core.List.Memᴰ
use stencil.Base.{
  ℕ, zero, suc, ◌+◌, ◌≤◌, String, List, [], ◌∷◌, Memᴰ, true, false, ◌≡◌, refl, sym, subst, ◌⊎◌, inl,
  inr, arith,
}
use stencil.Lineage.Walk.{
  Graph, Visited, mark, BfsNode, Item, Search, round, walk_loop, walk_lineage,
}
use stencil.Lineage.Walk.Trail.{Trail, start, step, IsLineage}
use stencil.Lineage.Walk.Round.{
  item_names, Found, Middle, visit_items-Middle, items_mark, mark_self, mark_cases,
}

module _ (graph : Graph) (root : String) where
  -- What holds between two rounds.
  record Inv (level : ℕ) (queue : List Item) (visited : Visited) (results : List BfsNode)
      : Type 0 where
    found : Found graph root level visited results
    covered :
        (k : ℕ) (path : List String) (v : String)
        → Trail graph root k path v
        → k ≤ level
        → visited v ≡ true
    queued : (i : Item) → Memᴰ i queue → Trail graph root level i.path i.name
    frontier :
        (v : String)
        → visited v ≡ true
        → Memᴰ v (item_names queue) ⊎ ((w : String) → Memᴰ w (graph v) → visited w ≡ true)

  Found-later :
      {level later : ℕ} {visited : Visited} {results : List BfsNode}
      → level ≤ later
      → Found graph root level visited results
      → Found graph root later visited results
  Found-later le h = record {
    seen = h.seen;
    marked = h.marked;
    unique = h.unique;
    trails = λ n m. let (t, b) = h.trails n m in (t, omega arith);
    shortest = h.shortest;
  }

  module _ (level : ℕ) (queue : List Item) (visited : Visited) (results : List BfsNode) where
    abbrev after : Search
    after = round graph (suc level) queue visited results

    round-Middle : Inv level queue visited results → Middle graph root level visited after
    unfolding round
    round-Middle h =
        visit_items-Middle graph root level visited h.covered _ queue h.queued (record {
          found = Found-later (omega arith) h.found;
          grows = λ v m. m;
          fresh = λ v m. inl m;
          queued = λ i m. absurd (Memᴰ.not-nil m);
        })

    round_marks :
        (v w : String) → Memᴰ v (item_names queue) → Memᴰ w (graph v) → after.visited w ≡ true
    unfolding round
    round_marks v w m edge = items_mark graph (suc level) _ queue v w m edge

    -- A marked type has all its relations marked after the round.
    closed :
        Inv level queue visited results
        → (v w : String) → visited v ≡ true
        → Memᴰ w (graph v)
        → after.visited w ≡ true
    closed h v w m edge = elim (h.frontier v m) [
      | inl q ↦ round_marks v w q edge
      | inr all ↦ (round-Middle h).grows w (all w edge)
    ]

    covered_later :
        Inv level queue visited results
        → (k : ℕ) (path : List String) (v : String) → Trail graph root k path v
        → k ≤ suc level
        → after.visited v ≡ true
    covered_later h k path v start le =
        (round-Middle h).grows v (h.covered zero path v start (omega arith))
    covered_later h k path v (step {n} {path = p} {v = u} w t edge) le =
        closed h u v (h.covered n p u t (omega arith)) edge

    round-Inv :
        Inv level queue visited results
        → Inv (suc level) after.next_queue after.visited after.results
    round-Inv h = record {
      found = (round-Middle h).found;
      covered = covered_later h;
      queued = (round-Middle h).queued;
      frontier = λ v m. elim ((round-Middle h).fresh v m) [
        | inl old ↦ inr (λ w edge. closed h v w old edge)
        | inr new ↦ inl new
      ];
    }

  -- With an empty queue every walk is covered.
  covered_all :
      {level : ℕ} {visited : Visited} {results : List BfsNode}
      → Inv level [] visited results
      → {k : ℕ} {path : List String} {v : String} → Trail graph root k path v
      → visited v ≡ true
  covered_all h start = h.covered zero (root ∷ []) root start (omega arith)
  covered_all h (step {v = u} w t edge) = elim (h.frontier u (covered_all h t)) [
    | inl q ↦ absurd (Memᴰ.not-nil q)
    | inr all ↦ all w edge
  ]

  IsLineage-of_Found :
      {level : ℕ} {visited : Visited} {results : List BfsNode} (max_level : ℕ)
      → level ≤ max_level
      → Found graph root level visited results
      → ((k : ℕ) (path : List String) (v : String)
          → Trail graph root k path v
          → k ≤ max_level
          → visited v ≡ true)
      → IsLineage graph root max_level results
  IsLineage-of_Found max_level le h covered = record {
    trails = (Found-later le h).trails;
    shortest = h.shortest;
    complete = λ k path v t b. Memᴰ.cases_cons (h.seen v (covered k path v t b));
    unique = h.unique;
  }

  walk_loop-IsLineage :
      (max_level rounds level : ℕ) (queue : List Item) (visited : Visited) (results : List BfsNode)
      → level + rounds ≡ max_level
      → Inv level queue visited results
      → IsLineage graph root max_level (walk_loop graph rounds level queue visited results)
  unfolding walk_loop
  walk_loop-IsLineage max_level zero level queue visited results e h =
      IsLineage-of_Found max_level (omega arith) h.found
        (λ k path v t b. h.covered k path v t (omega arith))
  walk_loop-IsLineage max_level (suc rounds) level [] visited results e h =
      IsLineage-of_Found max_level (omega arith) h.found (λ k path v t b. covered_all h t)
  walk_loop-IsLineage max_level (suc rounds) level (cur ∷ queue) visited results e h =
      let s = round graph (suc level) (cur ∷ queue) visited results in
      walk_loop-IsLineage max_level rounds (suc level) s.next_queue s.visited s.results
        (omega arith) (round-Inv level (cur ∷ queue) visited results h)

  abbrev only_root : Visited
  only_root = mark (λ _. false) root

  only_root-eq : (v : String) → only_root v ≡ true → v ≡ root
  only_root-eq v m = elim (mark_cases (λ _. false) root v m) [ inl h ↦ absurd (cc) | inr e ↦ e ]

  root_marked : (v : String) → v ≡ root → only_root v ≡ true
  root_marked v e = subst (λ z. only_root z ≡ true) (sym e) (mark_self (λ _. false) root)

  first_covered :
      (k : ℕ) (path : List String) (v : String)
      → Trail graph root k path v
      → k ≤ 0
      → only_root v ≡ true
  first_covered k path v start le = root_marked v refl
  first_covered k path v (step w t edge) le = absurd (omega arith)

  first_queued :
      (i : Item)
      → Memᴰ i (record { name = root; path = root ∷ [] } ∷ [])
      → Trail graph root 0 i.path i.name
  first_queued i m =
      subst (λ z. Trail graph root 0 z.path z.name) (sym (Memᴰ.eq_of_singleton m)) start

  first-Inv : Inv 0 (record { name = root; path = root ∷ [] } ∷ []) only_root []
  first-Inv = record {
    found = record {
      seen = λ v m. Memᴰ.head (only_root-eq v m);
      marked = λ v m. root_marked v (Memᴰ.eq_of_singleton m);
      unique = ((λ m. absurd (Memᴰ.not-nil m)), tt);
      trails = λ n m. absurd (Memᴰ.not-nil m);
      shortest = λ n m. absurd (Memᴰ.not-nil m);
    };
    covered = first_covered;
    queued = first_queued;
    frontier = λ v m. inl (Memᴰ.head (only_root-eq v m));
  }

-- The walk from `root` in at most `max_level` steps finds exactly the other types that such a walk
-- reaches, each once, with the length of a shortest walk and a walk of that length.
pub walk_lineage-IsLineage :
    (graph : Graph) (root : String) (max_level : ℕ)
    → IsLineage graph root max_level (walk_lineage graph root max_level)
walk_lineage-IsLineage graph root max_level =
    unfold walk_lineage in
    walk_loop-IsLineage graph root max_level max_level 0 _ _ [] (omega arith) (first-Inv graph root)
