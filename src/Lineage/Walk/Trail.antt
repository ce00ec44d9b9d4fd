-- ===== src/Lineage/Walk/Trail.antt =====
-- Walks in a dependency graph, with their lengths and the names that they pass.
use stencil.Base.{ℕ, zero, suc, String, List, [], ◌∷◌, ◌++◌, Memᴰ, ◌≡◌, ◌⊎◌, ◌≤◌, map}
use stencil.Lineage.Walk.{Graph, BfsNode}

pub data Trail (graph : Graph) (root : String) : ℕ → List String → String → Type 0 where
  start : Trail graph root zero (root ∷ []) root
  step :
      {n : ℕ} {path : List String} {v : String} (w : String)
      → Trail graph root n path v
      → Memᴰ w (graph v)
      → Trail graph root (suc n) (path ++ w ∷ []) w

-- No name twice.
abbrev pub Unique : List String → Type 0
Unique [] = Unit
Unique (x ∷ xs) = (Memᴰ x xs → ⊥) × Unique xs

abbrev pub names : List BfsNode → List String
names nodes = map (λ (n : BfsNode). n.fqn) nodes

-- What a walk up to `max_level` must report.
pub record IsLineage (graph : Graph) (root : String) (max_level : ℕ) (nodes : List BfsNode)
    : Type 0 where
  pub trails :
      (n : BfsNode) → Memᴰ n nodes → Trail graph root n.level n.path n.fqn × (n.level ≤ max_level)
  pub shortest :
      (n : BfsNode)
      → Memᴰ n nodes
      → (k : ℕ) (path : List String) → Trail graph root k path n.fqn
      → n.level ≤ k
  pub complete :
      (k : ℕ) (path : List String) (v : String)
      → Trail graph root k path v
      → k ≤ max_level
      → (v ≡ root) ⊎ Memᴰ v (names nodes)
  pub unique : Unique (root ∷ names nodes)
