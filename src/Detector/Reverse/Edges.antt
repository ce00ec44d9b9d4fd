-- ===== src/Detector/Reverse/Edges.antt =====
-- Which pairs the reverse dependencies of the change detector hold.
use mathlib.Core.List.{foldl}
use mathlib.Core.List.Memᴰ
use mathlib.Core.Option.{some-injective}
use stencil.Base.{
  String, List, [], ◌∷◌, Memᴰ, some, ◌≡◌, refl, sym, subst, ap, ◌⊎◌, inl, inr, ◌↔◌, Option-cases,
}
use stencil.Descriptors.{
  FieldDescriptorProto, DescriptorProto, FileDescriptorProto, FileDescriptorSet,
}
use stencil.Lineage.Walk.{Graph}
use stencil.Lineage.Deps.{qualify, dependency}
use stencil.Lineage.Deps.Edges.{Refers, mem-add_edge}
use stencil.Detector.Reverse.{
  get_message_type, add_field, add_message, add_file, get_reverse_dependencies,
}

-- A message of a file, not nested in another, has the full name `fqn` and a field of type `dep`.
abbrev pub UsesDirectly : FileDescriptorSet → String → String → Type 0
UsesDirectly fds fqn dep =
    (fd : FileDescriptorProto) × Memᴰ fd fds
    × ((m : DescriptorProto) × Memᴰ m (get_message_type fd.message_types)
        × (Refers m.fields dep × (fqn ≡ qualify fd.package_name m.name)))

-- A fold whose step adds `Q x` adds `Q` of some element.
module _ (a b : String) {X : Type 0} (step : Graph → X → Graph) (Q : X → Type 0) where
  mem-foldl :
      ((g : Graph) (x : X) → Memᴰ a (step g x b) ↔ (Memᴰ a (g b) ⊎ Q x))
      → (xs : List X) (g : Graph)
      → Memᴰ a (foldl step g xs b) ↔ (Memᴰ a (g b) ⊎ ((x : X) × Memᴰ x xs × Q x))
  mem-foldl h [] g = (inl, λ e. elim e [ inl m ↦ m | inr (x, i, _) ↦ absurd (Memᴰ.not-nil i) ])
  mem-foldl h (x ∷ xs) g =
      let rest = mem-foldl h xs (step g x) in
      let first = h g x in
      (
        λ m. elim (rest.0 m) [
          | inl m' ↦ elim (first.0 m') [ inl old ↦ inl old | inr q ↦ inr (x, Memᴰ.head refl, q) ]
          | inr (y, i, q) ↦ inr (y, Memᴰ.tail i, q)
        ],
        λ e. elim e [
          | inl old ↦ rest.1 (inl (first.1 (inl old)))
          | inr (y, i, q) ↦ elim (Memᴰ.cases_cons i) [
            | inl same ↦ rest.1 (inl (first.1 (inr (subst Q same q))))
            | inr i' ↦ rest.1 (inr (y, i', q))
          ]
        ],
      )

module _ (a b : String) where
  mem-add_field :
      (name : String) (g : Graph) (f : FieldDescriptorProto)
      → Memᴰ a (add_field name g f b)
        ↔ (Memᴰ a (g b) ⊎ ((dependency f.type_name ≡ some b) × (a ≡ name)))
  unfolding add_field
  mem-add_field name g f = elim (Option-cases (dependency f.type_name)) [
    | inl e ↦ rw (e, add_field) (inl, λ h. elim h [ inl m ↦ m | inr (k, _) ↦ absurd (cc (k)) ])
    | inr (dep, e) ↦
        let edge = mem-add_edge g dep name b a in
        rw (e, add_field)
          (
            λ m. elim (edge.0 m) [ inl m' ↦ inl m' | inr (k, l) ↦ inr (ap some (sym k), l) ],
            λ h. elim h [
              | inl m ↦ edge.1 (inl m)
              | inr (k, l) ↦ edge.1 (inr (sym (some-injective _ _ k), l))
            ],
          )
  ]

  mem-add_message :
      (pkg : String) (g : Graph) (m : DescriptorProto)
      → Memᴰ a (add_message pkg g m b)
        ↔ (Memᴰ a (g b) ⊎ (Refers m.fields b × (a ≡ qualify pkg m.name)))
  unfolding add_message
  mem-add_message pkg g m =
      let h = mem-foldl a b _ _ (mem-add_field (qualify pkg m.name)) m.fields g in
      (
        λ i. elim (h.0 i) [ inl o ↦ inl o | inr (f, j, (k, l)) ↦ inr ((f, j, k), l) ],
        λ e. h.1 (elim e [ inl o ↦ inl o | inr ((f, j, k), l) ↦ inr (f, j, (k, l)) ]),
      )

-- The reverse dependencies lead from a type to the full names of exactly the messages of the
-- files that have a field of that type; messages nested in others are left out.
pub reverse_dependencies_hold :
    (fds : FileDescriptorSet) (a b : String)
    → Memᴰ a (get_reverse_dependencies fds b) ↔ UsesDirectly fds a b
unfolding get_reverse_dependencies add_file
reverse_dependencies_hold fds a b =
    let file = λ (g : Graph) (fd : FileDescriptorProto).
      mem-foldl a b (add_message fd.package_name) _ (mem-add_message a b fd.package_name)
        (get_message_type fd.message_types) g in
    let h = mem-foldl a b add_file _ file fds (λ _. []) in
    (λ i. elim (h.0 i) [ inl o ↦ absurd (Memᴰ.not-nil o) | inr r ↦ r ], λ r. h.1 (inr r))
