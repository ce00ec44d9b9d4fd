-- ===== src/Lineage/Deps/Edges.antt =====
-- The dependency maps hold exactly the fields' references, and are converse to one another.
use mathlib.Core.List.{foldl}
use mathlib.Core.List.Memᴰ
use stencil.Base.{
  String, List, [], ◌∷◌, Memᴰ, Option, none, some, ◌≡◌, refl, sym, subst, ap, ◌⊎◌, inl, inr, ◌↔◌,
  str_eq, eq_iff, Bool-cases,
}
use stencil.Descriptors.{
  FieldDescriptorProto, DescriptorProto, DescriptorProtos, no_messages, message_with,
  FileDescriptorProto, FileDescriptorSet,
}
use stencil.Lineage.Walk.{Graph}
use stencil.Lineage.Deps.{
  qualify, dependency, add_edge, Maps, add_found, add_dependency, build_deps_from_msgs,
  build_deps_from_file, build_dependency_maps,
}

-- The message `msg` has the full name `fqn` under `prefix`.
pub data Declares : String → DescriptorProtos → String → DescriptorProto → Type 0 where
  here :
      {prefix : String} {msg : DescriptorProto} {nested rest : DescriptorProtos}
      → Declares prefix (message_with msg nested rest) (qualify prefix msg.name) msg
  deeper :
      {prefix fqn : String} {msg m : DescriptorProto} {nested rest : DescriptorProtos}
      → Declares (qualify prefix msg.name) nested fqn m
      → Declares prefix (message_with msg nested rest) fqn m
  later :
      {prefix fqn : String} {msg m : DescriptorProto} {nested rest : DescriptorProtos}
      → Declares prefix rest fqn m
      → Declares prefix (message_with msg nested rest) fqn m

-- A field of the message refers to the type `dep`.
abbrev pub Refers : List FieldDescriptorProto → String → Type 0
Refers fields dep = (f : FieldDescriptorProto) × Memᴰ f fields × (dependency f.type_name ≡ some dep)

-- A message of the set with the full name `fqn`, nested ones included, has a field of type `dep`.
abbrev pub DependsOn : FileDescriptorSet → String → String → Type 0
DependsOn fds fqn dep =
    (fd : FileDescriptorProto) × Memᴰ fd fds
    × ((m : DescriptorProto) × Declares fd.package_name fd.message_types fqn m
        × Refers m.fields dep)

pub mem-add_edge :
    (g : Graph) (k v a b : String)
    → Memᴰ b (add_edge g k v a) ↔ (Memᴰ b (g a) ⊎ ((a ≡ k) × (b ≡ v)))
unfolding add_edge
mem-add_edge g k v a b = elim (Bool-cases (str_eq a k)) [
  | inl same ↦
      let e = (eq_iff a k).0 same in
      rw same (
        (λ m. elim (Memᴰ.append_cases (g k) m) [
          | inl old ↦ inl (subst (λ z. Memᴰ b (g z)) (sym e) old)
          | inr last ↦ inr (e, Memᴰ.eq_of_singleton last)
        ]),
        (λ h. elim h [
          | inl old ↦ Memᴰ.append_left _ (subst (λ z. Memᴰ b (g z)) e old)
          | inr (_, last) ↦ Memᴰ.append_right (g k) (Memᴰ.head last)
        ]),
      )
  | inr other ↦
      rw other (inl, (λ h. elim h [ inl old ↦ old | inr (e, _) ↦ absurd (cc ((eq_iff a k).1 e)) ]))
]

-- What both maps say of a pair.
record Holds (maps : Maps) (P : String → String → Type 0) : Type 0 where
  forward : (a b : String) → Memᴰ b (maps.forward_deps a) ↔ P a b
  backward : (a b : String) → Memᴰ a (maps.reverse_deps b) ↔ P a b

iff_trans : {A B C : Type 0} → A ↔ B → B ↔ C → A ↔ C
iff_trans f g = (λ a. g.0 (f.0 a), λ c. f.1 (g.1 c))

-- `step` adds the pairs `Q` to both maps.
record Adds (Q : String → String → Type 0) (step : Maps → Maps) : Type 1 where
  adds :
      (maps : Maps) (P : String → String → Type 0)
      → Holds maps P
      → Holds (step maps) (λ a b. P a b ⊎ Q a b)

Holds-iff :
    {maps : Maps} {P Q : String → String → Type 0}
    → ((a b : String) → P a b ↔ Q a b)
    → Holds maps P
    → Holds maps Q
Holds-iff e h = record {
  forward = λ a b. iff_trans (h.forward a b) (e a b);
  backward = λ a b. iff_trans (h.backward a b) (e a b);
}

⊎_assoc : {A B C : Type 0} → ((A ⊎ B) ⊎ C) ↔ (A ⊎ (B ⊎ C))
⊎_assoc = (
  λ h. elim h [ inl (inl a) ↦ inl a | inl (inr b) ↦ inr (inl b) | inr c ↦ inr (inr c) ],
  λ h. elim h [ inl a ↦ inl (inl a) | inr (inl b) ↦ inl (inr b) | inr (inr c) ↦ inr c ],
)

⊎_right : {A B C : Type 0} → B ↔ C → (A ⊎ B) ↔ (A ⊎ C)
⊎_right f = (
  λ h. elim h [ inl a ↦ inl a | inr b ↦ inr (f.0 b) ],
  λ h. elim h [ inl a ↦ inl a | inr c ↦ inr (f.1 c) ],
)

⊎_left : {A B C : Type 0} → A ↔ B → (A ⊎ C) ↔ (B ⊎ C)
⊎_left f = (
  λ h. elim h [ inl a ↦ inl (f.0 a) | inr b ↦ inr b ],
  λ h. elim h [ inl a ↦ inl (f.1 a) | inr c ↦ inr c ],
)

Adds-iff :
    {Q : String → String → Type 0} (R : String → String → Type 0) (step : Maps → Maps)
    → ((a b : String) → Q a b ↔ R a b)
    → Adds Q step
    → Adds R step
Adds-iff R step e h = record {
  adds = λ maps P holds. Holds-iff (λ a b. ⊎_right (e a b)) (h.adds maps P holds);
}

Adds-then :
    {Q R : String → String → Type 0} (f g : Maps → Maps)
    → Adds Q f
    → Adds R g
    → Adds (λ a b. Q a b ⊎ R a b) (λ maps. g (f maps))
Adds-then f g hf hg = record {
  adds = λ maps P holds. Holds-iff (λ a b. ⊎_assoc) (hg.adds (f maps) _ (hf.adds maps P holds));
}

Adds-none : (Q : String → String → Type 0) → ((a b : String) → Q a b → ⊥) → Adds Q (λ maps. maps)
Adds-none Q never = record {
  adds = λ maps P holds.
      Holds-iff (λ a b. (inl, λ h. elim h [ inl p ↦ p | inr q ↦ absurd (never a b q) ])) holds;
}

Adds-foldl :
    {A : Type 0} (Q : A → String → String → Type 0) (body : Maps → A → Maps)
    → ((x : A) → Adds (Q x) (λ maps. body maps x))
    → (xs : List A) → Adds (λ a b. (x : A) × Memᴰ x xs × Q x a b) (λ maps. foldl body maps xs)
Adds-foldl Q body h [] = Adds-none _ (λ a b e. Memᴰ.not-nil e.1)
Adds-foldl Q body h (x ∷ xs) =
    Adds-iff _ _
      (λ a b. (
        (λ c. elim c [ inl q ↦ (x, Memᴰ.head refl, q) | inr (y, m, q) ↦ (y, Memᴰ.tail m, q) ]),
        (λ (y, m, q). elim (Memᴰ.cases_cons m) [
          | inl e ↦ inl (subst (λ z. Q z a b) e q)
          | inr t ↦ inr (y, t, q)
        ]),
      ))
      (Adds-then (λ maps. body maps x) (λ maps. foldl body maps xs) (h x) (Adds-foldl Q body h xs))

-- Both maps get the same edge.
Holds-add_edge :
    (fqn dep : String) (maps : Maps) (P : String → String → Type 0)
    → Holds maps P
    → Holds
        (record {
          forward_deps = add_edge maps.forward_deps fqn dep;
          reverse_deps = add_edge maps.reverse_deps dep fqn;
        })
        (λ a b. P a b ⊎ ((a ≡ fqn) × (b ≡ dep)))
Holds-add_edge fqn dep maps P h = record {
  forward = λ a b. iff_trans (mem-add_edge maps.forward_deps fqn dep a b) (⊎_left (h.forward a b));
  backward = λ a b.
      iff_trans (mem-add_edge maps.reverse_deps dep fqn b a)
        (iff_trans (⊎_left (h.backward a b)) (⊎_right ((λ p. (p.1, p.0)), (λ p. (p.1, p.0)))));
}

Adds-add_found :
    (fqn : String) (found : Option String)
    → Adds (λ a b. (a ≡ fqn) × (found ≡ some b)) (λ maps. add_found fqn maps found)
unfolding add_found
Adds-add_found fqn none = Adds-none _ (λ a b q. absurd (cc q.1))
Adds-add_found fqn (some dep) = record {
  adds = λ maps P h.
      Holds-iff (λ a b. ⊎_right ((λ q. (q.0, ap some (sym q.1))), (λ q. (q.0, cc q.1))))
        (Holds-add_edge fqn dep maps P h);
}

Adds-add_dependency :
    (fqn : String) (f : FieldDescriptorProto)
    → Adds
        (λ a b. (a ≡ fqn) × (dependency f.type_name ≡ some b))
        (λ maps. add_dependency fqn maps f)
unfolding add_dependency
Adds-add_dependency fqn f = Adds-add_found fqn (dependency f.type_name)

Declares-cases :
    {prefix : String} {msg m : DescriptorProto} {nested rest : DescriptorProtos} {fqn : String}
    → Declares prefix (message_with msg nested rest) fqn m
    → ((fqn ≡ qualify prefix msg.name) × (m ≡ msg))
      ⊎ (Declares (qualify prefix msg.name) nested fqn m ⊎ Declares prefix rest fqn m)
Declares-cases here = inl (refl, refl)
Declares-cases (deeper d) = inr (inl d)
Declares-cases (later d) = inr (inr d)

not-Declares : {prefix fqn : String} {m : DescriptorProto} → Declares prefix no_messages fqn m → ⊥
not-Declares d = elim d [ ]

Adds-build_deps_from_msgs :
    (prefix : String) (msgs : DescriptorProtos)
    → Adds
        (λ a b. (m : DescriptorProto) × Declares prefix msgs a m × Refers m.fields b)
        (build_deps_from_msgs prefix msgs)
unfolding build_deps_from_msgs
Adds-build_deps_from_msgs prefix no_messages = Adds-none _ (λ a b e. not-Declares e.1)
Adds-build_deps_from_msgs prefix (message_with msg nested rest) =
    let fqn = qualify prefix msg.name in
    Adds-iff _ _
      (λ a b. (
        (λ h. elim h [
          | inl (inl (f, i, (e, r))) ↦ (
            msg,
            subst (λ z. Declares prefix (message_with msg nested rest) z msg) (sym e) here,
            (f, i, r),
          )
          | inl (inr (m, d, r)) ↦ (m, deeper d, r)
          | inr (m, d, r) ↦ (m, later d, r)
        ]),
        (λ (m, d, r). elim (Declares-cases d) [
          | inl (e, e') ↦
              let (f, i, q) = subst (λ z. Refers z.fields b) e' r in inl (inl (f, i, (e, q)))
          | inr (inl d') ↦ inl (inr (m, d', r))
          | inr (inr d') ↦ inr (m, d', r)
        ]),
      ))
      (Adds-then _ _
        (Adds-then _ _ (Adds-foldl _ (add_dependency fqn) (Adds-add_dependency fqn) msg.fields)
          (Adds-build_deps_from_msgs fqn nested))
        (Adds-build_deps_from_msgs prefix rest))

-- Of a schema's messages, nested ones included: the forward map leads from `a` to `b` exactly if a
-- message named `a` has a field of type `b`, and the reverse map holds the same pairs turned round.
pub dependency_maps_hold :
    (fds : FileDescriptorSet) (a b : String)
    → (Memᴰ b ((build_dependency_maps fds).forward_deps a) ↔ DependsOn fds a b)
      × (Memᴰ a ((build_dependency_maps fds).reverse_deps b) ↔ DependsOn fds a b)
unfolding build_dependency_maps
dependency_maps_hold fds a b =
    let both =
      (Adds-foldl _ build_deps_from_file
          (λ fd. Adds-build_deps_from_msgs fd.package_name fd.message_types) fds).adds
        _ _ no_edges in
    (iff_trans (both.forward a b) drop, iff_trans (both.backward a b) drop)
  where
    no_edges : Holds (record { forward_deps = λ _. []; reverse_deps = λ _. [] }) (λ _ _. ⊥)
    no_edges = record {
      forward = λ _ _. (Memᴰ.not-nil, absurd);
      backward = λ _ _. (Memᴰ.not-nil, absurd);
    }

    drop : {A : Type 0} → (⊥ ⊎ A) ↔ A
    drop = (λ h. elim h [ inl b ↦ absurd b | inr x ↦ x ], inr)
