-- ===== src/Formats/Protobuf/Names.antt =====
-- The names that a schema is searched by (getAllMessages and getAllFields of
-- formats/protobuf/utils.go).
use mathlib.Core.Path.{fun_ext}
use mathlib.Core.List.Memᴰ
use mathlib.Core.List.{append_assoc, append-nil}
use stencil.Base.{
  ◌≡◌, refl, sym, ap, subst, ◌∙◌, ◌⊎◌, inl, inr, ◌↔◌, String, List, [], ◌∷◌, ◌++◌, map, Memᴰ, true,
}
use stencil.Formats.Protobuf.Descriptor.{
  MessageDescriptor, MessageDescriptors, no_messages, message_with, FieldDescriptor, FileDescriptor,
  Files,
}
use stencil.Formats.Protobuf.Walk.{
  for_each_message, for_each_field, range_files, get_message_from_file, get_fields_from_file,
  get_all_messages, get_all_fields,
}
use stencil.Formats.Protobuf.Compare.Schemas.{Within, here, deeper, later}

-- The messages nested at any depth of which `x` is a name.
abbrev Named : (MessageDescriptor → List String) → MessageDescriptors → String → Type 0
Named g ms x = (m : MessageDescriptor) × Within m ms × Memᴰ x (g m)

module _ (g : MessageDescriptor → List String) where
  abbrev collect : MessageDescriptors → List String → List String
  collect = for_each_message (λ msg names. (true, names ++ g msg))

  mem-collect :
      (ms : MessageDescriptors) (acc : List String) (x : String)
      → Memᴰ x (collect ms acc)
      → Memᴰ x acc ⊎ Named g ms x
  unfolding for_each_message
  mem-collect no_messages acc x m = inl m
  mem-collect (message_with msg nested rest) acc x m =
      elim (mem-collect rest (collect nested (acc ++ g msg)) x m) [
        | inr (k, w, i) ↦ inr (k, later w, i)
        | inl m' ↦ elim (mem-collect nested (acc ++ g msg) x m') [
          | inr (k, w, i) ↦ inr (k, deeper w, i)
          | inl m'' ↦ elim (Memᴰ.append_cases acc m'') [
            | inl old ↦ inl old
            | inr new ↦ inr (msg, here refl, new)
          ]
        ]
      ]

  collect_keeps :
      (ms : MessageDescriptors) (acc : List String) (x : String)
      → Memᴰ x acc
      → Memᴰ x (collect ms acc)
  unfolding for_each_message
  collect_keeps no_messages acc x m = m
  collect_keeps (message_with msg nested rest) acc x m =
      collect_keeps rest _ x (collect_keeps nested _ x (Memᴰ.append_left _ m))

  collect_finds :
      (ms : MessageDescriptors) (acc : List String) (x : String) (k : MessageDescriptor)
      → Within k ms
      → Memᴰ x (g k)
      → Memᴰ x (collect ms acc)
  unfolding for_each_message
  collect_finds no_messages acc x k w i = elim w [ ]
  collect_finds (message_with msg nested rest) acc x k (here e) i =
      collect_keeps rest _ x
        (collect_keeps nested _ x (Memᴰ.append_right acc (subst (λ z. Memᴰ x (g z)) e i)))
  collect_finds (message_with msg nested rest) acc x k (deeper w) i =
      collect_keeps rest _ x (collect_finds nested _ x k w i)
  collect_finds (message_with msg nested rest) acc x k (later w) i = collect_finds rest _ x k w i

module _ (g : FileDescriptor → List String) where
  abbrev gather : List FileDescriptor → List String → List String
  gather = range_files (λ fd names. names ++ g fd)

  mem-gather :
      (fds : List FileDescriptor) (acc : List String) (x : String)
      → Memᴰ x (gather fds acc)
      → Memᴰ x acc ⊎ ((fd : FileDescriptor) × Memᴰ fd fds × Memᴰ x (g fd))
  unfolding range_files
  mem-gather [] acc x m = inl m
  mem-gather (fd ∷ fds) acc x m = elim (mem-gather fds (acc ++ g fd) x m) [
    | inr (k, i, j) ↦ inr (k, Memᴰ.tail i, j)
    | inl m' ↦ elim (Memᴰ.append_cases acc m') [
      | inl old ↦ inl old
      | inr new ↦ inr (fd, Memᴰ.head refl, new)
    ]
  ]

  gather_keeps :
      (fds : List FileDescriptor) (acc : List String) (x : String)
      → Memᴰ x acc
      → Memᴰ x (gather fds acc)
  unfolding range_files
  gather_keeps [] acc x m = m
  gather_keeps (fd ∷ fds) acc x m = gather_keeps fds _ x (Memᴰ.append_left _ m)

  gather_finds :
      (fds : List FileDescriptor) (acc : List String) (x : String) (k : FileDescriptor)
      → Memᴰ k fds
      → Memᴰ x (g k)
      → Memᴰ x (gather fds acc)
  unfolding range_files
  gather_finds [] acc x k m i = absurd (Memᴰ.not-nil m)
  gather_finds (fd ∷ fds) acc x k m i = elim (Memᴰ.cases_cons m) [
    | inl e ↦ gather_keeps fds _ x (Memᴰ.append_right acc (subst (λ z. Memᴰ x (g z)) e i))
    | inr t ↦ gather_finds fds _ x k t i
  ]

-- The messages of a schema of which `x` is a name.
abbrev pub NamedIn : (MessageDescriptor → List String) → Files → String → Type 0
NamedIn g s x =
    (fd : FileDescriptor) × Memᴰ fd s.range_files
    × (m : MessageDescriptor) × Within m fd.messages
    × Memᴰ x (g m)

module _ (g : MessageDescriptor → List String) (names : FileDescriptor → List String) where
  mem-names :
      ((fd : FileDescriptor) → names fd ≡ collect g fd.messages [])
      → (s : Files) (x : String) → Memᴰ x (gather names s.range_files []) ↔ NamedIn g s x
  mem-names e s x = (
    λ m. elim (mem-gather names s.range_files [] x m) [
      | inl nothing ↦ absurd (Memᴰ.not-nil nothing)
      | inr (fd, i, j) ↦ elim (mem-collect g fd.messages [] x (subst (Memᴰ x) (e fd) j)) [
        | inl nothing ↦ absurd (Memᴰ.not-nil nothing)
        | inr (k, w, l) ↦ (fd, i, k, w, l)
      ]
    ],
    λ (fd, i, k, w, l).
        gather_finds names s.range_files [] x fd i
          (subst (Memᴰ x) (sym (e fd)) (collect_finds g fd.messages [] x k w l)),
  )

for_each_field-eq-map :
    (fields : List FieldDescriptor) (acc : List String)
    → for_each_field (λ fd names. (true, names ++ fd.full_name ∷ [])) fields acc
      ≡ acc ++ map (λ (f : FieldDescriptor). f.full_name) fields
unfolding for_each_field
for_each_field-eq-map [] acc = sym (append-nil acc)
for_each_field-eq-map (f ∷ fields) acc =
    for_each_field-eq-map fields (acc ++ f.full_name ∷ []) ∙ append_assoc acc _ _

-- The types of a schema are exactly the full names of its messages, and its fields exactly the
-- full names of the fields of its messages, nested messages included.
pub search_names :
    (s : Files) (x : String)
    → (Memᴰ x (get_all_messages s) ↔ NamedIn (λ m. m.full_name ∷ []) s x)
      × (Memᴰ x (get_all_fields s) ↔ NamedIn (λ m. map (λ f. f.full_name) m.fields) s x)
unfolding get_all_messages get_message_from_file get_all_fields get_fields_from_file
search_names s x = (
  mem-names (λ m. m.full_name ∷ []) get_message_from_file (λ fd. refl) s x,
  mem-names (λ m. map (λ f. f.full_name) m.fields) get_fields_from_file
      (λ fd.
        ap (λ f. for_each_message f fd.messages [])
          (fun_ext
            λ msg. fun_ext λ acc. ap (λ r. (true, r)) (for_each_field-eq-map msg.fields acc)))
      s x,
)
