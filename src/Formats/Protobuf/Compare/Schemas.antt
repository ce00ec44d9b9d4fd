-- ===== src/Formats/Protobuf/Compare/Schemas.antt =====
-- The comparison of two whole schemas (compareSchemas of formats/protobuf/compatibility.go).
use mathlib.Core.List.Memᴰ
use stencil.Base.{
  ◌≡◌, refl, sym, subst, ◌⊎◌, ◌↔◌, ◌∷◌, [], List, Bool, true, false, Option, none, some, Memᴰ, inl,
  inr, arith,
}
use stencil.Formats.Protobuf.Descriptor.{
  MessageDescriptor, MessageDescriptors, no_messages, message_with, EnumDescriptor, FileDescriptor,
  Files, Printer,
}
use stencil.Formats.Protobuf.Walk.{
  for_each_message, each_enum, for_each_enum, range_files, get_message, get_enum,
}
use stencil.Formats.Protobuf.Diff.{
  DiffKind, message_delete, enum_delete, contains, CompatibilityErr, is_empty,
}
use stencil.Formats.Protobuf.Compare.{
  visit_message, visit_enum, visit_file, compare_schemas, compare_messages, compare_syntax,
  compare_enums,
}
use stencil.Formats.Protobuf.Compare.Rules.{
  Checks, Checks-add, Checks-then, Checks-iff, Checks-ext, Checks-lookup,
}
use stencil.Formats.Protobuf.Compare.Fields.{MessageCompatible, compare_messages-Checks}
use stencil.Formats.Protobuf.Compare.Enums.{EnumCompatible, compare_enums-Checks}

-- A message of a file, at any depth of nesting.
pub data Within (m : MessageDescriptor) : MessageDescriptors → Type 0 where
  here :
      {msg : MessageDescriptor} {nested rest : MessageDescriptors}
      → m ≡ msg
      → Within m (message_with msg nested rest)
  deeper :
      {msg : MessageDescriptor} {nested rest : MessageDescriptors}
      → Within m nested
      → Within m (message_with msg nested rest)
  later :
      {msg : MessageDescriptor} {nested rest : MessageDescriptors}
      → Within m rest
      → Within m (message_with msg nested rest)

-- An enum of a file, at the top or in a message at any depth.
abbrev pub HasEnum : EnumDescriptor → FileDescriptor → Type 0
HasEnum e fd = Memᴰ e fd.enums ⊎ ((m : MessageDescriptor) × Within m fd.messages × Memᴰ e m.enums)

-- The message of this name is there and agrees, or it is gone and may be.
abbrev pub MessageOutcome : List DiffKind → MessageDescriptor → Option MessageDescriptor → Type 0
MessageOutcome na prev found = elim found [
  | none ↦ contains message_delete na ≡ false
  | some msg ↦ MessageCompatible na msg prev
]

abbrev pub MessageKept : List DiffKind → Files → MessageDescriptor → Type 0
MessageKept na current prev = MessageOutcome na prev (get_message current prev.full_name)

abbrev pub EnumOutcome : List DiffKind → EnumDescriptor → Option EnumDescriptor → Type 0
EnumOutcome na prev found = elim found [
  | none ↦ contains enum_delete na ≡ false
  | some e ↦ EnumCompatible na e prev
]

abbrev pub EnumKept : List DiffKind → Files → EnumDescriptor → Type 0
EnumKept na current prev = EnumOutcome na prev (get_enum current prev.full_name)

-- Every message and every enum of the previous schema is kept as far as `na` demands.
pub record Compatible (na : List DiffKind) (current prev : Files) : Type 0 where
  pub messages :
      (fd : FileDescriptor)
      → Memᴰ fd prev.range_files
      → (m : MessageDescriptor) → Within m fd.messages
      → MessageKept na current m
  pub enums :
      (fd : FileDescriptor)
      → Memᴰ fd prev.range_files
      → (e : EnumDescriptor) → HasEnum e fd
      → EnumKept na current e

within_cases :
    (P : MessageDescriptor → Type 0) {msg : MessageDescriptor} {nested rest : MessageDescriptors}
    → P msg
    → ((m : MessageDescriptor) → Within m nested → P m)
    → ((m : MessageDescriptor) → Within m rest → P m)
    → {m : MessageDescriptor} → Within m (message_with msg nested rest)
    → P m
within_cases P a b c (here e) = subst P (sym e) a
within_cases P a b c {m} (deeper w) = b m w
within_cases P a b c {m} (later w) = c m w

module _ (na : List DiffKind) where
  Checks-for_each_message :
      (P : MessageDescriptor → Type 0)
      (visit : MessageDescriptor → CompatibilityErr → Bool × CompatibilityErr)
      → ((m : MessageDescriptor) (c : CompatibilityErr) → (visit m c).0 ≡ true)
      → ((m : MessageDescriptor) → Checks na (P m) (λ c. (visit m c).1))
      → (ms : MessageDescriptors)
      → Checks na ((m : MessageDescriptor) → Within m ms → P m) (for_each_message visit ms)
  unfolding for_each_message
  Checks-for_each_message P visit go h no_messages = record {
    keeps = λ c e. e;
    sound = λ c e d. (d, λ m w. elim w [ ]);
    complete = λ c e d p. d;
  }
  Checks-for_each_message P visit go h (message_with msg nested rest) =
      Checks-ext na (λ c. rw (go msg c))
        (Checks-iff na _ (λ p m w. within_cases P p.0.0 p.0.1 p.1 w)
          (λ p. ((p msg (here refl), λ m w. p m (deeper w)), λ m w. p m (later w)))
          (Checks-then na (Checks-then na (h msg) (Checks-for_each_message P visit go h nested))
            (Checks-for_each_message P visit go h rest)))

  module _ (P : EnumDescriptor → Type 0)
      (visit : EnumDescriptor → CompatibilityErr → Bool × CompatibilityErr)
      (go : (e : EnumDescriptor) (c : CompatibilityErr) → (visit e c).0 ≡ true)
      (h : (e : EnumDescriptor) → Checks na (P e) (λ c. (visit e c).1)) where
    Checks-each_enum :
        (es : List EnumDescriptor)
        → Checks na ((e : EnumDescriptor) → Memᴰ e es → P e) (each_enum visit es)
    unfolding each_enum
    Checks-each_enum [] = record {
      keeps = λ c e. e;
      sound = λ c e d. (d, λ x m. absurd (Memᴰ.not-nil m));
      complete = λ c e d p. d;
    }
    Checks-each_enum (e ∷ es) =
        Checks-ext na (λ c. rw (go e c))
          (Checks-iff na _
            (λ p x m. elim (Memᴰ.cases_cons m) [
              | inl same ↦ subst P (sym same) p.0
              | inr t ↦ p.1 x t
            ])
            (λ p. (p e (Memᴰ.head refl), λ x m. p x (Memᴰ.tail m)))
            (Checks-then na (h e) (Checks-each_enum es)))

    Checks-for_each_enum :
        (fd : FileDescriptor)
        → Checks na ((e : EnumDescriptor) → HasEnum e fd → P e) (for_each_enum visit fd)
    unfolding for_each_enum
    Checks-for_each_enum fd =
        Checks-iff na _
          (λ p e has. elim has [ inl top ↦ p.0 e top | inr (m, w, inside) ↦ p.1 m w e inside ])
          (λ p. ((λ e top. p e (inl top)), (λ m w e inside. p e (inr (m, w, inside)))))
          (Checks-then na (Checks-each_enum fd.enums) (
            Checks-for_each_message (λ m. (e : EnumDescriptor) → Memᴰ e m.enums → P e)
              (λ msg t. (true, each_enum visit msg.enums t)) (λ m c. refl)
              (λ m. Checks-each_enum m.enums) fd.messages))

  Checks-range_files :
      (P : FileDescriptor → Type 0) (visit : FileDescriptor → CompatibilityErr → CompatibilityErr)
      → ((fd : FileDescriptor) → Checks na (P fd) (visit fd))
      → (fds : List FileDescriptor)
      → Checks na ((fd : FileDescriptor) → Memᴰ fd fds → P fd) (range_files visit fds)
  unfolding range_files
  Checks-range_files P visit h [] = record {
    keeps = λ c e. e;
    sound = λ c e d. (d, λ x m. absurd (Memᴰ.not-nil m));
    complete = λ c e d p. d;
  }
  Checks-range_files P visit h (fd ∷ fds) =
      Checks-iff na _
        (λ p x m. elim (Memᴰ.cases_cons m) [ inl same ↦ subst P (sym same) p.0 | inr t ↦ p.1 x t ])
        (λ p. (p fd (Memᴰ.head refl), λ x m. p x (Memᴰ.tail m)))
        (Checks-then na (h fd) (Checks-range_files P visit h fds))

module _ (p : Printer) (current : Files) where
  visit_message-goes_on :
      (m : MessageDescriptor) (c : CompatibilityErr) → (visit_message p current m c).0 ≡ true
  unfolding visit_message
  visit_message-goes_on m c = refl

  visit_enum-goes_on :
      (e : EnumDescriptor) (c : CompatibilityErr) → (visit_enum p current e c).0 ≡ true
  unfolding visit_enum
  visit_enum-goes_on e c = refl

  module _ (na : List DiffKind) where
    visit_message-Checks :
        (m : MessageDescriptor)
        → Checks na (MessageKept na current m) (λ c. (visit_message p current m c).1)
    visit_message-Checks m =
        unfold visit_message in
        Checks-lookup na (λ msg. MessageCompatible na msg m) _
          (λ msg c. compare_messages p msg m (compare_syntax p msg m c))
          (get_message current m.full_name) (Checks-add na message_delete m.path _ _ refl)
          (λ msg. compare_messages-Checks p na msg m)

    visit_enum-Checks :
        (e : EnumDescriptor) → Checks na (EnumKept na current e) (λ c. (visit_enum p current e c).1)
    visit_enum-Checks e =
        unfold visit_enum in
        Checks-lookup na (λ en. EnumCompatible na en e) _ (λ en. compare_enums p en e)
          (get_enum current e.full_name) (Checks-add na enum_delete e.path _ _ refl)
          (λ en. compare_enums-Checks p na en e)

    visit_file-Checks :
        (fd : FileDescriptor)
        → Checks na
            (((m : MessageDescriptor) → Within m fd.messages → MessageKept na current m)
              × ((e : EnumDescriptor) → HasEnum e fd → EnumKept na current e))
            (visit_file p current fd)
    visit_file-Checks fd =
        unfold visit_file in
        Checks-then na
          (Checks-for_each_message na (MessageKept na current) (visit_message p current)
            visit_message-goes_on visit_message-Checks fd.messages)
          (Checks-for_each_enum na (EnumKept na current) (visit_enum p current) visit_enum-goes_on
            visit_enum-Checks fd)

  module _ (prev : Files) (na : List DiffKind) where
    abbrev fresh : CompatibilityErr
    fresh = record { not_allowed = na; diffs = [] }

    abbrev collected : CompatibilityErr
    collected = range_files (visit_file p current) prev.range_files fresh

    range_files-Checks :
        Checks na (Compatible na current prev) (range_files (visit_file p current) prev.range_files)
    range_files-Checks =
        Checks-iff na _ (λ h. record { messages = λ fd m. (h fd m).0; enums = λ fd m. (h fd m).1 })
          (λ h fd m. (h.messages fd m, h.enums fd m))
          (Checks-range_files na _ (visit_file p current) (visit_file-Checks na) prev.range_files)

    compare_schemas-eq-none : (compare_schemas p current prev na ≡ none) ↔ (collected.diffs ≡ [])
    unfolding compare_schemas is_empty
    compare_schemas-eq-none = ground arith

    -- The comparison reports nothing exactly if every message and enum of the previous schema is
    -- kept as far as the kinds of changes that are not allowed demand.
    pub compare_schemas_decides :
        (compare_schemas p current prev na ≡ none) ↔ Compatible na current prev
    compare_schemas_decides = (
      λ e. (range_files-Checks.sound fresh refl (compare_schemas-eq-none.0 e)).1,
      λ h. compare_schemas-eq-none.1 (range_files-Checks.complete fresh refl refl h),
    )
