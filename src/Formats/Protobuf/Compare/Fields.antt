-- ===== src/Formats/Protobuf/Compare/Fields.antt =====
-- What the comparison of two messages demands (compareMessages, compareFields, compareSyntax of
-- formats/protobuf/compatibility.go).
use stencil.Base.{
  ℕ, ◌≡◌, refl, String, List, ◌∷◌, true, false, not, ◌&&◌, Option, none, some, All, str_eq, eq_iff,
  ◌↔◌, if◌then◌else◌, arith,
}
use stencil.Formats.Protobuf.Descriptor.{
  MessageDescriptor, FieldDescriptor, Kind, message_kind, enum_kind, other_kind, Printer,
}
use stencil.Formats.Protobuf.Diff.{
  DiffKind, non_inclusivereserved_range, non_inclusice_reserved_names, field_delete,
  field_delete_without_reserved_number, field_delete_without_reserved_name, field_name_change,
  field_labelchange, field_kind_change, field_type_change, syntax_change, contains, add,
}
use stencil.Formats.Protobuf.Compare.{
  kind_eq, pred32, compare_syntax, compare_kinds, compare_names, compare_labels, compare_fields,
  deleted_field, compare_field, compare_range, compare_reserved_name, compare_messages,
}
use stencil.Formats.Protobuf.Compare.Rules.{
  Requires, Checks, Checks-add, Checks-then, Checks-iff, Checks-if_else, Checks-test, Checks-lookup,
  Checks-for_each,
}

-- Of two kinds that agree, a message type or an enum type stays the same type.
pub record SameType (current prev : FieldDescriptor) : Type 0 where
  pub of_message : prev.kind ≡ message_kind → prev.message ≡ current.message
  pub of_enum : prev.kind ≡ enum_kind → prev.enum ≡ current.enum

pub record FieldKept (na : List DiffKind) (current prev : FieldDescriptor) : Type 0 where
  pub json_name : Requires na field_name_change (prev.json_name ≡ current.json_name)
  pub label :
      Requires na field_labelchange
        (prev.cardinality.is_valid ≡ true → prev.cardinality.string ≡ current.cardinality.string)
  pub kind : Requires na field_kind_change (prev.kind ≡ current.kind)
  pub same_type : Requires na field_type_change (prev.kind ≡ current.kind → SameType current prev)

-- A field whose number the current message lacks.
pub record FieldDropped (na : List DiffKind) (current : MessageDescriptor) (prev : FieldDescriptor)
    : Type 0 where
  pub permitted : contains field_delete na ≡ false
  pub number :
      Requires na field_delete_without_reserved_number
        (current.reserved_ranges.has prev.number ≡ true)
  pub name :
      Requires na field_delete_without_reserved_name (current.reserved_names.has prev.name ≡ true)

-- The field with the same number is kept, or the field is gone.
abbrev pub FieldOutcome :
    List DiffKind → MessageDescriptor → FieldDescriptor → Option FieldDescriptor → Type 0
FieldOutcome na current prev found = elim found [
  | none ↦ FieldDropped na current prev
  | some field ↦ FieldKept na field prev
]

abbrev pub FieldCompatible : List DiffKind → MessageDescriptor → FieldDescriptor → Type 0
FieldCompatible na current prev = FieldOutcome na current prev (current.by_number prev.number)

abbrev pub RangeKept : List DiffKind → MessageDescriptor → ℕ × ℕ → Type 0
RangeKept na current range = Requires na non_inclusivereserved_range (
    (current.reserved_ranges.has range.0 ≡ true)
    × (current.reserved_ranges.has (pred32 range.1) ≡ true))

abbrev pub NameKept : List DiffKind → MessageDescriptor → String → Type 0
NameKept na current name =
    Requires na non_inclusice_reserved_names (current.reserved_names.has name ≡ true)

pub record MessageCompatible (na : List DiffKind) (current prev : MessageDescriptor) : Type 0 where
  pub syntax : Requires na syntax_change (current.syntax ≡ prev.parent_syntax)
  pub ranges : All (RangeKept na current) prev.reserved_ranges.get
  pub names : All (NameKept na current) prev.reserved_names.get
  pub fields : All (FieldCompatible na current) prev.fields

pub kind_eq_iff : (a b : Kind) → (kind_eq a b ≡ true) ↔ (a ≡ b)
unfolding kind_eq
kind_eq_iff message_kind b = ground arith
kind_eq_iff enum_kind b = ground arith
kind_eq_iff (other_kind n) b = ground arith

module _ (p : Printer) (na : List DiffKind) where
  compare_syntax-Checks :
      (current prev : MessageDescriptor)
      → Checks na
          (Requires na syntax_change (current.syntax ≡ prev.parent_syntax))
          (compare_syntax p current prev)
  unfolding compare_syntax
  compare_syntax-Checks current prev =
      Checks-test na (current.syntax ≡ prev.parent_syntax) _ _ _ _ _ refl (λ e. ground arith)
        (λ e. ground arith)

  compare_names-Checks :
      (current prev : FieldDescriptor)
      → Checks na
          (Requires na field_name_change (prev.json_name ≡ current.json_name))
          (compare_names p current prev)
  unfolding compare_names
  compare_names-Checks current prev =
      Checks-test na (prev.json_name ≡ current.json_name) _ _ _ _ _ refl
        (λ e. ground (arith, eq_iff prev.json_name current.json_name))
        (λ e. ground (arith, eq_iff prev.json_name current.json_name))

  compare_labels-Checks :
      (current prev : FieldDescriptor)
      → Checks na
          (Requires na field_labelchange (
            prev.cardinality.is_valid ≡ true
            → prev.cardinality.string ≡ current.cardinality.string))
          (compare_labels p current prev)
  unfolding compare_labels
  compare_labels-Checks current prev =
      Checks-test na
        (prev.cardinality.is_valid ≡ true → prev.cardinality.string ≡ current.cardinality.string) _
        _ _ _ _ refl
        (λ e v. ground (arith, eq_iff prev.cardinality.string current.cardinality.string))
        (λ e. ground (arith, eq_iff prev.cardinality.string current.cardinality.string))

  type_test-Checks :
      (k : Kind) (old new : String) (prev : FieldDescriptor) (path s : String) (rest : List String)
      → str_eq s "" ≡ false
      → Checks na (Requires na field_type_change (prev.kind ≡ k → old ≡ new)) (λ c.
        if kind_eq prev.kind k && not (str_eq old new)
        then add field_type_change path (s ∷ rest) c
        else c)
  type_test-Checks k old new prev path s rest h =
      Checks-test na (prev.kind ≡ k → old ≡ new) _ _ _ _ _ h
        (λ e v. ground (arith, eq_iff old new, kind_eq_iff prev.kind k))
        (λ e. ground (arith, eq_iff old new, kind_eq_iff prev.kind k))

  compare_kinds-Checks :
      (current prev : FieldDescriptor)
      → Checks na
          (Requires na field_kind_change (prev.kind ≡ current.kind)
            × Requires na field_type_change (prev.kind ≡ current.kind → SameType current prev))
          (compare_kinds p current prev)
  unfolding compare_kinds
  compare_kinds-Checks current prev =
      Checks-iff na _
        (λ h. (
          (λ r. ground (arith, kind_eq_iff prev.kind current.kind, h.0)),
          (λ r e.
              let both = h.1 (ground (arith, kind_eq_iff prev.kind current.kind)) in
              record { of_message = both.0 r; of_enum = both.1 r }),
        ))
        (λ h. (
          (λ t. ground (arith, kind_eq_iff prev.kind current.kind, h.0)),
          (λ t.
              let e = (kind_eq_iff prev.kind current.kind).0 (ground arith) in
              ((λ r. (h.1 r e).of_message), (λ r. (h.1 r e).of_enum))),
        ))
        (Checks-if_else na _ _ _ (Checks-add na _ _ _ _ refl) (
          Checks-then na
            (type_test-Checks message_kind prev.message current.message prev _ _ _ refl)
            (type_test-Checks enum_kind prev.enum current.enum prev _ _ _ refl)))

  compare_fields-Checks :
      (current prev : FieldDescriptor)
      → Checks na (FieldKept na current prev) (compare_fields p current prev)
  compare_fields-Checks current prev =
      unfold compare_fields in
      Checks-iff na _
        (λ h. record { json_name = h.0.0; label = h.0.1; kind = h.1.0; same_type = h.1.1 })
        (λ h. ((h.json_name, h.label), (h.kind, h.same_type)))
        (Checks-then na
          (Checks-then na (compare_names-Checks current prev) (compare_labels-Checks current prev))
          (compare_kinds-Checks current prev))

  deleted_field-Checks :
      (current prev : MessageDescriptor) (field : FieldDescriptor)
      → Checks na (FieldDropped na current field) (deleted_field p current prev field)
  unfolding deleted_field
  deleted_field-Checks current prev field =
      Checks-iff na _ (λ h. record { permitted = h.0.0; number = h.0.1; name = h.1 })
        (λ h. ((h.permitted, h.number), h.name))
        (Checks-then na
          (Checks-then na (Checks-add na field_delete prev.path _ _ refl) (
            Checks-test na (current.reserved_ranges.has field.number ≡ true)
              (not (current.reserved_ranges.has field.number)) _ _ _ _ refl (λ e. ground arith)
              (λ e. ground arith)))
          (Checks-test na (current.reserved_names.has field.name ≡ true)
            (not (current.reserved_names.has field.name)) _ _ _ _ refl (λ e. ground arith)
            (λ e. ground arith)))

  compare_field-Checks :
      (current prev : MessageDescriptor) (field : FieldDescriptor)
      → Checks na (FieldCompatible na current field) (compare_field p current prev field)
  compare_field-Checks current prev field =
      unfold compare_field in
      Checks-lookup na (λ cur. FieldKept na cur field) (deleted_field p current prev field)
        (λ cur. compare_fields p cur field) (current.by_number field.number)
        (deleted_field-Checks current prev field) (λ cur. compare_fields-Checks cur field)

  compare_range-Checks :
      (current : MessageDescriptor) (range : ℕ × ℕ)
      → Checks na (RangeKept na current range) (compare_range p current range)
  unfolding compare_range
  compare_range-Checks current (start, stop) =
      Checks-test na _
        (not (current.reserved_ranges.has start && current.reserved_ranges.has (pred32 stop))) _ _ _
        _ refl (λ e. ground arith) (λ e. ground arith)

  compare_reserved_name-Checks :
      (current : MessageDescriptor) (name : String)
      → Checks na (NameKept na current name) (compare_reserved_name p current name)
  unfolding compare_reserved_name
  compare_reserved_name-Checks current name =
      Checks-test na _ (not (current.reserved_names.has name)) _ _ _ _ refl (λ e. ground arith)
        (λ e. ground arith)

  -- The comparison of two messages, their syntax included.
  pub compare_messages-Checks :
      (current prev : MessageDescriptor)
      → Checks na
          (MessageCompatible na current prev)
          (λ diffs. compare_messages p current prev (compare_syntax p current prev diffs))
  compare_messages-Checks current prev =
      unfold compare_messages in
      Checks-iff na _
        (λ h. record { syntax = h.0; ranges = h.1.0.0; names = h.1.0.1; fields = h.1.1 })
        (λ h. (h.syntax, ((h.ranges, h.names), h.fields)))
        (Checks-then na (compare_syntax-Checks current prev) (
          Checks-then na
            (Checks-then na
              (Checks-for_each na _ _ (compare_range-Checks current) prev.reserved_ranges.get)
              (Checks-for_each na _ _ (compare_reserved_name-Checks current)
                prev.reserved_names.get))
            (Checks-for_each na _ _ (compare_field-Checks current prev) prev.fields)))
