-- ===== src/Formats/Protobuf/Compare.antt =====
-- formats/protobuf/compatibility.go: the comparison of two schemas, as functions on the
-- differences that were collected so far.
pub mod Rules
pub mod Fields
pub mod Enums
pub mod Schemas
pub mod Weaker
use Prim.Native.Nat.{◌^◌}
use stencil.Base.{
  ℕ, ◌+◌, ◌-◌, ◌%◌, String, List, [], ◌∷◌, Bool, true, false, not, ◌&&◌, Option, none, some, str_eq,
  ◌==◌, if◌then◌else◌,
}
use stencil.Formats.Protobuf.Descriptor.{
  MessageDescriptor, EnumDescriptor, EnumValueDescriptor, FieldDescriptor, FileDescriptor, Files,
  Kind, message_kind, enum_kind, other_kind, Printer,
}
use stencil.Formats.Protobuf.Walk.{
  for_each_message, for_each_enum, range_files, get_message, get_enum,
}
use stencil.Formats.Protobuf.Diff.{
  DiffKind, message_delete, non_inclusivereserved_range, non_inclusice_reserved_names, field_delete,
  field_delete_without_reserved_number, field_delete_without_reserved_name, field_name_change,
  field_labelchange, field_kind_change, field_type_change, enum_delete, enum_value_delete,
  enum_value_delete_without_reserved_number, enum_value_delete_without_reserved_name,
  enum_value_number_change, syntax_change, CompatibilityErr, add, is_empty,
}

-- `==` on kinds, and the tests against the two that the code names.
unfoldable pub kind_eq : Kind → Kind → Bool
kind_eq message_kind message_kind = true
kind_eq enum_kind enum_kind = true
kind_eq (other_kind a) (other_kind b) = a == b
kind_eq _ _ = false

-- `end - 1` on an int32, as a bit pattern.
abbrev pub pred32 : ℕ → ℕ
pred32 n = (n + 2 ^ 32 - 1) % 2 ^ 32

-- A `for` loop over the values that a getter gives in turn.
unfoldable pub for_each {ℓ κ} : {A : Type ℓ} {S : Type κ} → (A → S → S) → List A → S → S
for_each body [] s = s
for_each body (x ∷ xs) s = for_each body xs (body x s)

module _ (p : Printer) where
  unfoldable pub compare_syntax :
      MessageDescriptor → MessageDescriptor → CompatibilityErr → CompatibilityErr
  compare_syntax current prev diffs =
      if not (current.syntax == prev.parent_syntax)
      then add syntax_change current.path
          ("syntax changed from \""
            ∷ p.syntax prev.syntax
            ∷ "\" to \""
            ∷ p.syntax current.syntax
            ∷ "\""
            ∷ [])
          diffs
      else diffs

  unfoldable pub compare_kinds :
      FieldDescriptor → FieldDescriptor → CompatibilityErr → CompatibilityErr
  unfolding kind_eq
  compare_kinds current_field prev_field diffs =
      let name = prev_field.name in
      if not (kind_eq prev_field.kind current_field.kind)
      then add field_kind_change prev_field.path
          ("field \""
            ∷ name
            ∷ "\" kind changed from \""
            ∷ p.kind prev_field.kind
            ∷ "\" to \""
            ∷ p.kind current_field.kind
            ∷ "\""
            ∷ [])
          diffs
      else let after_message =
          if kind_eq prev_field.kind message_kind
            && not (str_eq prev_field.message current_field.message)
          then add field_type_change prev_field.path
              ("field \"" ∷ name ∷ "\" type changed from \"" ∷ prev_field.message ∷ "\" to \""
                ∷ current_field.message ∷ "\"" ∷ [])
              diffs
          else diffs in
        if kind_eq prev_field.kind enum_kind && not (str_eq prev_field.enum current_field.enum)
        then add field_type_change prev_field.path
            ("field \"" ∷ name ∷ "\" type changed from \"" ∷ prev_field.enum ∷ "\" to \""
              ∷ current_field.enum ∷ "\"" ∷ [])
            after_message
        else after_message

  unfoldable pub compare_names :
      FieldDescriptor → FieldDescriptor → CompatibilityErr → CompatibilityErr
  compare_names current_field prev_field diffs =
      if not (str_eq prev_field.json_name current_field.json_name)
      then add field_name_change prev_field.path
          ("JSON field name changed from \"" ∷ prev_field.json_name ∷ "\" to \""
            ∷ current_field.json_name ∷ "\"" ∷ [])
          diffs
      else diffs

  unfoldable pub compare_labels :
      FieldDescriptor → FieldDescriptor → CompatibilityErr → CompatibilityErr
  compare_labels current_field prev_field diffs =
      if prev_field.cardinality.is_valid
        && not (str_eq prev_field.cardinality.string current_field.cardinality.string)
      then add field_labelchange prev_field.path
          ("field \"" ∷ prev_field.name ∷ "\" label changed from \"" ∷ prev_field.cardinality.string
            ∷ "\" to \"" ∷ current_field.cardinality.string ∷ "\"" ∷ [])
          diffs
      else diffs

  -- The function's three tests, each a function of its own.
  unfoldable pub compare_fields :
      FieldDescriptor → FieldDescriptor → CompatibilityErr → CompatibilityErr
  compare_fields current_field prev_field diffs =
      compare_kinds current_field prev_field
        (compare_labels current_field prev_field (compare_names current_field prev_field diffs))

  unfoldable pub deleted_field :
      MessageDescriptor → MessageDescriptor → FieldDescriptor → CompatibilityErr → CompatibilityErr
  deleted_field current prev prev_field diffs =
      let deleted =
        add field_delete prev.path ("field \"" ∷ prev_field.name ∷ "\" is deleted" ∷ []) diffs in
      let numbered =
        if not (current.reserved_ranges.has prev_field.number)
        then add field_delete_without_reserved_number prev.path
            ("field \""
              ∷ prev_field.name
              ∷ "\" with number \""
              ∷ p.int32 prev_field.number
              ∷ "\" is not marked as reserved after the delete"
              ∷ [])
            deleted
        else deleted in
      if not (current.reserved_names.has prev_field.name)
      then add field_delete_without_reserved_name prev.path
          ("field \"" ∷ prev_field.name ∷ "\" not marked as reserved after the delete" ∷ [])
          numbered
      else numbered

  -- The body of the loop over the previous fields.
  unfoldable pub compare_field :
      MessageDescriptor → MessageDescriptor → FieldDescriptor → CompatibilityErr → CompatibilityErr
  compare_field current prev prev_field diffs = elim (current.by_number prev_field.number) [
    | none ↦ deleted_field current prev prev_field diffs
    | some current_field ↦ compare_fields current_field prev_field diffs
  ]

  -- The bodies of the loops over the reserved ranges and names of a message.
  unfoldable pub compare_range : MessageDescriptor → ℕ × ℕ → CompatibilityErr → CompatibilityErr
  compare_range current (start, stop) diffs =
      if not (current.reserved_ranges.has start && current.reserved_ranges.has (pred32 stop))
      then add non_inclusivereserved_range current.path
          ("previous reserved range ("
            ∷ p.int32 start
            ∷ ", "
            ∷ p.int32 stop
            ∷ ") is not inclusive of current range"
            ∷ [])
          diffs
      else diffs

  unfoldable pub compare_reserved_name :
      MessageDescriptor → String → CompatibilityErr → CompatibilityErr
  compare_reserved_name current prev_name diffs =
      if not (current.reserved_names.has prev_name)
      then add non_inclusice_reserved_names current.path
          ("previous reserved name \"" ∷ prev_name ∷ "\" is removed" ∷ []) diffs
      else diffs

  unfoldable pub compare_messages :
      MessageDescriptor → MessageDescriptor → CompatibilityErr → CompatibilityErr
  compare_messages current prev diffs = for_each (compare_field current prev) prev.fields (
      for_each (compare_reserved_name current) prev.reserved_names.get
        (for_each (compare_range current) prev.reserved_ranges.get diffs))

  -- An enum's range includes its end.
  unfoldable pub compare_enum_range : EnumDescriptor → ℕ × ℕ → CompatibilityErr → CompatibilityErr
  compare_enum_range current (start, stop) diffs =
      if not (current.reserved_ranges.has start && current.reserved_ranges.has stop)
      then (if start == stop
          then add non_inclusivereserved_range current.path
              ("previous reserved number ("
                ∷ p.int32 start
                ∷ ") is not inclusive of current range"
                ∷ [])
              diffs
          else add non_inclusivereserved_range current.path
              ("previous reserved range ("
                ∷ p.int32 start
                ∷ ", "
                ∷ p.int32 stop
                ∷ ") is not inclusive of current range"
                ∷ [])
              diffs)
      else diffs

  unfoldable pub compare_enum_name : EnumDescriptor → String → CompatibilityErr → CompatibilityErr
  compare_enum_name current prev_name diffs =
      if not (current.reserved_names.has prev_name)
      then add non_inclusice_reserved_names current.path
          ("previous reserved name \"" ∷ prev_name ∷ "\" is removed" ∷ []) diffs
      else diffs

  unfoldable pub deleted_value :
      EnumDescriptor → EnumDescriptor → EnumValueDescriptor → CompatibilityErr → CompatibilityErr
  deleted_value current prev prev_value diffs =
      let deleted =
        add enum_value_delete prev.path
          ("enum value \""
            ∷ prev_value.name
            ∷ "\" with number \""
            ∷ p.int32 prev_value.number
            ∷ "\" is deleted from \""
            ∷ prev.full_name
            ∷ "\""
            ∷ [])
          diffs in
      let numbered =
        if not (current.reserved_ranges.has prev_value.number)
        then add enum_value_delete_without_reserved_number prev.path
            ("enum value \""
              ∷ prev_value.name
              ∷ "\" with number \""
              ∷ p.int32 prev_value.number
              ∷ "\" is not marked as reserved after the delete"
              ∷ [])
            deleted
        else deleted in
      if not (current.reserved_names.has prev_value.name)
      then add enum_value_delete_without_reserved_name prev.path
          ("enum value \"" ∷ prev_value.name ∷ "\" name not marked as reserved after the delete"
            ∷ [])
          numbered
      else numbered

  -- The body of the loop over the previous values.
  unfoldable pub compare_value :
      EnumDescriptor → EnumDescriptor → EnumValueDescriptor → CompatibilityErr → CompatibilityErr
  compare_value current prev prev_value diffs = elim (current.by_name prev_value.name) [
    | none ↦ deleted_value current prev prev_value diffs
    | some current_value ↦
        if not (prev_value.number == current_value.number)
        then add enum_value_number_change prev.path
            ("enum value number for \""
              ∷ prev_value.full_name
              ∷ "\" changed from \""
              ∷ p.int32 prev_value.number
              ∷ "\" to \""
              ∷ p.int32 current_value.number
              ∷ "\""
              ∷ [])
            diffs
        else diffs
  ]

  unfoldable pub compare_enums :
      EnumDescriptor → EnumDescriptor → CompatibilityErr → CompatibilityErr
  compare_enums current prev diffs = for_each (compare_value current prev) prev.values (
      for_each (compare_enum_name current) prev.reserved_names.get
        (for_each (compare_enum_range current) prev.reserved_ranges.get diffs))

  -- What the two walks of `compareSchemas` do at a message and at an enum of the previous schema.
  -- Every path returns true: the walk goes on.
  unfoldable pub visit_message :
      Files → MessageDescriptor → CompatibilityErr → Bool × CompatibilityErr
  visit_message current prev_msg diffs = (
    true,
    elim (get_message current prev_msg.full_name) [
      | none ↦
          add message_delete prev_msg.path ("\"" ∷ prev_msg.full_name ∷ "\" is removed" ∷ []) diffs
      | some current_msg ↦
          compare_messages current_msg prev_msg (compare_syntax current_msg prev_msg diffs)
    ],
  )

  unfoldable pub visit_enum : Files → EnumDescriptor → CompatibilityErr → Bool × CompatibilityErr
  visit_enum current ed diffs = (
    true,
    elim (get_enum current ed.full_name) [
      | none ↦ add enum_delete ed.path ("enum \"" ∷ ed.full_name ∷ "\" deleted" ∷ []) diffs
      | some current_enum ↦ compare_enums current_enum ed diffs
    ],
  )

  unfoldable pub visit_file : Files → FileDescriptor → CompatibilityErr → CompatibilityErr
  visit_file current fd diffs =
      for_each_enum (visit_enum current) fd
        (for_each_message (visit_message current) fd.messages diffs)

  -- `none` is Go's nil.
  unfoldable pub compare_schemas : Files → Files → List DiffKind → Option CompatibilityErr
  compare_schemas current prev not_allowed_changes =
      let diffs =
        range_files (visit_file current) prev.range_files
          (record { not_allowed = not_allowed_changes; diffs = [] }) in
      if is_empty diffs then none else some diffs
