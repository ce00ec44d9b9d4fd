-- ===== src/Formats/Protobuf/Compare/Enums.antt =====
-- What the comparison of two enums demands (compareEnums of formats/protobuf/compatibility.go).
use stencil.Base.{
  ℕ, ◌≡◌, refl, String, ◌∷◌, Bool, true, false, not, ◌&&◌, Option, none, some, All, ◌==◌, str_eq,
  if◌then◌else◌, arith, List,
}
use stencil.Formats.Protobuf.Descriptor.{EnumDescriptor, EnumValueDescriptor, Printer}
use stencil.Formats.Protobuf.Diff.{
  DiffKind, non_inclusivereserved_range, non_inclusice_reserved_names, enum_value_delete,
  enum_value_delete_without_reserved_number, enum_value_delete_without_reserved_name,
  enum_value_number_change, contains, add,
}
use stencil.Formats.Protobuf.Compare.{
  compare_enum_range, compare_enum_name, deleted_value, compare_value, compare_enums,
}
use stencil.Formats.Protobuf.Compare.Rules.{
  Requires, Checks, Checks-add, Checks-then, Checks-iff, Checks-guard, Checks-test, Checks-lookup,
  Checks-for_each,
}

-- A value whose name the current enum lacks.
pub record ValueDropped (na : List DiffKind) (current : EnumDescriptor) (prev : EnumValueDescriptor)
    : Type 0 where
  pub permitted : contains enum_value_delete na ≡ false
  pub number :
      Requires na enum_value_delete_without_reserved_number
        (current.reserved_ranges.has prev.number ≡ true)
  pub name :
      Requires na enum_value_delete_without_reserved_name
        (current.reserved_names.has prev.name ≡ true)

-- The value with the same name keeps its number, or the value is gone.
abbrev pub ValueOutcome :
    List DiffKind → EnumDescriptor → EnumValueDescriptor → Option EnumValueDescriptor → Type 0
ValueOutcome na current prev found = elim found [
  | none ↦ ValueDropped na current prev
  | some value ↦ Requires na enum_value_number_change (prev.number ≡ value.number)
]

abbrev pub ValueCompatible : List DiffKind → EnumDescriptor → EnumValueDescriptor → Type 0
ValueCompatible na current prev = ValueOutcome na current prev (current.by_name prev.name)

abbrev pub EnumRangeKept : List DiffKind → EnumDescriptor → ℕ × ℕ → Type 0
EnumRangeKept na current range =
    Requires na non_inclusivereserved_range
      ((current.reserved_ranges.has range.0 ≡ true) × (current.reserved_ranges.has range.1 ≡ true))

abbrev pub EnumNameKept : List DiffKind → EnumDescriptor → String → Type 0
EnumNameKept na current name =
    Requires na non_inclusice_reserved_names (current.reserved_names.has name ≡ true)

pub record EnumCompatible (na : List DiffKind) (current prev : EnumDescriptor) : Type 0 where
  pub ranges : All (EnumRangeKept na current) prev.reserved_ranges.get
  pub names : All (EnumNameKept na current) prev.reserved_names.get
  pub values : All (ValueCompatible na current) prev.values

module _ (p : Printer) (na : List DiffKind) where
  -- Either text of the message.
  Checks-either :
      (b : Bool) (k : DiffKind) (path s s' : String) (rest rest' : List String)
      → str_eq s "" ≡ false
      → str_eq s' "" ≡ false
      → Checks na
          (contains k na ≡ false)
          (λ c. if b then add k path (s ∷ rest) c else add k path (s' ∷ rest') c)
  Checks-either true k path s s' rest rest' h h' = Checks-add na k path s rest h
  Checks-either false k path s s' rest rest' h h' = Checks-add na k path s' rest' h'

  compare_enum_range-Checks :
      (current : EnumDescriptor) (range : ℕ × ℕ)
      → Checks na (EnumRangeKept na current range) (compare_enum_range p current range)
  unfolding compare_enum_range
  compare_enum_range-Checks current (start, stop) =
      Checks-guard na _ non_inclusivereserved_range _
        (not (current.reserved_ranges.has start && current.reserved_ranges.has stop))
        (λ e. ground arith) (λ e. ground arith)
        (Checks-either (start == stop) _ current.path _ _ _ _ refl refl)

  compare_enum_name-Checks :
      (current : EnumDescriptor) (name : String)
      → Checks na (EnumNameKept na current name) (compare_enum_name p current name)
  unfolding compare_enum_name
  compare_enum_name-Checks current name =
      Checks-test na _ (not (current.reserved_names.has name)) _ _ _ _ refl (λ e. ground arith)
        (λ e. ground arith)

  deleted_value-Checks :
      (current prev : EnumDescriptor) (value : EnumValueDescriptor)
      → Checks na (ValueDropped na current value) (deleted_value p current prev value)
  unfolding deleted_value
  deleted_value-Checks current prev value =
      Checks-iff na _ (λ h. record { permitted = h.0.0; number = h.0.1; name = h.1 })
        (λ h. ((h.permitted, h.number), h.name))
        (Checks-then na
          (Checks-then na (Checks-add na enum_value_delete prev.path _ _ refl) (
            Checks-test na (current.reserved_ranges.has value.number ≡ true)
              (not (current.reserved_ranges.has value.number)) _ _ _ _ refl (λ e. ground arith)
              (λ e. ground arith)))
          (Checks-test na (current.reserved_names.has value.name ≡ true)
            (not (current.reserved_names.has value.name)) _ _ _ _ refl (λ e. ground arith)
            (λ e. ground arith)))

  compare_value-Checks :
      (current prev : EnumDescriptor) (value : EnumValueDescriptor)
      → Checks na (ValueCompatible na current value) (compare_value p current prev value)
  compare_value-Checks current prev value =
      unfold compare_value in
      Checks-lookup na (λ v. Requires na enum_value_number_change (value.number ≡ v.number))
        (deleted_value p current prev value) _ (current.by_name value.name)
        (deleted_value-Checks current prev value)
        (λ v.
          Checks-test na (value.number ≡ v.number) (not (value.number == v.number)) _ _ _ _ refl
            (λ e. ground arith) (λ e. ground arith))

  pub compare_enums-Checks :
      (current prev : EnumDescriptor)
      → Checks na (EnumCompatible na current prev) (compare_enums p current prev)
  compare_enums-Checks current prev =
      unfold compare_enums in
      Checks-iff na _ (λ h. record { ranges = h.0.0; names = h.0.1; values = h.1 })
        (λ h. ((h.ranges, h.names), h.values))
        (Checks-then na
          (Checks-then na
            (Checks-for_each na _ _ (compare_enum_range-Checks current) prev.reserved_ranges.get)
            (Checks-for_each na _ _ (compare_enum_name-Checks current) prev.reserved_names.get))
          (Checks-for_each na _ _ (compare_value-Checks current prev) prev.values))
