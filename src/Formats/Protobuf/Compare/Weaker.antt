-- ===== src/Formats/Protobuf/Compare/Weaker.antt =====
-- A list of changes that are not allowed demands what another one demands, if it has the other's
-- kinds and all deletions. A deletion that is not reserved is a deletion, so it needs no kind of its
-- own.
use stencil.Base.{
  ◌≡◌, refl, List, [], ◌∷◌, true, false, Option, none, some, All, ◌⊎◌, inl, inr, ◌↔◌, Bool-cases,
}
use stencil.Formats.Protobuf.Descriptor.{
  MessageDescriptor, FieldDescriptor, EnumDescriptor, EnumValueDescriptor, Files, Printer,
}
use stencil.Formats.Protobuf.Walk.{get_message, get_enum}
use stencil.Formats.Protobuf.Diff.{
  DiffKind, message_delete, non_inclusivereserved_range, non_inclusice_reserved_names, field_delete,
  field_delete_without_reserved_number, field_delete_without_reserved_name, field_name_change,
  field_labelchange, field_kind_change, field_type_change, enum_delete, enum_value_delete,
  enum_value_delete_without_reserved_number, enum_value_delete_without_reserved_name,
  enum_value_number_change, syntax_change, contains, backward_compatibility, forward_compatibility,
  full_compatibility,
}
use stencil.Formats.Protobuf.Compare.{compare_schemas}
use stencil.Formats.Protobuf.Compare.Rules.{Requires}
use stencil.Formats.Protobuf.Compare.Fields.{FieldOutcome, FieldCompatible, MessageCompatible}
use stencil.Formats.Protobuf.Compare.Enums.{ValueOutcome, ValueCompatible, EnumCompatible}
use stencil.Formats.Protobuf.Compare.Schemas.{
  Compatible, MessageOutcome, EnumOutcome, compare_schemas_decides,
}

-- The kinds that are only reported along with a deletion.
abbrev OfDeletion : DiffKind → Type 0
OfDeletion field_delete = Unit
OfDeletion field_delete_without_reserved_number = Unit
OfDeletion field_delete_without_reserved_name = Unit
OfDeletion enum_value_delete = Unit
OfDeletion enum_value_delete_without_reserved_number = Unit
OfDeletion enum_value_delete_without_reserved_name = Unit
OfDeletion _ = ⊥

record Covers (na weaker : List DiffKind) : Type 0 where
  field_deletes : contains field_delete na ≡ true
  value_deletes : contains enum_value_delete na ≡ true
  kinds : (k : DiffKind) → contains k weaker ≡ true → (contains k na ≡ true) ⊎ OfDeletion k

All-imp {ℓ} :
    {A : Type ℓ} {P Q : A → Type 0} (f : (x : A) → P x → Q x) (xs : List A) → All P xs → All Q xs
All-imp f [] h = tt
All-imp f (x ∷ xs) h = (f x h.0, All-imp f xs h.1)

module _ {na weaker : List DiffKind} (covers : Covers na weaker) where
  at : (k : DiffKind) {C : Type 0} → (OfDeletion k → ⊥) → Requires na k C → Requires weaker k C
  at k other r e = elim (covers.kinds k e) [ inl c ↦ r c | inr d ↦ absurd (other d) ]

  FieldCompatible-weaker :
      (current : MessageDescriptor) (prev : FieldDescriptor)
      → FieldCompatible na current prev
      → FieldCompatible weaker current prev
  FieldCompatible-weaker current prev = go (current.by_number prev.number)
    where
      go :
          (found : Option FieldDescriptor)
          → FieldOutcome na current prev found
          → FieldOutcome weaker current prev found
      go none h = absurd (cc (h.permitted, covers.field_deletes))
      go (some field) h = record {
        json_name = at field_name_change (λ d. d) h.json_name;
        label = at field_labelchange (λ d. d) h.label;
        kind = at field_kind_change (λ d. d) h.kind;
        same_type = at field_type_change (λ d. d) h.same_type;
      }

  MessageCompatible-weaker :
      (current prev : MessageDescriptor)
      → MessageCompatible na current prev
      → MessageCompatible weaker current prev
  MessageCompatible-weaker current prev h = record {
    syntax = at syntax_change (λ d. d) h.syntax;
    ranges =
        All-imp (λ r. at non_inclusivereserved_range (λ d. d)) prev.reserved_ranges.get h.ranges;
    names = All-imp (λ r. at non_inclusice_reserved_names (λ d. d)) prev.reserved_names.get h.names;
    fields = All-imp (FieldCompatible-weaker current) prev.fields h.fields;
  }

  ValueCompatible-weaker :
      (current : EnumDescriptor) (prev : EnumValueDescriptor)
      → ValueCompatible na current prev
      → ValueCompatible weaker current prev
  ValueCompatible-weaker current prev = go (current.by_name prev.name)
    where
      go :
          (found : Option EnumValueDescriptor)
          → ValueOutcome na current prev found
          → ValueOutcome weaker current prev found
      go none h = absurd (cc (h.permitted, covers.value_deletes))
      go (some value) h = at enum_value_number_change (λ d. d) h

  EnumCompatible-weaker :
      (current prev : EnumDescriptor)
      → EnumCompatible na current prev
      → EnumCompatible weaker current prev
  EnumCompatible-weaker current prev h = record {
    ranges =
        All-imp (λ r. at non_inclusivereserved_range (λ d. d)) prev.reserved_ranges.get h.ranges;
    names = All-imp (λ r. at non_inclusice_reserved_names (λ d. d)) prev.reserved_names.get h.names;
    values = All-imp (ValueCompatible-weaker current) prev.values h.values;
  }

  permitted :
      (k : DiffKind) → (OfDeletion k → ⊥) → contains k na ≡ false → contains k weaker ≡ false
  permitted k other h = elim (Bool-cases (contains k weaker)) [
    | inl e ↦ elim (covers.kinds k e) [ inl c ↦ absurd (cc) | inr d ↦ absurd (other d) ]
    | inr e ↦ e
  ]

  MessageOutcome-weaker :
      (prev : MessageDescriptor) (found : Option MessageDescriptor)
      → MessageOutcome na prev found
      → MessageOutcome weaker prev found
  MessageOutcome-weaker prev none h = permitted message_delete (λ d. d) h
  MessageOutcome-weaker prev (some msg) h = MessageCompatible-weaker msg prev h

  EnumOutcome-weaker :
      (prev : EnumDescriptor) (found : Option EnumDescriptor)
      → EnumOutcome na prev found
      → EnumOutcome weaker prev found
  EnumOutcome-weaker prev none h = permitted enum_delete (λ d. d) h
  EnumOutcome-weaker prev (some e) h = EnumCompatible-weaker e prev h

  Compatible-weaker :
      {current prev : Files} → Compatible na current prev → Compatible weaker current prev
  Compatible-weaker {current} h = record {
    messages =
        λ fd i m w. MessageOutcome-weaker m (get_message current m.full_name) (h.messages fd i m w);
    enums = λ fd i e w. EnumOutcome-weaker e (get_enum current e.full_name) (h.enums fd i e w);
  }

backward-Covers-forward : Covers backward_compatibility forward_compatibility
unfolding contains
backward-Covers-forward = record {
  field_deletes = refl;
  value_deletes = refl;
  kinds = λ k e. kinds k e;
}
  where
    kinds :
        (k : DiffKind)
        → contains k forward_compatibility ≡ true
        → (contains k backward_compatibility ≡ true) ⊎ OfDeletion k
    kinds message_delete e = inl refl
    kinds field_delete_without_reserved_number e = inr tt
    kinds field_delete_without_reserved_name e = inr tt
    kinds enum_value_delete_without_reserved_number e = inr tt
    kinds enum_value_delete_without_reserved_name e = inr tt
    kinds _ e = inl refl

full-Covers-backward : Covers full_compatibility backward_compatibility
unfolding contains
full-Covers-backward = record {
  field_deletes = refl;
  value_deletes = refl;
  kinds = λ k e. kinds k e;
}
  where
    kinds :
        (k : DiffKind)
        → contains k backward_compatibility ≡ true
        → (contains k full_compatibility ≡ true) ⊎ OfDeletion k
    kinds field_delete e = inr tt
    kinds _ e = inl (cc)

backward-Covers-full : Covers backward_compatibility full_compatibility
unfolding contains
backward-Covers-full = record {
  field_deletes = refl;
  value_deletes = refl;
  kinds = λ k e. kinds k e;
}
  where
    kinds :
        (k : DiffKind)
        → contains k full_compatibility ≡ true
        → (contains k backward_compatibility ≡ true) ⊎ OfDeletion k
    kinds field_delete e = inr tt
    kinds _ e = inl (cc)

module _ (p : Printer) (current prev : Files) where
  passes :
      (na weaker : List DiffKind)
      → Covers na weaker
      → compare_schemas p current prev na ≡ none
      → compare_schemas p current prev weaker ≡ none
  passes na weaker covers h =
      (compare_schemas_decides p current prev weaker).1
        (Compatible-weaker covers ((compare_schemas_decides p current prev na).0 h))

  pub forward_of_backward :
      compare_schemas p current prev backward_compatibility ≡ none
      → compare_schemas p current prev forward_compatibility ≡ none
  forward_of_backward = passes _ _ backward-Covers-forward

  pub full_iff_backward :
      (compare_schemas p current prev full_compatibility ≡ none)
      ↔ (compare_schemas p current prev backward_compatibility ≡ none)
  full_iff_backward = (passes _ _ full-Covers-backward, passes _ _ backward-Covers-full)
