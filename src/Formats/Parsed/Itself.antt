-- ===== src/Formats/Parsed/Itself.antt =====
-- A schema compared with itself.
use stencil.Base.{ℕ, ◌≡◌, refl, subst, sym, String, List, Memᴰ, true, none, some, All-of_mem}
use stencil.Formats.Protobuf.Descriptor.{
  MessageDescriptor, FieldDescriptor, EnumDescriptor, EnumValueDescriptor, FileDescriptor, Files,
  message_descriptor, enum_descriptor,
}
use stencil.Formats.Protobuf.Walk.{get_message, get_enum}
use stencil.Formats.Protobuf.Diff.{
  DiffKind, backward_compatibility, forward_compatibility, full_compatibility,
}
use stencil.Formats.Protobuf.Compare.{pred32}
use stencil.Formats.Protobuf.Compare.Fields.{
  FieldOutcome, FieldKept, FieldCompatible, MessageCompatible, RangeKept, NameKept,
}
use stencil.Formats.Protobuf.Compare.Enums.{
  ValueOutcome, EnumCompatible, ValueCompatible, EnumRangeKept, EnumNameKept,
}
use stencil.Formats.Protobuf.Compare.Schemas.{Within, HasEnum, Compatible}
use stencil.Formats.Parsed.{
  Libraries, ProtoSchema, protobuf, is_backward_compatible, is_forward_compatible,
  is_full_compatible,
}
use stencil.Formats.Parsed.Laws.{protobuf_checks_decide}

-- What protoregistry and protoreflect document: a lookup finds what is listed, `Has` holds of the
-- names that are listed and of both ends of each range (the end of a message's range is past it),
-- and the parent of a message has the syntax of its file.
pub record IsLawfulMessage (m : MessageDescriptor) : Type 0 where
  pub same_syntax : m.syntax ≡ m.parent_syntax
  pub by_number : (f : FieldDescriptor) → Memᴰ f m.fields → m.by_number f.number ≡ some f
  pub ranges :
      (r : ℕ × ℕ)
      → Memᴰ r m.reserved_ranges.get
      → (m.reserved_ranges.has r.0 ≡ true) × (m.reserved_ranges.has (pred32 r.1) ≡ true)
  pub names : (n : String) → Memᴰ n m.reserved_names.get → m.reserved_names.has n ≡ true

pub record IsLawfulEnum (e : EnumDescriptor) : Type 0 where
  pub by_name : (v : EnumValueDescriptor) → Memᴰ v e.values → e.by_name v.name ≡ some v
  pub ranges :
      (r : ℕ × ℕ)
      → Memᴰ r e.reserved_ranges.get
      → (e.reserved_ranges.has r.0 ≡ true) × (e.reserved_ranges.has r.1 ≡ true)
  pub names : (n : String) → Memᴰ n e.reserved_names.get → e.reserved_names.has n ≡ true

pub record IsLawful (s : Files) : Type 0 where
  pub find_message :
      (fd : FileDescriptor)
      → Memᴰ fd s.range_files
      → (m : MessageDescriptor) → Within m fd.messages
      → (s.find_descriptor_by_name m.full_name ≡ some (message_descriptor m)) × IsLawfulMessage m
  pub find_enum :
      (fd : FileDescriptor)
      → Memᴰ fd s.range_files
      → (e : EnumDescriptor) → HasEnum e fd
      → (s.find_descriptor_by_name e.full_name ≡ some (enum_descriptor e)) × IsLawfulEnum e

module _ (na : List DiffKind) where
  FieldKept-refl : (f : FieldDescriptor) → FieldKept na f f
  FieldKept-refl f = record {
    json_name = λ _. refl;
    label = λ _ _. refl;
    kind = λ _. refl;
    same_type = λ _ _. record { of_message = λ _. refl; of_enum = λ _. refl };
  }

  MessageCompatible-refl : (m : MessageDescriptor) → IsLawfulMessage m → MessageCompatible na m m
  MessageCompatible-refl m h = record {
    syntax = λ _. h.same_syntax;
    ranges = All-of_mem (RangeKept na m) m.reserved_ranges.get (λ r i _. h.ranges r i);
    names = All-of_mem (NameKept na m) m.reserved_names.get (λ n i _. h.names n i);
    fields =
        All-of_mem (FieldCompatible na m) m.fields
          (λ f i. subst (FieldOutcome na m f) (sym (h.by_number f i)) (FieldKept-refl f));
  }

  EnumCompatible-refl : (e : EnumDescriptor) → IsLawfulEnum e → EnumCompatible na e e
  EnumCompatible-refl e h = record {
    ranges = All-of_mem (EnumRangeKept na e) e.reserved_ranges.get (λ r i _. h.ranges r i);
    names = All-of_mem (EnumNameKept na e) e.reserved_names.get (λ n i _. h.names n i);
    values =
        All-of_mem (ValueCompatible na e) e.values
          (λ v i. subst (ValueOutcome na e v) (sym (h.by_name v i)) (λ _. refl));
  }

  Compatible-refl : (s : Files) → IsLawful s → Compatible na s s
  unfolding get_message get_enum
  Compatible-refl s h = record {
    messages = λ fd i m w.
        let (found, lawful) = h.find_message fd i m w in rw found (MessageCompatible-refl m lawful);
    enums = λ fd i e w.
        let (found, lawful) = h.find_enum fd i e w in rw found (EnumCompatible-refl e lawful);
  }

-- A protobuf schema whose registry behaves as documented passes its three checks against itself.
pub passes_itself :
    (L : Libraries) (s : ProtoSchema)
    → IsLawful s.files
    → (is_backward_compatible L (protobuf s) (protobuf s) ≡ none)
      × (is_forward_compatible L (protobuf s) (protobuf s) ≡ none)
      × (is_full_compatible L (protobuf s) (protobuf s) ≡ none)
passes_itself L s h =
    let (back, forward, full) = protobuf_checks_decide L s s in
    (
      back.1 (Compatible-refl backward_compatibility s.files h),
      forward.1 (Compatible-refl forward_compatibility s.files h),
      full.1 (Compatible-refl full_compatibility s.files h),
    )
