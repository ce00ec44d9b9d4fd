-- ===== src/Tests/Formats.antt =====
-- The theorems on the formats at concrete inputs.
use mathlib.Core.List.Memᴰ
use stencil.Base.{
  [], ◌∷◌, map, Memᴰ, Option, none, some, ◌≡◌, refl, ◌≢◌, ◌↔◌, inl, inr, subst, sym, true,
}
use stencil.Formats.Protobuf.Descriptor.{
  FileDescriptor, MessageDescriptor, EnumDescriptor, message_descriptor,
}
use stencil.Formats.Protobuf.Diff.{
  backward_compatibility, forward_compatibility, full_compatibility,
}
use stencil.Formats.Protobuf.Walk.{get_all_messages, get_all_fields}
use stencil.Formats.Protobuf.Names.{NamedIn, search_names}
use stencil.Formats.Protobuf.Compare.{pred32}
use stencil.Formats.Protobuf.Compare.Schemas.{Compatible, Within, here, deeper, later, HasEnum}
use stencil.Formats.Parsed.Errors.{Error}
use stencil.Formats.Parsed.{
  protobuf, avro, json, format, is_backward_compatible, is_forward_compatible, is_full_compatible,
}
use stencil.Formats.Parsed.Laws.{
  Combines, protobuf_checks_decide, protobuf_checks_ordered, avro_full_is_both, other_format_fails,
}
use stencil.Formats.Parsed.Itself.{IsLawful, IsLawfulMessage, passes_itself}
use stencil.Tests.Samples.{
  libraries, combine, book, book_file, book_files, book_schema, empty_schema,
}

combine-eq-none : (a b : Option Error) → (combine a b ≡ none) ↔ ((a ≡ none) × (b ≡ none))
combine-eq-none none b = (λ h. (refl, h), λ h. h.1)
combine-eq-none (some a) b = (λ h. absurd (cc (h)), λ h. h.0)

pub libraries-Combines : Combines libraries
libraries-Combines a b = combine-eq-none a b

dropped_message :
    ((is_backward_compatible libraries (protobuf book_schema) (protobuf empty_schema) ≡ none)
      ↔ Compatible backward_compatibility book_schema.files empty_schema.files)
    × ((is_forward_compatible libraries (protobuf book_schema) (protobuf empty_schema) ≡ none)
        ↔ Compatible forward_compatibility book_schema.files empty_schema.files)
    × ((is_full_compatible libraries (protobuf book_schema) (protobuf empty_schema) ≡ none)
        ↔ Compatible full_compatibility book_schema.files empty_schema.files)
dropped_message = protobuf_checks_decide libraries book_schema empty_schema

ordered_checks :
    ((is_full_compatible libraries (protobuf book_schema) (protobuf empty_schema) ≡ none)
      ↔ (is_backward_compatible libraries (protobuf book_schema) (protobuf empty_schema) ≡ none))
    × ((is_full_compatible libraries (protobuf book_schema) (protobuf empty_schema) ≡ none) ↔ (
        (is_backward_compatible libraries (protobuf book_schema) (protobuf empty_schema) ≡ none)
        × (is_forward_compatible libraries (protobuf book_schema) (protobuf empty_schema) ≡ none)))
ordered_checks = protobuf_checks_ordered libraries book_schema empty_schema

book_names :
    (Memᴰ "shop.Book" (get_all_messages book_files)
      ↔ NamedIn (λ m. m.full_name ∷ []) book_files "shop.Book")
    × (Memᴰ "shop.Book" (get_all_fields book_files)
        ↔ NamedIn (λ m. map (λ f. f.full_name) m.fields) book_files "shop.Book")
book_names = search_names book_files "shop.Book"

two_avro :
    (is_full_compatible libraries (avro [] 1) (avro [] 2) ≡ none)
    ↔ ((libraries.avro_compatible 1 2 ≡ none) × (libraries.avro_compatible 2 1 ≡ none))
two_avro = avro_full_is_both libraries libraries-Combines [] [] 1 2

avro_and_json :
    (is_backward_compatible libraries (json []) (avro [] 1) ≢ none)
    × (is_forward_compatible libraries (json []) (avro [] 1) ≢ none)
    × (is_full_compatible libraries (json []) (avro [] 1) ≢ none)
unfolding format
avro_and_json = other_format_fails libraries libraries-Combines (json []) (avro [] 1) (inr refl)

book-IsLawfulMessage : IsLawfulMessage book
book-IsLawfulMessage = record {
  same_syntax = refl;
  by_number = λ f i. elim (Memᴰ.cases_cons i) [
    | inl e ↦ subst (λ g. book.by_number g.number ≡ some g) (sym e) refl
    | inr i' ↦ absurd (Memᴰ.not-nil i')
  ];
  ranges = λ r i. elim (Memᴰ.cases_cons i) [
    | inl e ↦
        subst
          (λ q.
            (book.reserved_ranges.has q.0 ≡ true) × (book.reserved_ranges.has (pred32 q.1) ≡ true))
          (sym e) (refl, refl)
    | inr i' ↦ absurd (Memᴰ.not-nil i')
  ];
  names = λ n i. elim (Memᴰ.cases_cons i) [
    | inl e ↦ subst (λ m. book.reserved_names.has m ≡ true) (sym e) refl
    | inr i' ↦ absurd (Memᴰ.not-nil i')
  ];
}

in_book : (m : MessageDescriptor) → Within m book_file.messages → m ≡ book
in_book m (here e) = e
in_book m (deeper w) = elim w [ ]
in_book m (later w) = elim w [ ]

no_enums : (e : EnumDescriptor) → ¬ (HasEnum e book_file)
no_enums e (inl i) = absurd (Memᴰ.not-nil i)
no_enums e (inr (m, w, i)) =
    absurd (Memᴰ.not-nil (subst (λ (k : MessageDescriptor). Memᴰ e k.enums) (in_book m w) i))

only_file : (fd : FileDescriptor) → Memᴰ fd book_files.range_files → fd ≡ book_file
only_file fd i = elim (Memᴰ.cases_cons i) [ inl e ↦ e | inr i' ↦ absurd (Memᴰ.not-nil i') ]

book_files-IsLawful : IsLawful book_files
book_files-IsLawful = record {
  find_message = λ fd i m w.
      let same =
        in_book m (subst (λ (f : FileDescriptor). Within m f.messages) (only_file fd i) w) in
      subst
        (λ (k : MessageDescriptor).
          (book_files.find_descriptor_by_name k.full_name ≡ some (message_descriptor k))
          × IsLawfulMessage k)
        (sym same) (refl, book-IsLawfulMessage);
  find_enum = λ fd i e w. absurd (no_enums e (subst (HasEnum e) (only_file fd i) w));
}

same_book :
    (is_backward_compatible libraries (protobuf book_schema) (protobuf book_schema) ≡ none)
    × (is_forward_compatible libraries (protobuf book_schema) (protobuf book_schema) ≡ none)
    × (is_full_compatible libraries (protobuf book_schema) (protobuf book_schema) ≡ none)
same_book = passes_itself libraries book_schema book_files-IsLawful
