-- ===== src/Formats/Parsed/Laws.antt =====
-- How the three checks of a parsed schema relate to one another, for each format.
use stencil.Base.{◌≡◌, refl, ◌≢◌, ◌↔◌, ◌⊎◌, inl, inr, eq_iff, Option, none, arith, List}
use stencil.Formats.Protobuf.Diff.{
  DiffKind, CompatibilityErr, backward_compatibility, forward_compatibility, full_compatibility,
}
use stencil.Formats.Protobuf.Compare.{compare_schemas}
use stencil.Formats.Protobuf.Compare.Weaker.{forward_of_backward, full_iff_backward}
use stencil.Formats.Protobuf.Compare.Schemas.{Compatible, compare_schemas_decides}
use stencil.Formats.Parsed.Errors.{Error, Bytes, as_error}
use stencil.Formats.Parsed.{
  Libraries, ProtoSchema, ParsedSchema, protobuf, avro, json, format, compare_files,
  is_backward_compatible, is_forward_compatible, is_full_compatible,
}

as_error-eq-none : (o : Option CompatibilityErr) → (as_error o ≡ none) ↔ (o ≡ none)
unfolding as_error
as_error-eq-none o = ground arith

-- `multierr.Combine` returns nil exactly if both of its errors are nil.
abbrev pub Combines : Libraries → Type 0
Combines L = (a b : Option Error) → (L.combine a b ≡ none) ↔ ((a ≡ none) × (b ≡ none))

module _ (L : Libraries) where
  compare_files-eq-none :
      (s t : ProtoSchema) (na : List DiffKind)
      → (compare_files L (protobuf t) s.files na ≡ none)
        ↔ (compare_schemas L.printer s.files t.files na ≡ none)
  unfolding compare_files
  compare_files-eq-none s t na = as_error-eq-none (compare_schemas L.printer s.files t.files na)

  -- The three checks of a protobuf schema against a protobuf schema accept exactly the pairs that
  -- the kinds of changes that the check does not allow describe. A previous reserved range counts as
  -- kept if its first and its last number are reserved, whatever becomes of those between them.
  pub protobuf_checks_decide :
      (s t : ProtoSchema)
      → ((is_backward_compatible L (protobuf s) (protobuf t) ≡ none)
          ↔ Compatible backward_compatibility s.files t.files)
        × ((is_forward_compatible L (protobuf s) (protobuf t) ≡ none)
            ↔ Compatible forward_compatibility s.files t.files)
        × ((is_full_compatible L (protobuf s) (protobuf t) ≡ none)
            ↔ Compatible full_compatibility s.files t.files)
  protobuf_checks_decide s t = (
    unfold is_backward_compatible in by_kinds backward_compatibility,
    unfold is_forward_compatible in by_kinds forward_compatibility,
    unfold is_full_compatible in by_kinds full_compatibility,
  )
    where
      by_kinds :
          (na : List DiffKind)
          → (compare_files L (protobuf t) s.files na ≡ none) ↔ Compatible na s.files t.files
      by_kinds na =
          let a = compare_files-eq-none s t na in
          let b = compare_schemas_decides L.printer s.files t.files na in
          (λ h. b.0 (a.0 h), λ h. a.1 (b.1 h))

  -- For protobuf schemas, the full check accepts exactly if the backward check does, and also
  -- exactly if both the backward and the forward check do.
  pub protobuf_checks_ordered :
      (s t : ProtoSchema)
      → ((is_full_compatible L (protobuf s) (protobuf t) ≡ none)
          ↔ (is_backward_compatible L (protobuf s) (protobuf t) ≡ none))
        × ((is_full_compatible L (protobuf s) (protobuf t) ≡ none) ↔ (
            (is_backward_compatible L (protobuf s) (protobuf t) ≡ none)
            × (is_forward_compatible L (protobuf s) (protobuf t) ≡ none)))
  unfolding is_backward_compatible is_forward_compatible is_full_compatible
  protobuf_checks_ordered s t =
      let full = compare_files-eq-none s t full_compatibility in
      let back = compare_files-eq-none s t backward_compatibility in
      let forward = compare_files-eq-none s t forward_compatibility in
      let same = full_iff_backward L.printer s.files t.files in
      let weaker = forward_of_backward L.printer s.files t.files in
      (
        (λ h. back.1 (same.0 (full.0 h)), λ h. full.1 (same.1 (back.0 h))),
        (
          λ h. let b = same.0 (full.0 h) in (back.1 b, forward.1 (weaker b)),
          λ h. full.1 (same.1 (back.0 h.0)),
        ),
      )

  module _ (combines : Combines L) where
    -- For Avro schemas, the full check accepts exactly if the library's check accepts the pair both
    -- ways round.
    pub avro_full_is_both :
        (content content' : Bytes) (a b : L.AvroSchema)
        → (is_full_compatible L (avro content a) (avro content' b) ≡ none)
          ↔ ((L.avro_compatible a b ≡ none) × (L.avro_compatible b a ≡ none))
    unfolding is_full_compatible
    avro_full_is_both content content' a b =
        let both = combines (L.avro_compatible b a) (L.avro_compatible a b) in
        (λ h. let (f, g) = both.0 h in (g, f), λ h. both.1 (h.1, h.0))

    -- Schemas of different formats pass none of the three checks, and a JSON schema passes none
    -- against any schema.
    pub other_format_fails :
        (a b : ParsedSchema L.AvroSchema)
        → (format a ≢ format b) ⊎ (format a ≡ "FORMAT_JSON")
        → (is_backward_compatible L a b ≢ none)
          × (is_forward_compatible L a b ≢ none)
          × (is_full_compatible L a b ≢ none)
    unfolding is_full_compatible format
    other_format_fails (protobuf s) (protobuf t) h = elim h [
      | inl n ↦ absurd (n refl)
      | inr e ↦ absurd (cc ((eq_iff "FORMAT_PROTOBUF" "FORMAT_JSON").1 e))
    ]
    other_format_fails (protobuf s) (avro c a) h = (λ e. cc, λ e. cc, λ e. cc)
    other_format_fails (protobuf s) (json c) h = (λ e. cc, λ e. cc, λ e. cc)
    other_format_fails (avro c a) (protobuf s) h =
        (λ e. cc, λ e. cc, λ e. cc ((combines _ _).0 e).0)
    other_format_fails (avro c a) (avro c' b) h = elim h [
      | inl n ↦ absurd (n refl)
      | inr e ↦ absurd (cc ((eq_iff "FORMAT_AVRO" "FORMAT_JSON").1 e))
    ]
    other_format_fails (avro c a) (json c') h = (λ e. cc, λ e. cc, λ e. cc ((combines _ _).0 e).0)
    other_format_fails (json c) (protobuf s) h = (λ e. cc, λ e. cc, λ e. cc ((combines _ _).0 e).0)
    other_format_fails (json c) (avro c' a) h = (λ e. cc, λ e. cc, λ e. cc ((combines _ _).0 e).0)
    other_format_fails (json c) (json c') h = (λ e. cc, λ e. cc, λ e. cc ((combines _ _).0 e).0)
