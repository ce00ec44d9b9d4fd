-- ===== src/Formats/Parsed.antt =====
-- The parsed schemas of the three formats behind the interface ParsedSchema of
-- core/schema/schema.go: formats/protobuf/schema.go and provider.go, formats/avro, formats/json, and
-- core/schema/provider. The libraries that they call are a parameter.
pub mod Errors
pub mod Laws
pub mod Itself
use stencil.Base.{
  ℕ, String, List, [], ◌∷◌, Bool, true, false, not, ◌&&◌, Option, none, some, str_eq, if◌then◌else◌,
}
use stencil.Formats.Protobuf.Descriptor.{Files, Printer}
use stencil.Formats.Protobuf.Walk.{get_all_messages, get_all_fields}
use stencil.Formats.Protobuf.Diff.{
  DiffKind, CompatibilityErr, backward_compatibility, forward_compatibility, full_compatibility,
}
use stencil.Formats.Protobuf.Compare.{compare_schemas}
use stencil.Formats.Parsed.Errors.{
  Bytes, Error, incompatible, different_schema_formats, nil_pointer, http_status, not_implemented,
  unknown_schema, library, Result, ok, err, ◌>>=◌, wrap,
}

-- google.golang.org/protobuf, hamba/avro, jsonschema, uuid and multierr, as far as they are called.
pub record Libraries : Type 1 where
  pub printer : Printer
  pub DescriptorSet : Type 0
  pub unmarshal : Bytes → Result DescriptorSet
  pub new_files : DescriptorSet → Result Files
  pub marshal : DescriptorSet → Bytes
  pub AvroSchema : Type 0
  pub avro_parse : Bytes → Result AvroSchema
  pub avro_compatible : AvroSchema → AvroSchema → Option Error
  pub avro_fingerprint : AvroSchema → Bytes
  pub JsonValue : Type 0
  pub json_unmarshal : Bytes → Result JsonValue
  pub json_validate : JsonValue → Option Error
  pub new_sha1 : Bytes → String
  pub combine : Option Error → Option Error → Option Error

-- Schema of formats/protobuf.
pub record ProtoSchema : Type 0 where
  pub files : Files
  pub is_valid : Bool
  pub content : Bytes

-- A `*Schema` of one of the three packages.
pub data ParsedSchema (A : Type 0) : Type 0 where
  protobuf : ProtoSchema → ParsedSchema A
  avro : Bytes → A → ParsedSchema A
  json : Bytes → ParsedSchema A

pub record SchemaFile : Type 0 where
  pub id : String
  pub types : List String
  pub fields : List String
  pub content : Bytes

abbrev pub protobuf_format : String
protobuf_format = "FORMAT_PROTOBUF"

abbrev pub avro_format : String
avro_format = "FORMAT_AVRO"

abbrev pub json_format : String
json_format = "FORMAT_JSON"

unfoldable pub format : {A : Type 0} → ParsedSchema A → String
format (protobuf s) = protobuf_format
format (avro content sc) = avro_format
format (json content) = json_format

-- The type assertions `against.(*Schema)`.
unfoldable pub as_protobuf : {A : Type 0} → ParsedSchema A → Option ProtoSchema
as_protobuf (protobuf s) = some s
as_protobuf (avro content sc) = none
as_protobuf (json content) = none

unfoldable pub as_avro : {A : Type 0} → ParsedSchema A → Option A
as_avro (avro content sc) = some sc
as_avro (protobuf s) = none
as_avro (json content) = none

-- `verify` of formats/protobuf: a failed assertion that is let through yields a nil `*Schema`.
unfoldable pub verify_protobuf : {A : Type 0} → ParsedSchema A → Result ProtoSchema
unfolding as_protobuf format
verify_protobuf against = elim (as_protobuf against) [
  | some prev ↦ ok prev
  | none ↦
      if not (str_eq (format against) protobuf_format)
      then err different_schema_formats
      else err nil_pointer
]

-- `verify` of formats/avro.
unfoldable pub verify_avro : {A : Type 0} → ParsedSchema A → Result A
unfolding as_avro format
verify_avro against = elim (as_avro against) [
  | some prev ↦
      if str_eq avro_format (format against)
      then ok prev
      else err (http_status 400 different_schema_formats)
  | none ↦ err (http_status 400 different_schema_formats)
]

module _ (L : Libraries) where
  open L use {
    printer, unmarshal, new_files, marshal, AvroSchema, avro_parse, avro_compatible,
    avro_fingerprint, json_unmarshal, json_validate, new_sha1, combine,
  }

  unfoldable pub compare_files : ParsedSchema AvroSchema → Files → List DiffKind → Option Error
  unfolding verify_protobuf
  compare_files against files not_allowed = elim (verify_protobuf against) [
    | err e ↦ some e
    | ok prev ↦ Errors.as_error (compare_schemas printer files prev.files not_allowed)
  ]

  unfoldable pub is_backward_compatible :
      ParsedSchema AvroSchema → ParsedSchema AvroSchema → Option Error
  unfolding compare_files verify_avro
  is_backward_compatible (protobuf s) against = compare_files against s.files backward_compatibility
  is_backward_compatible (avro content sc) against = elim (verify_avro against) [
    | err e ↦ some e
    | ok prev ↦ avro_compatible sc prev
  ]
  is_backward_compatible (json content) against = some not_implemented

  unfoldable pub is_forward_compatible :
      ParsedSchema AvroSchema → ParsedSchema AvroSchema → Option Error
  unfolding is_backward_compatible
  is_forward_compatible (protobuf s) against = compare_files against s.files forward_compatibility
  is_forward_compatible (avro content sc) against = is_backward_compatible against (avro content sc)
  is_forward_compatible (json content) against = is_backward_compatible against (json content)

  unfoldable pub is_full_compatible :
      ParsedSchema AvroSchema → ParsedSchema AvroSchema → Option Error
  unfolding is_forward_compatible is_backward_compatible
  is_full_compatible (protobuf s) against = compare_files against s.files full_compatibility
  is_full_compatible (avro content sc) against =
      combine (is_forward_compatible (avro content sc) against)
        (is_backward_compatible (avro content sc) against)
  is_full_compatible (json content) against =
      combine (is_forward_compatible (json content) against)
        (is_backward_compatible (json content) against)

  unfoldable pub get_canonical_value : ParsedSchema AvroSchema → SchemaFile
  unfolding get_all_messages get_all_fields
  get_canonical_value (protobuf s) = record {
    id = new_sha1 s.content;
    types = get_all_messages s.files;
    fields = get_all_fields s.files;
    content = s.content;
  }
  get_canonical_value (avro content sc) = record {
    id = new_sha1 (avro_fingerprint sc);
    types = [];
    fields = [];
    content = content;
  }
  get_canonical_value (json content) = record {
    id = new_sha1 content;
    types = [];
    fields = [];
    content = content;
  }

  -- GetParsedSchema of formats/protobuf. Beside an error it returns a schema that no caller reads.
  unfoldable pub parse_protobuf : Bytes → Result (ParsedSchema AvroSchema)
  unfolding wrap
  parse_protobuf content = do
    fds ← wrap "descriptor set file is not valid. " (unmarshal content)
    files ←
        wrap
          "file is not fully contained descriptor file. hint: generate file descriptorset with --include_imports option. "
          (new_files fds)
    ok (protobuf (record { files = files; is_valid = true; content = marshal fds }))

  bad_request : {A : Type 0} → Result A → Result A
  bad_request (ok a) = ok a
  bad_request (err e) = err (http_status 400 e)

  unfoldable pub parse_avro : Bytes → Result (ParsedSchema AvroSchema)
  unfolding bad_request
  parse_avro content = do sc ← bad_request (avro_parse content); ok (avro content sc)

  unfoldable pub parse_json : Bytes → Result (ParsedSchema AvroSchema)
  unfolding bad_request
  parse_json content = do
    val ← bad_request (json_unmarshal content)
    elim (json_validate val) [ some e ↦ err (http_status 400 e) | none ↦ ok (json content) ]

  -- core/schema/provider: the map from a format's name to its parser.
  unfoldable pub parse_schema : String → Bytes → Result (ParsedSchema AvroSchema)
  unfolding parse_protobuf parse_avro parse_json
  parse_schema fmt content =
      if str_eq fmt protobuf_format
      then parse_protobuf content
      else if str_eq fmt avro_format
      then parse_avro content
      else if str_eq fmt json_format
      then parse_json content
      else err unknown_schema
