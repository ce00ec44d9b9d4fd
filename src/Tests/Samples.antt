-- ===== src/Tests/Samples.antt =====
-- Small schemas, graphs, tables and libraries.
use stencil.Base.{
  ℕ, String, List, [], ◌∷◌, length, true, false, Option, none, some, str_eq, ◌==◌, if◌then◌else◌,
  ◌||◌,
}
use stencil.Base.Outcome.{Outcome, ok as done}
use stencil.Formats.Protobuf.Descriptor.{
  Files, FileDescriptor, MessageDescriptor, FieldDescriptor, other_kind, Printer,
  message_descriptor, no_messages, message_with,
}
use stencil.Formats.Parsed.Errors.{Error, library, ok}
use stencil.Formats.Parsed.{Libraries, ProtoSchema}
use stencil.Lineage.Walk.{Graph}
use stencil.Descriptors.{
  FieldDescriptorProto, no_messages as no_types, message_with as type_with, FileDescriptorSet,
}
use stencil.Service.{Cache}
use stencil.Store.Tables.{NamespaceRow, Db}
use stencil.Store.Schemas.{Metadata, UpdateSchemaRequest}

abbrev pub printer : Printer
printer = record { int32 = λ _. "7"; kind = λ _. "string"; syntax = λ _. "proto3" }

abbrev pub combine : Option Error → Option Error → Option Error
combine none b = b
combine (some a) b = some a

abbrev pub title : FieldDescriptor
title = record {
  name = "title";
  full_name = "shop.Book.title";
  path = "book.proto";
  number = 1;
  json_name = "title";
  cardinality = record { is_valid = true; string = "optional" };
  kind = other_kind 9;
  message = "";
  enum = "";
}

abbrev pub book : MessageDescriptor
book = record {
  full_name = "shop.Book";
  path = "book.proto";
  syntax = 3;
  parent_syntax = 3;
  reserved_ranges = record { get = (2, 4) ∷ []; has = λ n. (n == 2) || (n == 3) };
  reserved_names = record { get = "isbn" ∷ []; has = λ s. str_eq s "isbn" };
  fields = title ∷ [];
  by_number = λ n. if n == 1 then some title else none;
  enums = [];
}

abbrev pub book_file : FileDescriptor
book_file = record { messages = message_with book no_messages no_messages; enums = [] }

abbrev pub book_files : Files
book_files = record {
  range_files = book_file ∷ [];
  find_descriptor_by_name =
      λ s. if str_eq s "shop.Book" then some (message_descriptor book) else none;
}

-- The same without the message.
abbrev pub no_files : Files
no_files = record { range_files = []; find_descriptor_by_name = λ _. none }

abbrev pub book_schema : ProtoSchema
book_schema = record { files = book_files; is_valid = true; content = 1 ∷ 2 ∷ [] }

abbrev pub empty_schema : ProtoSchema
empty_schema = record { files = no_files; is_valid = true; content = [] }

abbrev pub libraries : Libraries
libraries = record {
  printer = printer;
  DescriptorSet = List ℕ;
  unmarshal = λ b. ok b;
  new_files = λ _. ok book_files;
  marshal = λ b. b;
  AvroSchema = ℕ;
  avro_parse = λ b. ok (length b);
  avro_compatible = λ a b. if a == b then none else some (library "incompatible");
  avro_fingerprint = λ a. a ∷ [];
  JsonValue = List ℕ;
  json_unmarshal = λ b. ok b;
  json_validate = λ _. none;
  new_sha1 = λ _. "b3f1";
  combine = combine;
}

-- Two types that use each other, and a third one that the first uses.
abbrev pub ring : Graph
ring s =
    if str_eq s ".shop.Order"
    then (".shop.Book" ∷ ".shop.Item" ∷ [])
    else if str_eq s ".shop.Item"
    then (".shop.Order" ∷ [])
    else []

abbrev pub field_of : String → String → FieldDescriptorProto
field_of name type_name = record {
  name = name;
  field_type = 11;
  type_name = type_name;
  deprecated = false;
}

abbrev pub order_set : FileDescriptorSet
order_set =
    record {
      package_name = "shop";
      message_types =
          type_with
            (record {
              name = "Order";
              fields = field_of "book" ".shop.Book" ∷ field_of "next" ".shop.Order" ∷ [];
              enum_types = [];
              deprecated = false;
              others = [];
            })
            no_types
            (type_with
              (record {
                name = "Book";
                fields = [];
                enum_types = [];
                deprecated = false;
                others = [];
              })
              no_types no_types);
      enum_types = [];
    }
    ∷ []

abbrev pub unmarshal_order : List ℕ → Outcome String FileDescriptorSet
unmarshal_order content = done order_set

abbrev pub shop : NamespaceRow
shop = record {
  id = "shop";
  format = "FORMAT_PROTOBUF";
  compatibility = "COMPATIBILITY_FULL";
  description = "";
}

abbrev pub tables : Db
tables = record {
  namespaces = shop ∷ [];
  schemas = [];
  versions = [];
  schema_files = [];
  versions_schema_files = [];
  next_schema_id = 1;
}

abbrev pub metadata : Metadata
metadata = record {
  authority = "";
  format = "FORMAT_PROTOBUF";
  compatibility = "COMPATIBILITY_FULL";
  source_url = "";
}

abbrev pub request_in : String → UpdateSchemaRequest
request_in ns = record {
  namespace_name = ns;
  schema = "books";
  metadata = metadata;
  schema_file = record {
    id = "b3f1";
    types = "shop.Book" ∷ [];
    fields = "shop.Book.title" ∷ [];
    content = 1 ∷ 2 ∷ [];
  };
}

abbrev pub cache : Cache
cache = record {
  State = String → Option (List ℕ);
  lookup = λ st key. st key;
  set = λ st key val k. if str_eq k key then some val else st k;
}

abbrev pub decimal : ℕ → String
decimal n = if n == 1 then "1" else "2"

abbrev pub text_bytes : String → List ℕ
text_bytes _ = []
