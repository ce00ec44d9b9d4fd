-- ===== src/Formats/Protobuf/Descriptor.antt =====
-- The descriptors that formats/protobuf reads through google.golang.org/protobuf/reflect. That
-- library is not part of the repository: each interface is the record of what its methods return.
use stencil.Base.{ℕ, String, Option, List, Bool}

-- FieldRanges, EnumRanges: `Get(i)` for each i, and `Has`. An int32 is its bit pattern.
pub record Ranges : Type 0 where
  pub get : List (ℕ × ℕ)
  pub has : ℕ → Bool

-- Names: `Get(i)` for each i, and `Has`.
pub record Names : Type 0 where
  pub get : List String
  pub has : String → Bool

-- Cardinality: `IsValid` and `String`.
pub record Cardinality : Type 0 where
  pub is_valid : Bool
  pub string : String

-- Kind: the two kinds that the code names, and the others by their number.
pub data Kind : Type 0 where
  message_kind : Kind
  enum_kind : Kind
  other_kind : ℕ → Kind

-- `message` and `enum` are the full names of `Message()` and `Enum()`.
pub record FieldDescriptor : Type 0 where
  pub name : String
  pub full_name : String
  pub path : String
  pub number : ℕ
  pub json_name : String
  pub cardinality : Cardinality
  pub kind : Kind
  pub message : String
  pub enum : String

pub record EnumValueDescriptor : Type 0 where
  pub name : String
  pub full_name : String
  pub path : String
  pub number : ℕ

pub record EnumDescriptor : Type 0 where
  pub full_name : String
  pub path : String
  pub reserved_ranges : Ranges
  pub reserved_names : Names
  pub values : List EnumValueDescriptor
  pub by_name : String → Option EnumValueDescriptor

-- A message without its nested messages. `path` and `syntax` are those of `ParentFile()`, and
-- `parent_syntax` is `Parent().Syntax()`.
pub record MessageDescriptor : Type 0 where
  pub full_name : String
  pub path : String
  pub syntax : ℕ
  pub parent_syntax : ℕ
  pub reserved_ranges : Ranges
  pub reserved_names : Names
  pub fields : List FieldDescriptor
  pub by_number : ℕ → Option FieldDescriptor
  pub enums : List EnumDescriptor

-- Messages in their order, each with the messages nested in it.
pub data MessageDescriptors : Type 0 where
  no_messages : MessageDescriptors
  message_with : MessageDescriptor → MessageDescriptors → MessageDescriptors → MessageDescriptors

pub record FileDescriptor : Type 0 where
  pub messages : MessageDescriptors
  pub enums : List EnumDescriptor

-- What `FindDescriptorByName` finds.
pub data Descriptor : Type 0 where
  message_descriptor : MessageDescriptor → Descriptor
  enum_descriptor : EnumDescriptor → Descriptor
  other_descriptor : Descriptor

-- protoregistry.Files: the files in the order in which `RangeFiles` takes them.
pub record Files : Type 0 where
  pub range_files : List FileDescriptor
  pub find_descriptor_by_name : String → Option Descriptor

-- How the library prints a number, a kind and a syntax in a message.
pub record Printer : Type 0 where
  pub int32 : ℕ → String
  pub kind : Kind → String
  pub syntax : ℕ → String
