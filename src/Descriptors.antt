-- ===== src/Descriptors.antt =====
-- File descriptor sets as core/schema/lineage.go and core/changedetector read them: the messages of
-- descriptor.proto with the fields that are read. A getter of an absent field gives its zero value.
use stencil.Base.{ℕ, String, List, Bool}

-- `field_type` is the number of the field's type; `deprecated` is `GetOptions().GetDeprecated()`.
pub record FieldDescriptorProto : Type 0 where
  pub name : String
  pub field_type : ℕ
  pub type_name : String
  pub deprecated : Bool

pub record EnumValueDescriptorProto : Type 0 where
  pub name : String
  pub deprecated : Bool

-- `others` is what the descriptor holds besides, serialised.
pub record EnumDescriptorProto : Type 0 where
  pub name : String
  pub values : List EnumValueDescriptorProto
  pub deprecated : Bool
  pub others : List ℕ

-- A message without its nested messages.
pub record DescriptorProto : Type 0 where
  pub name : String
  pub fields : List FieldDescriptorProto
  pub enum_types : List EnumDescriptorProto
  pub deprecated : Bool
  pub others : List ℕ

-- Messages in their order, each with the messages nested in it.
pub data DescriptorProtos : Type 0 where
  no_messages : DescriptorProtos
  message_with : DescriptorProto → DescriptorProtos → DescriptorProtos → DescriptorProtos

pub record FileDescriptorProto : Type 0 where
  pub package_name : String
  pub message_types : DescriptorProtos
  pub enum_types : List EnumDescriptorProto

abbrev pub FileDescriptorSet : Type 0
FileDescriptorSet = List FileDescriptorProto
