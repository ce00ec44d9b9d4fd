-- ===== src/Formats/Protobuf/Walk.antt =====
-- formats/protobuf/utils.go: the walks over descriptors. A callback is a function on the state that
-- it changes, and returns whether the walk goes on.
use stencil.Base.{String, List, [], ◌∷◌, ◌++◌, Bool, true, Option, none, some, if◌then◌else◌}
use stencil.Formats.Protobuf.Descriptor.{
  MessageDescriptor, MessageDescriptors, no_messages, message_with, EnumDescriptor, FieldDescriptor,
  FileDescriptor, Files, Descriptor, message_descriptor, enum_descriptor, other_descriptor,
}

module _ {ℓ} {S : Type ℓ} where
  -- A message nested in one that stops the walk is not visited, nor is a later sibling.
  unfoldable pub for_each_message : (MessageDescriptor → S → Bool × S) → MessageDescriptors → S → S
  for_each_message f no_messages s = s
  for_each_message f (message_with msg nested rest) s =
      let (more, s') = f msg s in
      let next = for_each_message f rest (for_each_message f nested s') in if more then next else s'

  unfoldable pub each_enum : (EnumDescriptor → S → Bool × S) → List EnumDescriptor → S → S
  each_enum f [] s = s
  each_enum f (e ∷ enums) s =
      let (more, s') = f e s in let next = each_enum f enums s' in if more then next else s'

  unfoldable pub for_each_enum : (EnumDescriptor → S → Bool × S) → FileDescriptor → S → S
  for_each_enum f fd s =
      for_each_message (λ msg t. (true, each_enum f msg.enums t)) fd.messages
        (each_enum f fd.enums s)

  unfoldable pub for_each_field : (FieldDescriptor → S → Bool × S) → List FieldDescriptor → S → S
  for_each_field f [] s = s
  for_each_field f (field ∷ fields) s =
      let (more, s') = f field s in
      let next = for_each_field f fields s' in if more then next else s'

  -- `Files.RangeFiles` with a callback that never stops.
  unfoldable pub range_files : (FileDescriptor → S → S) → List FileDescriptor → S → S
  range_files f [] s = s
  range_files f (fd ∷ fds) s = range_files f fds (f fd s)

unfoldable pub get_message_from_file : FileDescriptor → List String
get_message_from_file file =
    for_each_message (λ msg messages. (true, messages ++ msg.full_name ∷ [])) file.messages []

unfoldable pub get_fields_from_file : FileDescriptor → List String
get_fields_from_file file =
    for_each_message
      (λ msg fields.
        (true, for_each_field (λ fd names. (true, names ++ fd.full_name ∷ [])) msg.fields fields))
      file.messages []

unfoldable pub get_all_messages : Files → List String
get_all_messages s =
    range_files (λ fd all_messages. all_messages ++ get_message_from_file fd) s.range_files []

unfoldable pub get_all_fields : Files → List String
get_all_fields s =
    range_files (λ fd field_names. field_names ++ get_fields_from_file fd) s.range_files []

as_message : Option Descriptor → Option MessageDescriptor
as_message (some (message_descriptor msg)) = some msg
as_message (some (enum_descriptor e)) = none
as_message (some other_descriptor) = none
as_message none = none

as_enum : Option Descriptor → Option EnumDescriptor
as_enum (some (enum_descriptor e)) = some e
as_enum (some (message_descriptor msg)) = none
as_enum (some other_descriptor) = none
as_enum none = none

unfoldable pub get_message : Files → String → Option MessageDescriptor
unfolding as_message
get_message files full_name = as_message (files.find_descriptor_by_name full_name)

unfoldable pub get_enum : Files → String → Option EnumDescriptor
unfolding as_enum
get_enum files full_name = as_enum (files.find_descriptor_by_name full_name)
