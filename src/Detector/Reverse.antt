-- ===== src/Detector/Reverse.antt =====
-- getReverseDependencies of core/changedetector/proto_change_detector_service.go.
pub mod Edges
use mathlib.Core.List.{foldl}
use stencil.Base.{String, List, [], ◌∷◌, Option, none, some}
use stencil.Descriptors.{
  FieldDescriptorProto, DescriptorProto, DescriptorProtos, no_messages, message_with,
  FileDescriptorProto, FileDescriptorSet,
}
use stencil.Lineage.Walk.{Graph}
use stencil.Lineage.Deps.{qualify, dependency, add_edge}

-- GetMessageType: the messages of a file, not those nested in them.
unfoldable pub get_message_type : DescriptorProtos → List DescriptorProto
get_message_type no_messages = []
get_message_type (message_with msg nested rest) = msg ∷ get_message_type rest

-- The body of the loop over the fields. The test of the type name is that of the lineage.
unfoldable pub add_field : String → Graph → FieldDescriptorProto → Graph
add_field message_name g field = elim (dependency field.type_name) [
  | none ↦ g
  | some dependent_message ↦ add_edge g dependent_message message_name
]

unfoldable pub add_message : String → Graph → DescriptorProto → Graph
unfolding add_field
add_message pkg g msg = foldl (add_field (qualify pkg msg.name)) g msg.fields

unfoldable pub add_file : Graph → FileDescriptorProto → Graph
unfolding add_message get_message_type
add_file g fd = foldl (add_message fd.package_name) g (get_message_type fd.message_types)

unfoldable pub get_reverse_dependencies : FileDescriptorSet → Graph
unfolding add_file
get_reverse_dependencies fds = foldl add_file (λ _. []) fds
