-- ===== src/Lineage/Deps.antt =====
-- buildDependencyMaps of core/schema/lineage.go.
pub mod Edges
use Prim.Native.Nat.{◌∣◌}
use Prim.Native.Char.{code}
use Prim.Native.String.{◌++◌ as str_append}
use mathlib.Core.List.{foldl}
use stencil.Base.{
  ℕ, String, List, [], ◌∷◌, ◌++◌, Bool, true, false, Option, none, some, ◌==◌, str_eq,
  if◌then◌else◌,
}
use stencil.Descriptors.{
  FieldDescriptorProto, DescriptorProto, DescriptorProtos, no_messages, message_with,
  FileDescriptorProto, FileDescriptorSet,
}
use stencil.Lineage.Walk.{Graph}

-- prefix + "." + name
abbrev pub qualify : String → String → String
qualify prefix name = str_append prefix (str_append "." name)

-- `typeName != "" && typeName[0] == '.'`, and then `typeName[1:]`.
unfoldable pub dependency : String → Option String
dependency String.[] = none
dependency (String.◌∷◌ c s) = if code c == b'.' then some s else none

-- graph[key] = append(graph[key], value)
unfoldable pub add_edge : Graph → String → String → Graph
add_edge graph key value x = if str_eq x key then graph key ++ value ∷ [] else graph x

-- The two maps.
pub record Maps : Type 0 where
  pub forward_deps : Graph
  pub reverse_deps : Graph

-- The body of the loop over the fields of the message `fqn`, at what `dependency` gives.
add_found : String → Maps → Option String → Maps
add_found fqn maps none = maps
add_found fqn maps (some dep) = record {
  forward_deps = add_edge maps.forward_deps fqn dep;
  reverse_deps = add_edge maps.reverse_deps dep fqn;
}

unfoldable pub add_dependency : String → Maps → FieldDescriptorProto → Maps
unfolding add_found
add_dependency fqn maps field = add_found fqn maps (dependency field.type_name)

-- buildDepsFromMsg for each message of a list in turn, the nested messages after the fields.
unfoldable pub build_deps_from_msgs : String → DescriptorProtos → Maps → Maps
build_deps_from_msgs prefix no_messages maps = maps
build_deps_from_msgs prefix (message_with msg nested rest) maps =
    let fqn = qualify prefix msg.name in
    build_deps_from_msgs prefix rest
      (build_deps_from_msgs fqn nested (foldl (add_dependency fqn) maps msg.fields))

build_deps_from_file : Maps → FileDescriptorProto → Maps
build_deps_from_file maps fd = build_deps_from_msgs fd.package_name fd.message_types maps

unfoldable pub build_dependency_maps : FileDescriptorSet → Maps
unfolding build_deps_from_file
build_dependency_maps fds =
    foldl build_deps_from_file (record { forward_deps = λ _. []; reverse_deps = λ _. [] }) fds
