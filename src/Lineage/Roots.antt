-- ===== src/Lineage/Roots.antt =====
-- findRootFQNs of core/schema/lineage.go. A Go map with empty values is the list of its keys; the
-- order in which `range` takes them is a parameter.
pub mod Collected
pub mod Names
use Prim.Native.String.{◌++◌ as str_append}
use mathlib.Core.List.{foldl}
use stencil.Base.{String, List, [], ◌∷◌, Bool, any, ◌||◌, str_eq, if◌then◌else◌}
use stencil.Base.Strings.{has_suffix}
use stencil.Descriptors.{
  DescriptorProtos, no_messages, message_with, EnumDescriptorProto, FileDescriptorProto,
  FileDescriptorSet,
}
use stencil.Lineage.Deps.{qualify}

-- out[key] = struct{}{}
unfoldable pub put_key : String → List String → List String
put_key key out = if any (λ k. str_eq k key) out then out else key ∷ out

unfoldable pub put_enums : String → List EnumDescriptorProto → List String → List String
put_enums prefix [] out = out
put_enums prefix (enum ∷ enums) out =
    put_enums prefix enums (put_key (qualify prefix enum.name) out)

-- collectFQNs for each message of a list in turn: its name, its enums, its nested messages.
unfoldable pub collect_fqns : String → DescriptorProtos → List String → List String
collect_fqns prefix no_messages out = out
collect_fqns prefix (message_with msg nested rest) out =
    let fqn = qualify prefix msg.name in
    collect_fqns prefix rest
      (collect_fqns fqn nested (put_enums fqn msg.enum_types (put_key fqn out)))

unfoldable pub collect_file : List String → FileDescriptorProto → List String
collect_file out fd =
    put_enums fd.package_name fd.enum_types (collect_fqns fd.package_name fd.message_types out)

unfoldable pub is_root : String → String → Bool
is_root schema_name fqn = str_eq fqn schema_name || has_suffix fqn (str_append "." schema_name)

-- The loop over the keys, in the order in which they come.
unfoldable pub select_roots : String → List String → List String
select_roots schema_name [] = []
select_roots schema_name (fqn ∷ fqns) =
    let roots = select_roots schema_name fqns in
    if is_root schema_name fqn then fqn ∷ roots else roots

unfoldable pub find_root_fqns :
    (List String → List String) → FileDescriptorSet → String → List String
find_root_fqns range fds schema_name = select_roots schema_name (range (foldl collect_file [] fds))
