-- ===== src/Client/Resolver.antt =====
-- clients/go/resolver.go and protoutils.go: the types of a file descriptor set under their Java
-- class names. The registry of types (protoregistry.Types) and the descriptors are the protobuf
-- library's; a registration that fails changes nothing, and the code ignores its error.
pub mod Names
use mathlib.Core.List.{foldl}
use stencil.Base.{String, List, [], ◌∷◌, Bool, Option, none, some, ℕ, str_eq, if◌then◌else◌}
use stencil.Base.Strings.{replace_first}
use stencil.Base.Sprintf.{sprintf}
use stencil.Base.Outcome.{Outcome, ok, err}

-- Messages in their order: the full name, the extensions and the enums declared in the message,
-- the messages nested in it, and the messages after it.
pub data MessageDescriptors : Type 0 where
  no_messages : MessageDescriptors
  message_with :
      String
      → List String
      → List String
      → MessageDescriptors
      → MessageDescriptors
      → MessageDescriptors

-- `java_package` is the option java_package, `none` if it or the options are absent.
pub record FileDescriptor : Type 0 where
  pub package_name : String
  pub java_package : Option String
  pub extensions : List String
  pub enums : List String
  pub messages : MessageDescriptors

-- protoregistry.Types, and dynamicpb's types under their full names.
pub record Registry (T M : Type 0) : Type 0 where
  pub no_types : T
  pub register_extension : String → T → T
  pub register_enum : String → T → T
  pub register_message : String → T → T
  pub find_message_by_name : T → String → Option M

pub record Resolver (T : Type 0) : Type 0 where
  pub types : T
  pub java_to_proto_name : String → Option String

unfoldable pub get_java_package : FileDescriptor → String
get_java_package file = elim file.java_package [ some name ↦ name | none ↦ "" ]

-- `file` is the message's parent file.
unfoldable pub default_key_fn : FileDescriptor → String → String
unfolding get_java_package
default_key_fn file full_name =
    let pkg = get_java_package file in
    if str_eq pkg ""
    then full_name
    else if str_eq file.package_name ""
    then sprintf (pkg ∷ "." ∷ full_name ∷ [])
    else replace_first full_name file.package_name pkg

-- `m[key] = value`
unfoldable pub put : (String → Option String) → String → String → String → Option String
put m key value k = if str_eq k key then some value else m k

module _ {T M : Type 0} (registry : Registry T M) where
  unfoldable pub get : Resolver T → String → Option M
  get r class_name =
      let full_name : String = elim (r.java_to_proto_name class_name) [
        | some name ↦ name
        | none ↦ class_name
      ] in
      registry.find_message_by_name r.types full_name

  unfoldable pub add_extensions : Resolver T → List String → Resolver T
  add_extensions r exts = record r {
    types = foldl (λ t ext. registry.register_extension ext t) r.types exts;
  }

  unfoldable pub add_enums : Resolver T → List String → Resolver T
  add_enums r enums = record r {
    types = foldl (λ t enum. registry.register_enum enum t) r.types enums;
  }

  unfoldable pub add_from_messages : FileDescriptor → MessageDescriptors → Resolver T → Resolver T
  unfolding add_extensions add_enums
  add_from_messages file no_messages r = r
  add_from_messages file (message_with msg exts enums nested rest) r =
      let registered : Resolver T = record {
        types = registry.register_message msg r.types;
        java_to_proto_name = put r.java_to_proto_name (default_key_fn file msg) msg;
      } in
      add_from_messages file rest
        (add_enums (add_extensions (add_from_messages file nested registered) exts) enums)

  unfoldable pub register_file : Resolver T → FileDescriptor → Resolver T
  unfolding add_extensions add_enums add_from_messages
  register_file r file =
      add_from_messages file file.messages (add_enums (add_extensions r file.extensions) file.enums)

  -- The files in the order in which RangeFiles gives them.
  unfoldable pub register_files : List FileDescriptor → Resolver T
  unfolding register_file
  register_files files =
      foldl register_file (record { types = registry.no_types; java_to_proto_name = λ _. none })
        files

  module _ {D : Type 0} (unmarshal : List ℕ → Outcome String D)
      (new_files : D → Outcome String (List FileDescriptor)) where
    unfoldable pub get_files_registry : List ℕ → Outcome String (List FileDescriptor)
    get_files_registry content = elim (unmarshal content) [
      | err e ↦ err (sprintf ("invalid file descriptorset file. " ∷ e ∷ []))
      | ok msg ↦ new_files msg
    ]

    unfoldable pub new_resolver : List ℕ → Outcome String (Resolver T)
    unfolding get_files_registry register_files
    new_resolver content = elim (get_files_registry content) [
      | err e ↦ err (sprintf ("file is not fully contained descriptor file. " ∷ e ∷ []))
      | ok files ↦ ok (register_files files)
    ]
