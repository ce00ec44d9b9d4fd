-- ===== src/Detector/Event.antt =====
-- IdentifySchemaChange of core/changedetector/proto_change_detector_service.go. The id of the event
-- is a parameter, and its time is left out.
pub mod Dependents
use mathlib.Core.List.{foldl}
use stencil.Base.{
  ℕ, zero, suc, String, List, [], ◌∷◌, ◌++◌, Bool, true, false, not, Option, none, some, str_eq,
  ◌&&◌, if◌then◌else◌,
}
use stencil.Base.Outcome.{Outcome, ok, err}
use stencil.Descriptors.{
  EnumDescriptorProto, DescriptorProto, DescriptorProtos, no_messages, message_with,
  FileDescriptorProto, FileDescriptorSet,
}
use stencil.Lineage.Walk.{Graph}
use stencil.Lineage.Deps.{qualify}
use stencil.Detector.Fields.{get_impacted_message_fields, get_impacted_enum_fields}
use stencil.Detector.Impact.{get_dependent_impacted_schemas}
use stencil.Detector.Reverse.{get_reverse_dependencies}
use stencil.Service.Versions.{ℤ, pos, negsuc}

-- A message with the messages nested in it.
abbrev pub Message : Type 0
Message = DescriptorProto × DescriptorProtos

abbrev pub NameLists : Type 0
NameLists = String → Option (List String)

pub record SchemaChangedEvent : Type 0 where
  pub event_id : String
  pub namespace_name : String
  pub schema_name : String
  pub updated_schemas : List String
  pub updated_fields : NameLists
  pub impacted_schemas : NameLists
  pub version : ℕ
  pub source_url : String
  pub commit_sha : String

pub record ChangeRequest : Type 0 where
  pub namespace_id : String
  pub schema_name : String
  pub version : ℕ
  pub old_data : List ℕ
  pub new_data : List ℕ
  pub depth : ℤ
  pub source_url : String
  pub commit_sha : String

pub data ChangeErr : Type 0 where
  previous_is_nil : ChangeErr
  previous_unreadable : ChangeErr
  current_unreadable : ChangeErr

unfoldable pub append_impacted_dependents :
    SchemaChangedEvent → String → List String → SchemaChangedEvent
append_impacted_dependents sce key impacted_dependents = record sce {
  impacted_schemas = λ k. if str_eq k key then some impacted_dependents else sce.impacted_schemas k;
}

unfoldable pub append_impacted_fields :
    SchemaChangedEvent → String → List String → SchemaChangedEvent
append_impacted_fields sce key impacted_fields =
    let fields : List String = elim (sce.updated_fields key) [
      | some val ↦ val ++ impacted_fields
      | none ↦ impacted_fields
    ] in
    record sce { updated_fields = λ k. if str_eq k key then some fields else sce.updated_fields k }

-- The event with one more updated schema and its fields.
unfoldable pub append_updated : SchemaChangedEvent → String → List String → SchemaChangedEvent
unfolding append_impacted_fields
append_updated sce name fields =
    append_impacted_fields (record sce { updated_schemas = sce.updated_schemas ++ name ∷ [] }) name
      fields

unfoldable pub messages_of : DescriptorProtos → List Message
messages_of no_messages = []
messages_of (message_with msg nested rest) = (msg, nested) ∷ messages_of rest

-- A map of the packages to maps of the names: the last descriptor of a name in a package stays.
module _ {A : Type 0} (name : A → String) (parts : FileDescriptorProto → List A) where
  unfoldable pub get_package_map : FileDescriptorSet → String → String → Option A
  get_package_map fds =
      foldl
        (λ m (fd : FileDescriptorProto).
          foldl
            (λ m' part p n.
              if str_eq p fd.package_name && str_eq n (name part) then some part else m' p n)
            m (parts fd))
        (λ _ _. none) fds

unfoldable pub find_enum_descriptor : List EnumDescriptorProto → String → Option EnumDescriptorProto
find_enum_descriptor [] name = none
find_enum_descriptor (enum ∷ enums) name =
    let rest = find_enum_descriptor enums name in if str_eq enum.name name then some enum else rest

unfoldable pub initial_event : String → ChangeRequest → SchemaChangedEvent
initial_event event_id request = record {
  event_id = event_id;
  namespace_name = request.namespace_id;
  schema_name = request.schema_name;
  updated_schemas = [];
  updated_fields = λ _. none;
  impacted_schemas = λ _. none;
  version = request.version;
  source_url = request.source_url;
  commit_sha = request.commit_sha;
}

abbrev no_message : DescriptorProto
no_message = record { name = ""; fields = []; enum_types = []; deprecated = false; others = [] }

abbrev no_enum : EnumDescriptorProto
no_enum = record { name = ""; values = []; deprecated = false; others = [] }

module _ (equal_message : Message → Message → Bool)
    (equal_enum : EnumDescriptorProto → EnumDescriptorProto → Bool)
    (range : List String → List String) where
  -- One enum, of a message or of a file, against the previous one.
  unfoldable pub compare_enum :
      (String → Option EnumDescriptorProto)
      → String
      → SchemaChangedEvent
      → EnumDescriptorProto
      → SchemaChangedEvent
  unfolding append_updated
  compare_enum previous prefix sce new =
      let enum_name = qualify prefix new.name in
      elim (previous new.name) [
        | none ↦
            append_updated sce enum_name (get_impacted_enum_fields equal_enum range no_enum new)
        | some old ↦
            if equal_enum old new
            then sce
            else append_updated sce enum_name (get_impacted_enum_fields equal_enum range old new)
      ]

  unfoldable pub compare_message :
      (String → Option Message) → String → SchemaChangedEvent → Message → SchemaChangedEvent
  unfolding compare_enum find_enum_descriptor
  compare_message previous pkg sce (new, nested) =
      let message_name = qualify pkg new.name in
      elim (previous new.name) [
        | none ↦
            append_updated sce message_name
              (get_impacted_message_fields equal_enum range no_message new)
        | some old ↦
            let sce' =
              (if equal_message old (new, nested)
                then sce
                else append_updated sce message_name
                    (get_impacted_message_fields equal_enum range old.0 new)) in
            foldl (compare_enum (find_enum_descriptor old.0.enum_types) message_name) sce'
              new.enum_types
      ]

  unfoldable pub set_directly_impacted_schemas_and_fields :
      FileDescriptorSet → FileDescriptorSet → SchemaChangedEvent → SchemaChangedEvent
  unfolding compare_message get_package_map messages_of
  set_directly_impacted_schemas_and_fields current_fds prev_fds sce =
      let messages =
        get_package_map (λ (m : Message). m.0.name)
          (λ (fd : FileDescriptorProto). messages_of fd.message_types) prev_fds in
      let enums =
        get_package_map (λ (e : EnumDescriptorProto). e.name)
          (λ (fd : FileDescriptorProto). fd.enum_types) prev_fds in
      foldl
        (λ s (fd : FileDescriptorProto).
          foldl (compare_enum (enums fd.package_name) fd.package_name)
            (foldl (compare_message (messages fd.package_name) fd.package_name) s
              (messages_of fd.message_types))
            fd.enum_types)
        sce current_fds

  -- A negative depth is the largest int32.
  unfoldable pub search_depth : ℤ → ℕ
  search_depth (pos n) = n
  search_depth (negsuc n) = 2147483647

  unfoldable pub append_dependents : Graph → ℕ → SchemaChangedEvent → String → SchemaChangedEvent
  unfolding append_impacted_dependents
  append_dependents reverse_dependencies depth sce schema =
      append_impacted_dependents sce schema
        (get_dependent_impacted_schemas reverse_dependencies schema depth)

  unfoldable pub changed_event :
      FileDescriptorSet → FileDescriptorSet → String → ChangeRequest → SchemaChangedEvent
  unfolding set_directly_impacted_schemas_and_fields append_dependents search_depth initial_event
  changed_event current_fds prev_fds event_id request =
      let sce =
        set_directly_impacted_schemas_and_fields current_fds prev_fds
          (initial_event event_id request) in
      foldl (append_dependents (get_reverse_dependencies current_fds) (search_depth request.depth))
        sce sce.updated_schemas

  unfoldable pub identify_schema_change :
      (List ℕ → Outcome String FileDescriptorSet)
      → String
      → ChangeRequest
      → Outcome ChangeErr SchemaChangedEvent
  unfolding changed_event
  identify_schema_change unmarshal event_id request = elim request.old_data [
    | [] ↦ err previous_is_nil
    | b ∷ bytes ↦ elim (unmarshal (b ∷ bytes)) [
      | err _ ↦ err previous_unreadable
      | ok prev_fds ↦ elim (unmarshal request.new_data) [
        | err _ ↦ err current_unreadable
        | ok current_fds ↦ ok (changed_event current_fds prev_fds event_id request)
      ]
    ]
  ]
