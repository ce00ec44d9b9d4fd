-- ===== src/Formats/Protobuf/Diff.antt =====
-- formats/protobuf/error.go, and the kinds of differences of compatibility.go.
use Prim.Native.String.{◌++◌ as str_append}
use stencil.Base.{
  String, List, [], ◌∷◌, ◌++◌, Bool, true, false, not, ◌&&◌, any, str_eq, ℕ, ◌==◌, if◌then◌else◌,
}
use stencil.Base.Sprintf.{sprintf}

pub data DiffKind : Type 0 where
  message_delete : DiffKind
  non_inclusivereserved_range : DiffKind
  non_inclusice_reserved_names : DiffKind
  field_delete : DiffKind
  field_delete_without_reserved_number : DiffKind
  field_delete_without_reserved_name : DiffKind
  field_name_change : DiffKind
  field_labelchange : DiffKind
  field_kind_change : DiffKind
  field_type_change : DiffKind
  enum_delete : DiffKind
  enum_value_delete : DiffKind
  enum_value_delete_without_reserved_number : DiffKind
  enum_value_delete_without_reserved_name : DiffKind
  enum_value_number_change : DiffKind
  syntax_change : DiffKind

-- The value of the constant, counted from 1.
unfoldable pub iota : DiffKind → ℕ
iota message_delete = 1
iota non_inclusivereserved_range = 2
iota non_inclusice_reserved_names = 3
iota field_delete = 4
iota field_delete_without_reserved_number = 5
iota field_delete_without_reserved_name = 6
iota field_name_change = 7
iota field_labelchange = 8
iota field_kind_change = 9
iota field_type_change = 10
iota enum_delete = 11
iota enum_value_delete = 12
iota enum_value_delete_without_reserved_number = 13
iota enum_value_delete_without_reserved_name = 14
iota enum_value_number_change = 15
iota syntax_change = 16

unfoldable pub contains : DiffKind → List DiffKind → Bool
unfolding iota
contains d others = any (λ v. iota v == iota d) others

abbrev pub backward_compatibility : List DiffKind
backward_compatibility =
    message_delete ∷ non_inclusivereserved_range ∷ non_inclusice_reserved_names ∷ field_delete
    ∷ field_name_change ∷ field_labelchange ∷ field_kind_change ∷ field_type_change ∷ enum_delete
    ∷ enum_value_delete ∷ enum_value_number_change ∷ syntax_change ∷ []

abbrev pub forward_compatibility : List DiffKind
forward_compatibility =
    message_delete ∷ non_inclusivereserved_range ∷ non_inclusice_reserved_names ∷ field_name_change
    ∷ field_labelchange ∷ field_kind_change ∷ field_type_change
    ∷ field_delete_without_reserved_number ∷ field_delete_without_reserved_name ∷ enum_delete
    ∷ enum_value_delete_without_reserved_number ∷ enum_value_delete_without_reserved_name
    ∷ enum_value_number_change ∷ syntax_change ∷ []

abbrev pub full_compatibility : List DiffKind
full_compatibility =
    message_delete ∷ non_inclusivereserved_range ∷ non_inclusice_reserved_names ∷ field_name_change
    ∷ field_labelchange ∷ field_kind_change ∷ field_type_change ∷ field_delete ∷ enum_delete
    ∷ enum_value_delete ∷ enum_value_number_change ∷ syntax_change ∷ []

pub record Diff : Type 0 where
  pub kind : DiffKind
  pub msg : String

pub record CompatibilityErr : Type 0 where
  pub not_allowed : List DiffKind
  pub diffs : List Diff

-- `path` is the path of the file that holds the descriptor; `format` is the format with its
-- arguments put in.
unfoldable pub add : DiffKind → String → List String → CompatibilityErr → CompatibilityErr
add kind path format c =
    let msg = sprintf format in
    if contains kind c.not_allowed && not (str_eq msg "")
    then record c {
      diffs = c.diffs ++ record { kind = kind; msg = sprintf (path ∷ ": " ∷ msg ∷ []) } ∷ [];
    }
    else c

unfoldable pub is_empty : CompatibilityErr → Bool
is_empty c = elim c.diffs [ [] ↦ true | _ ∷ _ ↦ false ]

-- strings.Join(msgs, ";")
join_msgs : List Diff → String
join_msgs [] = ""
join_msgs (d ∷ []) = d.msg
join_msgs (d ∷ e ∷ ds) = str_append d.msg (str_append ";" (join_msgs (e ∷ ds)))

unfoldable pub error : CompatibilityErr → String
unfolding join_msgs
error c = join_msgs c.diffs
