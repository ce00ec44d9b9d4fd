-- ===== src/Validator.antt =====
-- pkg/validator: which required fields of a request are missing, and the interceptor that refuses
-- such a request. A message is what protobuf's reflection gives for it. A function is `none` where
-- the code panics: on a list where it asks for bytes, an enum or a message.
pub mod Missing
pub mod Interceptor
use stencil.Base.{
  ℕ, String, List, [], ◌∷◌, ◌++◌, map, Bool, true, false, not, Option, none, some, any, length,
  ◌==◌, str_eq, if◌then◌else◌,
}
use stencil.Base.Sprintf.{sprintf}
use stencil.Base.Strings.{join}
use stencil.Base.Outcome.{Outcome, ok, err}

-- `behaviors` are the numbers in the option google.api.field_behavior.
pub record FieldDescriptor : Type 0 where
  pub json_name : String
  pub behaviors : List ℕ

-- The value of a field that is no message. `declared` says that the enum has a value of this number.
pub data Value : Type 0 where
  bytes_value : List ℕ → Value
  string_value : String → Value
  enum_value : (declared : Bool) → Value
  other_value : Value
  bytes_list : Value
  string_list : Value
  enum_list : Value

-- The fields of a message in the order of its descriptor. A message field has proto.Size of its
-- value and that value's fields.
pub data Message : Type 0 where
  no_fields : Message
  field_with : FieldDescriptor → Value → Message → Message
  message_with : FieldDescriptor → ℕ → Message → Message → Message
  message_list_with : FieldDescriptor → Message → Message

-- annotations.FieldBehavior_REQUIRED
abbrev pub field_behavior_required : ℕ
field_behavior_required = 2

unfoldable pub check_if_field_required : FieldDescriptor → Bool
check_if_field_required f = any (λ e_val. e_val == field_behavior_required) f.behaviors

-- A list of texts is formatted as a text that is not empty.
unfoldable pub check_value_exists : Value → Option Bool
check_value_exists (bytes_value []) = some false
check_value_exists (bytes_value (_ ∷ _)) = some true
check_value_exists (string_value d) = some (not (str_eq d ""))
check_value_exists (enum_value declared) = some declared
check_value_exists other_value = some true
check_value_exists bytes_list = none
check_value_exists string_list = some true
check_value_exists enum_list = none

unfoldable pub add_prefix : String → List String → List String
add_prefix pre = map (λ field. sprintf (pre ∷ "." ∷ field ∷ []))

-- The last test of the loop's body.
unfoldable pub own_missing : FieldDescriptor → Value → Option (List String)
unfolding check_if_field_required check_value_exists
own_missing fd v =
    if check_if_field_required fd
    then elim (check_value_exists v) as (λ _. Option (List String)) [
      | none ↦ none
      | some exists ↦ some (if exists then [] else fd.json_name ∷ [])
    ]
    else some []

-- The names of one field before those of the later ones.
unfoldable pub append_missing : Option (List String) → Option (List String) → Option (List String)
append_missing none later = none
append_missing (some xs) none = none
append_missing (some xs) (some ys) = some (xs ++ ys)

-- A message field counts as there, so that only what it holds can be missing.
unfoldable pub validate_message : Message → Option (List String)
unfolding own_missing append_missing add_prefix
validate_message no_fields = some []
validate_message (field_with fd v rest) = append_missing (own_missing fd v) (validate_message rest)
validate_message (message_list_with fd rest) = none
validate_message (message_with fd size nested rest) =
    let inside = validate_message nested in
    let later = validate_message rest in
    append_missing
      (if size == 0 then some [] else elim inside as (λ _. Option (List String)) [
        | none ↦ none
        | some nested_fields ↦ some (add_prefix fd.json_name nested_fields)
      ])
      later

-- The request, if it is a protobuf message, and the error's text.
unfoldable pub validate : Option Message → Option (Outcome String (Unit {0}))
unfolding validate_message
validate none = some (ok tt)
validate (some msg) = elim (validate_message msg) as (λ _. Option (Outcome String (Unit {0}))) [
  | none ↦ none
  | some [] ↦ some (ok tt)
  | some (f ∷ fs) ↦
      some (err (sprintf ("following fields are missing: " ∷ join (f ∷ fs) ", " ∷ [])))
]

unfoldable pub unary_server_interceptor :
    {A : Type 0} → Option Message → Outcome String A → Option (Outcome String A)
unfolding validate
unary_server_interceptor req handler = elim (validate req) [
  | none ↦ none
  | some (err e) ↦ some (err e)
  | some (ok _) ↦ some handler
]
