-- ===== src/Tests/Validator.antt =====
-- The theorems on pkg/validator at concrete inputs.
use stencil.Base.{String, List, [], ◌∷◌, Memᴰ, some, ◌≡◌, ◌≢◌, ◌⊎◌, ◌↔◌, refl, inl, inr}
use stencil.Base.Outcome.{ok, err}
use stencil.Base.Strings.{join}
use stencil.Base.Sprintf.{sprintf}
use stencil.Validator.{
  FieldDescriptor, Message, no_fields, field_with, message_with, string_value, bytes_value,
  bytes_list, check_if_field_required, check_value_exists, validate_message,
  unary_server_interceptor,
}
use stencil.Validator.Missing.{Missing, IsPlain, validate_message-names}
use stencil.Validator.Interceptor.{interceptor_guards}

abbrev required : String → FieldDescriptor
required name = record { json_name = name; behaviors = 2 ∷ [] }

abbrev optional : String → FieldDescriptor
optional name = record { json_name = name; behaviors = [] }

-- A request with an empty name in a message field, and without data.
abbrev order : Message
order =
    message_with (optional "meta") 3 (field_with (required "name") (string_value "") no_fields) (
      field_with (required "data") (bytes_value [])
        (field_with (optional "tags") bytes_list no_fields))

order-IsPlain : IsPlain order
unfolding check_if_field_required check_value_exists
order-IsPlain = ((inr (λ e. cc (e)), tt), (inr (λ e. cc (e)), (inl refl, tt)))

order_names :
    (names : List String) × (validate_message order ≡ some names)
    × ((name : String) → Memᴰ name names ↔ Missing order name)
order_names = validate_message-names order order-IsPlain

order_guarded :
    (((name : String) → Missing order name → ⊥)
      × (unary_server_interceptor {A = String} (some order) (ok "done") ≡ some (ok "done")))
    ⊎ ((names : List String) × ((names ≢ [])
          × ((name : String) → Memᴰ name names ↔ Missing order name)
          × (unary_server_interceptor {A = String} (some order) (ok "done")
              ≡ some (err (sprintf ("following fields are missing: " ∷ join names ", " ∷ []))))))
order_guarded = interceptor_guards order (ok "done") order-IsPlain
