-- ===== src/Api.antt =====
-- internal/api: the conversions between requests and the services. An enum of a request is its
-- number, and its text for an unknown number is `%d`, a parameter. A handler's response counts only
-- if it returns no error.
pub mod Namespaces
pub mod Schemas
use stencil.Base.{ℕ, String, List, [], ◌∷◌, Option, none, some, ◌==◌, str_eq, if◌then◌else◌}

-- The tables that the generated code has for an enum: its numbers and their names.
abbrev pub EnumTable : Type 0
EnumTable = List (ℕ × String)

abbrev pub schema_format : EnumTable
schema_format =
    (0, "FORMAT_UNSPECIFIED")
    ∷ (1, "FORMAT_PROTOBUF")
    ∷ (2, "FORMAT_AVRO")
    ∷ (3, "FORMAT_JSON")
    ∷ []

abbrev pub schema_compatibility : EnumTable
schema_compatibility =
    (0, "COMPATIBILITY_UNSPECIFIED")
    ∷ (1, "COMPATIBILITY_BACKWARD")
    ∷ (2, "COMPATIBILITY_BACKWARD_TRANSITIVE")
    ∷ (3, "COMPATIBILITY_FORWARD")
    ∷ (4, "COMPATIBILITY_FORWARD_TRANSITIVE")
    ∷ (5, "COMPATIBILITY_FULL")
    ∷ (6, "COMPATIBILITY_FULL_TRANSITIVE")
    ∷ []

-- The map from names to numbers: 0 for a missing name.
unfoldable pub enum_value : EnumTable → String → ℕ
enum_value [] name = 0
enum_value ((n, s) ∷ rest) name =
    let later = enum_value rest name in if str_eq s name then n else later

-- String() of an enum
unfoldable pub enum_string : (ℕ → String) → EnumTable → ℕ → String
enum_string decimal [] number = decimal number
enum_string decimal ((n, s) ∷ rest) number =
    let later = enum_string decimal rest number in if n == number then s else later

-- The text of an answer to a deletion.
abbrev pub success : String
success = "success"
