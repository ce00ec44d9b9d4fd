-- ===== src/Formats/Parsed/Errors.antt =====
-- The errors of the formats, and results that may be one.
use stencil.Base.{ℕ, String, List, Option, none, some}
use stencil.Formats.Protobuf.Diff.{CompatibilityErr}

abbrev pub Bytes : Type 0
Bytes = List ℕ

-- `wrapped` puts a text in front (`%w`). `library` is an error that a library returned, by its text.
pub data Error : Type 0 where
  incompatible : CompatibilityErr → Error
  different_schema_formats : Error
  nil_pointer : Error
  not_implemented : Error
  unknown_schema : Error
  http_status : ℕ → Error → Error
  wrapped : String → Error → Error
  library : String → Error

pub data Result {ℓ} (A : Type ℓ) : Type ℓ where
  ok : A → Result A
  err : Error → Result A

infixl 5 ◌>>=◌
abbrev pub ◌>>=◌ {ℓ κ} : {A : Type ℓ} {B : Type κ} → Result A → (A → Result B) → Result B
ok a >>= f = f a
err e >>= f = err e

-- A `*compatibilityErr` returned as an error.
unfoldable pub as_error : Option CompatibilityErr → Option Error
as_error none = none
as_error (some e) = some (incompatible e)

unfoldable pub wrap : {A : Type 0} → String → Result A → Result A
wrap text (ok a) = ok a
wrap text (err e) = err (wrapped text e)
