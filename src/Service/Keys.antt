-- ===== src/Service/Keys.antt =====
-- The texts that name a schema's version in the cache and in the tables: schemaKeyFunc of
-- core/schema/utils.go and getIDforSchema of core/schema/service.go.
use Prim.Native.String.{◌++◌ as str_append}
use text.Mathlib.TextLemmas.{append_assoc}
use mathlib.Core.Path.{subst}
use stencil.Base.{ℕ, String, List, [], ◌∷◌, ◌≡◌, sym, ap, ◌∙◌}
use stencil.Base.Sprintf.{sprintf}
use stencil.Base.Outcome.{ok}
use stencil.Formats.Parsed.Errors.{Bytes}
use stencil.Formats.Parsed.{Libraries}
use stencil.Service.{Cache, schema_key_func, get_id_for_schema}
use stencil.Store.Tables.{Db}
use stencil.Store.Schemas.{UpdateSchemaRequest, create}
use stencil.Store.Create.{create_again}

abbrev pub dashed : String → String → String
dashed a b = str_append a (str_append "-" b)

shifted :
    (a b c : String) (rest : List String)
    → sprintf (dashed a b ∷ "-" ∷ c ∷ rest) ≡ sprintf (a ∷ "-" ∷ dashed b c ∷ rest)
unfolding sprintf
shifted a b c rest =
    let r = sprintf rest in
    append_assoc a (str_append "-" b) (str_append "-" (str_append c r))
    ∙ ap (str_append a) (
        append_assoc "-" b (str_append "-" (str_append c r))
        ∙ ap (str_append "-") (
            ap (str_append b) (sym (append_assoc "-" c r))
            ∙ sym (append_assoc b (str_append "-" c) r)))

module _ (L : Libraries) (C : Cache) (decimal : ℕ → String) (text_bytes : String → Bytes) where
  -- Two pairs of a namespace and a schema that differ only in the dash at which they are split
  -- have one key in the cache for each version, and one version id for each file: once a version
  -- of the first has been created, `Create` of the second, with that file, returns the version of
  -- the first and stores nothing.
  pub names_collide :
      (a b c file : String) (number : ℕ) (db db' : Db) (request request' : UpdateSchemaRequest)
      (commit_sha commit_sha' : String) (version : ℕ)
      → create db request (get_id_for_schema L C decimal text_bytes (dashed a b) c file) commit_sha
        ≡ (ok version, db')
      → (schema_key_func L C decimal text_bytes (dashed a b) c number
          ≡ schema_key_func L C decimal text_bytes a (dashed b c) number)
        × (create db' request'
              (get_id_for_schema L C decimal text_bytes a (dashed b c) file)
              commit_sha'
            ≡ (ok version, db'))
  unfolding schema_key_func get_id_for_schema
  names_collide a b c file number db db' request request' sha sha' version e =
      let same = ap (λ s. L.new_sha1 (text_bytes s)) (shifted a b c ("-" ∷ file ∷ [])) in
      (
        shifted a b c ("-" ∷ decimal number ∷ []),
        subst (λ id. create db' request' id sha' ≡ (ok version, db')) same
            (create_again db request request' _ sha sha' version db' e),
      )
