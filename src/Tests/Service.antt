-- ===== src/Tests/Service.antt =====
-- The theorems on core/schema/service.go at concrete inputs.
use stencil.Base.{
  str_eq, if◌then◌else◌, Option, some, String, ℕ, [], ◌∷◌, All, none, ◌≡◌, refl, ◌↔◌, ◌⊎◌,
}
use stencil.Base.Outcome.{Outcome, ok}
use stencil.Formats.Parsed.{avro, is_backward_compatible, is_forward_compatible, is_full_compatible}
use stencil.Service.Checker.{get_compatibility_checker, transitive_checks_all}
use stencil.Service.Guard.{IsAccepted, Kept, create_schema_guarded}
use stencil.Service.Keys.{dashed, names_collide}
use stencil.Service.{schema_key_func, get_id_for_schema}
use stencil.Service.Versions.{ℤ, pos, negsuc, validate_versions}
use stencil.Service.Versions.Bounds.{AreVersions, validate_versions-AreVersions}
use stencil.Store.Tables.{Db, StorageErr, first, max_version, select}
use stencil.Store.Schemas.{find_version, insert_schema, insert_version, create}
use stencil.Tests.Formats.{libraries-Combines}
use stencil.Tests.Samples.{libraries, cache, decimal, text_bytes, tables, metadata, request_in}

checks_both :
    ((get_compatibility_checker libraries "COMPATIBILITY_BACKWARD_TRANSITIVE"
          (avro [] 1)
          (avro [] 1 ∷ avro [] 2 ∷ [])
        ≡ none)
      ↔ All
          (λ prev. is_backward_compatible libraries (avro [] 1) prev ≡ none)
          (avro [] 1 ∷ avro [] 2 ∷ []))
    × ((get_compatibility_checker libraries "COMPATIBILITY_FORWARD_TRANSITIVE"
            (avro [] 1)
            (avro [] 1 ∷ avro [] 2 ∷ [])
          ≡ none)
        ↔ All
            (λ prev. is_forward_compatible libraries (avro [] 1) prev ≡ none)
            (avro [] 1 ∷ avro [] 2 ∷ []))
    × ((get_compatibility_checker libraries "COMPATIBILITY_FULL_TRANSITIVE"
            (avro [] 1)
            (avro [] 1 ∷ avro [] 2 ∷ [])
          ≡ none)
        ↔ All
            (λ prev. is_full_compatible libraries (avro [] 1) prev ≡ none)
            (avro [] 1 ∷ avro [] 2 ∷ []))
checks_both =
    transitive_checks_all libraries libraries-Combines (avro [] 1) (avro [] 1 ∷ avro [] 2 ∷ [])

guarded_books :
    IsAccepted libraries cache decimal text_bytes tables
      (λ _. none)
      "shop"
      "books"
      metadata
      (1 ∷ [])
      "c0ffee"
    ⊎ Kept libraries cache decimal text_bytes tables
        (λ _. none)
        "shop"
        "books"
        metadata
        (1 ∷ [])
        "c0ffee"
guarded_books =
    create_schema_guarded libraries cache decimal text_bytes tables (λ _. none) "shop" "books"
      metadata (1 ∷ []) "c0ffee"

abbrev stored_books : Outcome StorageErr ℕ × Db
stored_books =
    create tables (request_in "shop")
      (get_id_for_schema libraries cache decimal text_bytes (dashed "team" "a") "books" "b3f1")
      "c0ffee"

stored_one : stored_books ≡ (ok 1, stored_books.1)
unfolding create find_version first insert_schema insert_version max_version select
stored_one = refl

collision :
    (schema_key_func libraries cache decimal text_bytes (dashed "team" "a") "books" 1
      ≡ schema_key_func libraries cache decimal text_bytes "team" (dashed "a" "books") 1)
    × (create stored_books.1
          (request_in "shop")
          (get_id_for_schema libraries cache decimal text_bytes "team" (dashed "a" "books") "b3f1")
          "beef"
        ≡ (ok 1, stored_books.1))
collision =
    names_collide libraries cache decimal text_bytes "team" "a" "books" "b3f1" 1 tables
      stored_books.1 (request_in "shop") (request_in "shop") "c0ffee" "beef" 1 stored_one

abbrev parse_small : String → Option ℤ
parse_small s = if str_eq s "1" then some (pos 1) else if str_eq s "3" then some (pos 3) else none

accepts_one_three : validate_versions parse_small 5 "1" "3" ≡ ok (pos 1, pos 3)
unfolding validate_versions
accepts_one_three = refl

one_three-AreVersions :
    AreVersions (pos 1) (pos 3) ⊎ (◌≡◌ {A = ℕ} 5 0 × (pos 1 ≡ negsuc 0) × (pos 3 ≡ pos 0))
one_three-AreVersions =
    validate_versions-AreVersions parse_small 5 "1" "3" (pos 1) (pos 3) accepts_one_three

-- Without a stored version, the versions -1 and 0 pass.
accepts_none : validate_versions parse_small 0 "" "" ≡ ok (negsuc 0, pos 0)
unfolding validate_versions
accepts_none = refl
