-- ===== src/Service/Checker.antt =====
-- core/schema/compatibility.go, and getNonEmpty of core/schema/utils.go.
use stencil.Base.{String, List, [], ◌∷◌, Option, none, ◌≡◌, refl, ◌↔◌, str_eq, if◌then◌else◌, All}
use stencil.Formats.Parsed.Errors.{Error}
use stencil.Formats.Parsed.{
  Libraries, ParsedSchema, is_backward_compatible, is_forward_compatible, is_full_compatible,
}
use stencil.Formats.Parsed.Laws.{Combines}

unfoldable pub get_non_empty : List String → String
get_non_empty [] = ""
get_non_empty (a ∷ args) = if str_eq a "" then get_non_empty args else a

module _ (L : Libraries) where
  abbrev Schema : Type 0
  Schema = ParsedSchema L.AvroSchema

  abbrev ValidationStrategy : Type 0
  ValidationStrategy = Schema → Schema → Option Error

  abbrev CompatibilityFn : Type 0
  CompatibilityFn = Schema → List Schema → Option Error

  -- The body of the loop returns.
  unfoldable pub validate_latest : ValidationStrategy → CompatibilityFn
  validate_latest strategy ps1 [] = none
  validate_latest strategy ps1 (prev ∷ ps2) = strategy ps1 prev

  unfoldable pub validate_rest :
      ValidationStrategy → Schema → Option Error → List Schema → Option Error
  validate_rest strategy ps1 e [] = e
  validate_rest strategy ps1 e (prev ∷ ps2) =
      validate_rest strategy ps1 (L.combine e (strategy ps1 prev)) ps2

  unfoldable pub validate_all : ValidationStrategy → CompatibilityFn
  unfolding validate_rest
  validate_all strategy ps1 ps2 = validate_rest strategy ps1 none ps2

  abbrev backward_strategy : ValidationStrategy
  backward_strategy current prev = is_backward_compatible L current prev

  abbrev forward_strategy : ValidationStrategy
  forward_strategy current prev = is_forward_compatible L current prev

  abbrev full_strategy : ValidationStrategy
  full_strategy current prev = is_full_compatible L current prev

  abbrev default_compatibility_fn : CompatibilityFn
  default_compatibility_fn current prevs = none

  unfoldable pub get_compatibility_checker : String → CompatibilityFn
  unfolding validate_latest validate_all
  get_compatibility_checker compatibility =
      if str_eq compatibility "COMPATIBILITY_BACKWARD"
      then validate_latest backward_strategy
      else if str_eq compatibility "COMPATIBILITY_BACKWARD_TRANSITIVE"
      then validate_all backward_strategy
      else if str_eq compatibility "COMPATIBILITY_FORWARD"
      then validate_latest forward_strategy
      else if str_eq compatibility "COMPATIBILITY_FORWARD_TRANSITIVE"
      then validate_all forward_strategy
      else if str_eq compatibility "COMPATIBILITY_FULL"
      then validate_latest full_strategy
      else if str_eq compatibility "COMPATIBILITY_FULL_TRANSITIVE"
      then validate_all full_strategy
      else default_compatibility_fn

  module _ (combines : Combines L) where
    validate_rest_lem :
        (strategy : ValidationStrategy) (ps1 : Schema) (e : Option Error) (ps2 : List Schema)
        → (validate_rest strategy ps1 e ps2 ≡ none)
          ↔ ((e ≡ none) × All (λ prev. strategy ps1 prev ≡ none) ps2)
    unfolding validate_rest
    validate_rest_lem strategy ps1 e [] = (λ h. (h, tt), λ h. h.0)
    validate_rest_lem strategy ps1 e (prev ∷ ps2) =
        let both = combines e (strategy ps1 prev) in
        let rest = validate_rest_lem strategy ps1 (L.combine e (strategy ps1 prev)) ps2 in
        (
          λ h. let (a, b) = rest.0 h in let (c, d) = both.0 a in (c, (d, b)),
          λ h. let (c, (d, b)) = h in rest.1 (both.1 (c, d), b),
        )

    validate_all_lem :
        (strategy : ValidationStrategy) (ps1 : Schema) (ps2 : List Schema)
        → (validate_all strategy ps1 ps2 ≡ none) ↔ All (λ prev. strategy ps1 prev ≡ none) ps2
    unfolding validate_all
    validate_all_lem strategy ps1 ps2 =
        let h = validate_rest_lem strategy ps1 none ps2 in (λ e. (h.0 e).1, λ a. h.1 (refl, a))

    -- The three transitive modes accept a schema exactly if its check passes against every one of
    -- the schemas given.
    pub transitive_checks_all :
        (current : Schema) (prevs : List Schema)
        → ((get_compatibility_checker "COMPATIBILITY_BACKWARD_TRANSITIVE" current prevs ≡ none)
            ↔ All (λ prev. is_backward_compatible L current prev ≡ none) prevs)
          × ((get_compatibility_checker "COMPATIBILITY_FORWARD_TRANSITIVE" current prevs ≡ none)
              ↔ All (λ prev. is_forward_compatible L current prev ≡ none) prevs)
          × ((get_compatibility_checker "COMPATIBILITY_FULL_TRANSITIVE" current prevs ≡ none)
              ↔ All (λ prev. is_full_compatible L current prev ≡ none) prevs)
    unfolding get_compatibility_checker
    transitive_checks_all current prevs = (
      validate_all_lem backward_strategy current prevs,
      validate_all_lem forward_strategy current prevs,
      validate_all_lem full_strategy current prevs,
    )
