-- ===== src/Api/Schemas/Lineage/Query.antt =====
-- What the query of a lineage request asks for: the level and the direction of GetLineage in
-- internal/api/schema.go.
use stencil.Base.{
  ℕ, zero, suc, String, Option, none, some, ◌≡◌, ◌≢◌, refl, sym, subst, false, ◌⊎◌, inl, inr,
  Bool-cases, str_eq, eq_iff, arith,
}
use stencil.Base.Outcome.{ok, err}
use stencil.Lineage.Compute.{invalid_direction, normalize_lineage_direction}
use stencil.Service.Calls.{default_level}
use stencil.Service.Versions.{ℤ, pos, negsuc}
use stencil.Api.Schemas.{positive_level, query_level, query_direction}

-- A number that is positive is taken, and 10 stands for all else.
pub data IsLevel (atoi : String → Option ℤ) (level : String) : ℕ → Type 0 where
  unset : level ≡ "" → IsLevel atoi level 10
  no_number : level ≢ "" → atoi level ≡ none → IsLevel atoi level 10
  zero_given : level ≢ "" → atoi level ≡ some (pos 0) → IsLevel atoi level 10
  negative : level ≢ "" → (k : ℕ) → atoi level ≡ some (negsuc k) → IsLevel atoi level 10
  positive : level ≢ "" → (k : ℕ) → atoi level ≡ some (pos (suc k)) → IsLevel atoi level (suc k)

pub data IsDirection (asked : String) : String → Type 0 where
  either : asked ≡ "" → IsDirection asked "both"
  both : asked ≡ "both" → IsDirection asked "both"
  downstream : asked ≡ "downstream" → IsDirection asked "downstream"
  upstream : asked ≡ "upstream" → IsDirection asked "upstream"

positive_level-suc : (k : ℕ) → positive_level (some (pos (suc k))) ≡ suc k
unfolding positive_level
positive_level-suc k = ground arith

positive_level-IsLevel :
    (atoi : String → Option ℤ) (level : String) (parsed : Option ℤ)
    → level ≢ ""
    → atoi level ≡ parsed
    → IsLevel atoi level (positive_level parsed)
unfolding positive_level
positive_level-IsLevel atoi level none given e = no_number given e
positive_level-IsLevel atoi level (some (negsuc k)) given e = negative given k e
positive_level-IsLevel atoi level (some (pos zero)) given e = zero_given given e
positive_level-IsLevel atoi level (some (pos (suc k))) given e =
    subst (IsLevel atoi level) (sym (positive_level-suc k)) (positive given k e)

differs : (s t : String) → str_eq s t ≡ false → s ≢ t
differs s t h e = absurd (cc (h, (eq_iff s t).1 e))

pub query_level-IsLevel :
    (atoi : String → Option ℤ) (level : String) → IsLevel atoi level (query_level atoi level)
unfolding query_level
query_level-IsLevel atoi level = elim (Bool-cases (str_eq level "")) [
  | inl empty ↦ rw (empty) (unset ((eq_iff level "").0 empty))
  | inr given ↦
      rw (given) (positive_level-IsLevel atoi level (atoi level) (differs level "" given) refl)
]

positive_level-default :
    (parsed : Option ℤ) → default_level (positive_level parsed) ≡ positive_level parsed
unfolding positive_level default_level
positive_level-default none = refl
positive_level-default (some (negsuc n)) = refl
positive_level-default (some (pos n)) = ground arith

-- The level of a request is never 0, so that the service does not change it.
pub query_level-default :
    (atoi : String → Option ℤ) (d : String)
    → default_level (query_level atoi d) ≡ query_level atoi d
unfolding query_level default_level
query_level-default atoi d = elim (Bool-cases (str_eq d "")) [
  | inl empty ↦ rw (empty) refl
  | inr given ↦ rw (given) (positive_level-default (atoi d))
]

IsDirection-cases :
    (asked accepted : String)
    → IsDirection asked accepted
    → (asked ≡ "") ⊎ (asked ≡ "both") ⊎ (asked ≡ "downstream") ⊎ (asked ≡ "upstream")
IsDirection-cases asked _ (either e) = inl e
IsDirection-cases asked _ (both e) = inr (inl e)
IsDirection-cases asked _ (downstream e) = inr (inr (inl e))
IsDirection-cases asked _ (upstream e) = inr (inr (inr e))

refuses :
    (direction : String)
    → str_eq direction "" ≡ false
    → str_eq direction "both" ≡ false
    → str_eq direction "downstream" ≡ false
    → str_eq direction "upstream" ≡ false
    → ¬ ((accepted : String) × IsDirection direction accepted)
refuses direction a b c d (accepted, h) = elim (IsDirection-cases direction accepted h) [
  | inl e ↦ differs _ _ a e
  | inr (inl e) ↦ differs _ _ b e
  | inr (inr (inl e)) ↦ differs _ _ c e
  | inr (inr (inr e)) ↦ differs _ _ d e
]

-- A direction is accepted as itself, an empty one as both, or it is refused.
pub IsDirection-outcome :
    (direction : String)
    → ((accepted : String) × IsDirection direction accepted
        × (normalize_lineage_direction (query_direction direction) ≡ ok accepted))
      ⊎ ((¬ ((accepted : String) × IsDirection direction accepted))
          × (normalize_lineage_direction (query_direction direction)
              ≡ err (invalid_direction direction)))
unfolding normalize_lineage_direction query_direction
IsDirection-outcome direction = elim (Bool-cases (str_eq direction "")) [
  | inl a ↦ inl ("both", either ((eq_iff direction "").0 a), rw (a) refl)
  | inr a ↦ elim (Bool-cases (str_eq direction "both")) [
    | inl b ↦ inl ("both", both ((eq_iff direction "both").0 b), rw (a) (rw (b) (rw (a) refl)))
    | inr b ↦ elim (Bool-cases (str_eq direction "downstream")) [
      | inl c ↦ inl (
        "downstream",
        downstream ((eq_iff direction "downstream").0 c),
        rw (a) (rw (a) (rw (b) (rw (c) refl))),
      )
      | inr c ↦ elim (Bool-cases (str_eq direction "upstream")) [
        | inl d ↦ inl (
          "upstream",
          upstream ((eq_iff direction "upstream").0 d),
          rw (a) (rw (a) (rw (b) (rw (c) (rw (d) refl)))),
        )
        | inr d ↦ inr (refuses direction a b c d, rw (a) (rw (a) (rw (b) (rw (c) (rw (d) refl)))))
      ]
    ]
  ]
]
