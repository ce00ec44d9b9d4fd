-- ===== src/Service/Versions/Bounds.antt =====
-- The versions that ValidateVersions lets through.
use mathlib.Core.Path.{subst}
use stencil.Base.{
  ℕ, zero, suc, ◌≤◌, ◌<◌, String, false, Option, none, some, ◌≡◌, refl, ◌⊎◌, inl, inr, ltb, leb,
  str_eq, ◌==◌, arith, Bool-cases, Option-cases,
}
use stencil.Base.Outcome.{Outcome, ok, err, Outcome-cases, ◌>>=◌}
use stencil.Service.Versions.{
  ℤ, pos, negsuc, VersionErr, below, not_less, to_version, from_version, ordered, given,
  validate_versions, pred,
}

-- Two versions that may exist, the first below the second.
abbrev pub AreVersions : ℤ → ℤ → Type 0
AreVersions from to = (m n : ℕ) × (from ≡ pos m) × (to ≡ pos n) × (1 ≤ m) × (m < n)

-- What an outcome is when the latest version is `latest`.
abbrev Fits : ℕ → Outcome VersionErr (ℤ × ℤ) → Type 0
Fits latest (err e) = Unit
Fits latest (ok (from, to)) =
    AreVersions from to ⊎ ((latest ≡ 0) × (from ≡ negsuc 0) × (to ≡ pos 0))

abbrev Above : ℕ → Option ℤ → Type 0
Above least none = Unit
Above least (some v) = below least v ≡ false

ordered-Fits : (latest a b : ℕ) → 1 ≤ a → Fits latest (ordered (pos a) (pos b))
unfolding ordered not_less
ordered-Fits latest a b le = elim (Bool-cases (leb b a)) [
  | inl h ↦ rw (h, ordered) tt
  | inr h ↦ rw (h, ordered) (inl (a, b, refl, refl, le, ground arith))
]

rest-Fits :
    (latest : ℕ) (from to : Option ℤ)
    → Above 1 from
    → Above 2 to
    → Fits latest (to_version latest to >>= λ v. ordered (from_version v from) v)
unfolding to_version from_version pred below ordered not_less
rest-Fits latest (some (pos a)) (some (pos b)) h k =
    let h' : ltb a 1 ≡ false = h in ordered-Fits latest a b (ground arith)
rest-Fits latest (some (negsuc a)) to h k = absurd (cc (h))
rest-Fits latest from (some (negsuc b)) h k = absurd (cc (k))
rest-Fits latest none (some (pos zero)) h k = absurd (cc (k))
rest-Fits latest none (some (pos (suc b))) h k =
    let k' : ltb (suc b) 2 ≡ false = k in ordered-Fits latest b (suc b) (ground arith)
rest-Fits zero none none h k = inr (refl, refl, refl)
rest-Fits (suc zero) none none h k = tt
rest-Fits (suc (suc n)) none none h k = elim (Bool-cases (suc (suc n) == 1)) [
  | inl e ↦ absurd (ground arith)
  | inr e ↦ rw e (ordered-Fits (suc (suc n)) (suc n) (suc (suc n)) (omega arith))
]
rest-Fits latest (some (pos a)) none h k = elim (Bool-cases (latest == 1)) [
  | inl e ↦ rw e tt
  | inr e ↦ let h' : ltb a 1 ≡ false = h in rw e (ordered-Fits latest a latest (ground arith))
]

module _ (parse_int : String → Option ℤ) where
  Holds : ℕ → Outcome VersionErr (Option ℤ) → Type 0
  Holds least (err e) = Unit
  Holds least (ok v) = Above least v

  given-Holds : (least : ℕ) (text : String) → Holds least (given parse_int least text)
  unfolding given Holds
  given-Holds least text = elim (Bool-cases (str_eq text "")) [
    | inl h ↦ rw (h, given) tt
    | inr h ↦ elim (Option-cases (parse_int text)) [
      | inl m ↦ rw (h, given) (rw (m, given) tt)
      | inr (v, m) ↦
          rw (h, given)
            (rw (m, given) (elim (Bool-cases (below least v)) [ inl b ↦ rw b tt | inr b ↦ rw b b ]))
    ]
  ]

  given-Above :
      (least : ℕ) (text : String) (v : Option ℤ) → given parse_int least text ≡ ok v → Above least v
  unfolding Holds
  given-Above least text v e = subst (Holds least) e (given-Holds least text)

  validate_versions-Fits :
      (latest : ℕ) (from_text to_text : String)
      → Fits latest (validate_versions parse_int latest from_text to_text)
  unfolding validate_versions
  validate_versions-Fits latest from_text to_text =
      elim (Outcome-cases (given parse_int 1 from_text)) [
        | inr (x, e) ↦ rw (e, validate_versions) tt
        | inl (from, e) ↦ elim (Outcome-cases (given parse_int 2 to_text)) [
          | inr (x, f) ↦ rw (e, validate_versions) (rw (f, validate_versions) tt)
          | inl (to, f) ↦
              rw (e, validate_versions)
                (rw (f, validate_versions)
                  (rest-Fits latest from to (given-Above 1 from_text from e)
                    (given-Above 2 to_text to f)))
        ]
      ]

  -- Two versions that are accepted are at least 1 and the first is below the second, unless no
  -- version is stored: then -1 and 0 may be accepted as well.
  pub validate_versions-AreVersions :
      (latest : ℕ) (from_text to_text : String) (from to : ℤ)
      → validate_versions parse_int latest from_text to_text ≡ ok (from, to)
      → AreVersions from to ⊎ ((latest ≡ 0) × (from ≡ negsuc 0) × (to ≡ pos 0))
  validate_versions-AreVersions latest from_text to_text from to e =
      subst (Fits latest) e (validate_versions-Fits latest from_text to_text)
