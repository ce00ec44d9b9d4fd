-- ===== src/Service/Versions.antt =====
-- ValidateVersions of core/schema/service.go. strconv.ParseInt in base 10 for 32 bits is a
-- parameter; `none` is its error.
pub mod Bounds
use stencil.Base.{
  ℕ, zero, suc, ◌≤◌, ◌<◌, String, Bool, true, false, Option, none, some, ◌≡◌, refl, ◌⊎◌, inl, inr,
  ltb, leb, str_eq, eq_iff, ◌==◌, if◌then◌else◌, arith, Bool-cases, Option-cases,
}
use stencil.Base.Outcome.{Outcome, ok, err, ◌>>=◌, Outcome-cases}

-- An int32: n, or -(n + 1).
pub data ℤ : Type 0 where
  pos : ℕ → ℤ
  negsuc : ℕ → ℤ

pub data VersionErr : Type 0 where
  invalid_format : VersionErr
  too_small : VersionErr
  only_one_version : VersionErr
  from_not_less : VersionErr

unfoldable pub below : ℕ → ℤ → Bool
below n (pos k) = ltb k n
below n (negsuc k) = true

-- fromVer >= toVer
unfoldable pub not_less : ℤ → ℤ → Bool
not_less (pos f) (pos t) = leb t f
not_less (pos f) (negsuc t) = true
not_less (negsuc f) (pos t) = false
not_less (negsuc f) (negsuc t) = leb f t

-- toVer - 1
unfoldable pub pred : ℤ → ℤ
pred (pos zero) = negsuc 0
pred (pos (suc n)) = pos n
pred (negsuc n) = negsuc (suc n)

-- The version to compare with: the one given, or the latest.
unfoldable pub to_version : ℕ → Option ℤ → Outcome VersionErr ℤ
to_version latest (some v) = ok v
to_version latest none = if latest == 1 then err only_one_version else ok (pos latest)

unfoldable pub from_version : ℤ → Option ℤ → ℤ
unfolding pred
from_version to (some v) = v
from_version to none = pred to

-- The order of the two versions is checked last.
unfoldable pub ordered : ℤ → ℤ → Outcome VersionErr (ℤ × ℤ)
unfolding not_less
ordered from to = if not_less from to then err from_not_less else ok (from, to)

module _ (parse_int : String → Option ℤ) where
  -- A version of the request, none if it is empty; it must not be below `least`.
  unfoldable pub given : ℕ → String → Outcome VersionErr (Option ℤ)
  unfolding below
  given least version = if str_eq version "" then ok none else elim (parse_int version) [
    | none ↦ err invalid_format
    | some v ↦ if below least v then err too_small else ok (some v)
  ]

  unfoldable pub validate_versions : ℕ → String → String → Outcome VersionErr (ℤ × ℤ)
  unfolding given to_version from_version ordered
  validate_versions latest from_text to_text = do
    from ← given 1 from_text
    to ← given 2 to_text
    to_ver ← to_version latest to
    ordered (from_version to_ver from) to_ver
