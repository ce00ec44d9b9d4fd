-- ===== src/Base/Strings.antt =====
-- The functions of Go's `strings` that the code uses.
use Prim.Native.String.{String, ◌++◌ as str_append}
use mathlib.Core.Path.{◌≡◌, refl, ap, ◌∙◌, sym}
use mathlib.Core.Bool.{Bool, true, ◌||◌}
use mathlib.Core.List.{List, [], ◌∷◌}
use mathlib.Core.Logic.{inl, inr}
use text.Mathlib.TextEquality.{eq_iff}
use text.Mathlib.TextLemmas.{cons-append, nil-append}
use native.Mathlib.Omega.{arith}
use mathlib.Core.Option.{Option, none, some}
use stencil.Base.Tests.{str_eq, if◌then◌else◌, Bool-cases}

-- strings.HasSuffix
unfoldable pub has_suffix : String → String → Bool
has_suffix String.[] t = str_eq String.[] t
has_suffix (String.◌∷◌ c s) t = str_eq (String.◌∷◌ c s) t || has_suffix s t

pub has_suffix-append : (s t : String) → has_suffix (str_append s t) t ≡ true
unfolding has_suffix
has_suffix-append String.[] String.[] = refl
has_suffix-append String.[] (String.◌∷◌ d t) =
    ground (arith, eq_iff (String.◌∷◌ d t) (String.◌∷◌ d t), nil-append (String.◌∷◌ d t))
has_suffix-append (String.◌∷◌ c s) t = ground (arith, has_suffix-append s t, cons-append c s t)

pub has_suffix-split : (s t : String) → has_suffix s t ≡ true → (r : String) × (s ≡ str_append r t)
unfolding has_suffix
has_suffix-split String.[] t h = (String.[], (eq_iff String.[] t).0 h ∙ sym (nil-append t))
has_suffix-split (String.◌∷◌ c s) t h = elim (Bool-cases (str_eq (String.◌∷◌ c s) t)) [
  | inl whole ↦ (String.[], (eq_iff (String.◌∷◌ c s) t).0 whole ∙ sym (nil-append t))
  | inr rest ↦
      let (r, e) = has_suffix-split s t (ground arith) in
      (String.◌∷◌ c r, ap (String.◌∷◌ c) e ∙ sym (cons-append c r t))
]

-- The rest of a text that starts with another.
unfoldable pub cut_prefix : String → String → Option String
cut_prefix s String.[] = some s
cut_prefix String.[] (String.◌∷◌ d t) = none
cut_prefix (String.◌∷◌ c s) (String.◌∷◌ d t) =
    let rest = cut_prefix s t in
    if str_eq (String.◌∷◌ c String.[]) (String.◌∷◌ d String.[]) then rest else none

-- strings.Replace with the count 1
unfoldable pub replace_first : String → String → String → String
unfolding cut_prefix
replace_first String.[] old new = elim (cut_prefix String.[] old) [
  | some rest ↦ str_append new rest
  | none ↦ ""
]
replace_first (String.◌∷◌ c s) old new =
    let later = replace_first s old new in
    elim (cut_prefix (String.◌∷◌ c s) old) [
      | some rest ↦ str_append new rest
      | none ↦ String.◌∷◌ c later
    ]

pub cut_prefix-append : (p r : String) → cut_prefix (str_append p r) p ≡ some r
unfolding cut_prefix
cut_prefix-append String.[] String.[] = refl
cut_prefix-append String.[] r = ap some (nil-append r)
cut_prefix-append (String.◌∷◌ d p) r = ground (
  arith,
  cut_prefix-append p r,
  cons-append d p r,
  eq_iff (String.◌∷◌ d String.[]) (String.◌∷◌ d String.[]),
)

-- A text that starts with `old` has that beginning replaced.
pub replace_first-append :
    (old r new : String) → replace_first (str_append old r) old new ≡ str_append new r
unfolding replace_first
replace_first-append old r new = go (str_append old r) (cut_prefix-append old r)
  where
    go : (s : String) → cut_prefix s old ≡ some r → replace_first s old new ≡ str_append new r
    go String.[] e = rw (replace_first, e) refl
    go (String.◌∷◌ c s) e = rw (replace_first, e) refl

-- strings.Join
unfoldable pub join : List String → String → String
join [] sep = ""
join (s ∷ []) sep = s
join (s ∷ t ∷ rest) sep = str_append s (str_append sep (join (t ∷ rest) sep))
