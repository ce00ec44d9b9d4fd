-- ===== src/Base/Sprintf.antt =====
-- `fmt.Sprintf`, as the pieces of the format and its arguments put together.
use Prim.Native.String.{String, ◌++◌ as str_append}
use mathlib.Core.Path.{◌≡◌}
use mathlib.Core.Bool.{false}
use mathlib.Core.List.{List, [], ◌∷◌}
use text.Mathlib.TextEquality.{eq_iff}
use text.Mathlib.TextLemmas.{append-eq-nil_iff}
use native.Mathlib.Omega.{arith}
use stencil.Base.Tests.{str_eq}

-- The format's literal pieces and the printed arguments, in their order.
unfoldable pub sprintf : List String → String
sprintf [] = ""
sprintf (s ∷ rest) = str_append s (sprintf rest)

pub sprintf-ne-empty :
    (s : String) (rest : List String) → str_eq s "" ≡ false → str_eq (sprintf (s ∷ rest)) "" ≡ false
unfolding sprintf
sprintf-ne-empty s rest h = ground (
  arith,
  eq_iff s "",
  eq_iff (str_append s (sprintf rest)) "",
  append-eq-nil_iff {p = s} {q = sprintf rest},
)
