-- ===== src/Tests/Cached.antt =====
-- The theorems on the cache and the roots at concrete inputs.
use Prim.Native.String.{◌++◌ as str_append}
use Prim.Native.Nat.{zero}
use text.Mathlib.TextLemmas.{append_cancel_left, append_cancel_right, append-eq-nil_iff}
use mathlib.Core.Option.{some-injective}
use stencil.Base.{
  ℕ, suc, String, Memᴰ, Option, none, some, ◌≡◌, refl, sym, ap, ◌∙◌, ◌⊎◌, inl, inr, ◌↔◌, str_eq,
  if◌then◌else◌, Bool-cases, eq_iff,
}
use stencil.Base.Sprintf.{sprintf}
use stencil.Formats.Parsed.Errors.{Bytes}
use stencil.Lineage.Roots.{find_root_fqns}
use stencil.Lineage.Roots.Collected.{FileNames}
use stencil.Lineage.Roots.Names.{find_root_fqns_lem}
use stencil.Descriptors.{FileDescriptorProto}
use stencil.Service.{Cache, schema_key_func, get_schema, get_latest}
use stencil.Service.Cached.{read_tables, KeepsValues, AreApart, IsCoherent, get_schema-IsCoherent}
use stencil.Store.Schemas.{get_latest_version}
use stencil.Tests.Samples.{libraries, order_set, text_bytes}
use stencil.Tests.Search.{book_tables}

-- Strokes, one for each.
unfoldable tally : ℕ → String
tally zero = ""
tally (suc n) = str_append "I" (tally n)

is_text : ◌≡◌ {A = String} "I" "" → ⊥
is_text e = cc (e)

tally-injective : (a b : ℕ) → tally a ≡ tally b → a ≡ b
unfolding tally
tally-injective zero zero e = refl
tally-injective zero (suc b) e =
    absurd (is_text (((append-eq-nil_iff {p = "I"} {q = tally b}).0 (sym e)).0))
tally-injective (suc a) zero e =
    absurd (is_text (((append-eq-nil_iff {p = "I"} {q = tally a}).0 e).0))
tally-injective (suc a) (suc b) e = ap suc (tally-injective a b (append_cancel_left "I" _ _ e))

-- A cache that keeps everything.
abbrev map_cache : Cache
map_cache = record {
  State = String → Option Bytes;
  lookup = λ st k. st k;
  set = λ st k b k'. if str_eq k k' then some b else st k';
}

-- Only the schema `books` of `shop` is in use.
abbrev IsBooks : String → String → Type 0
IsBooks ns name = (ns ≡ "shop") × (name ≡ "books")

map_cache_keeps : KeepsValues libraries map_cache tally text_bytes IsBooks
map_cache_keeps st k k' b v e = elim (Bool-cases (str_eq k k')) [
  | inl same ↦ inr ((eq_iff k k').0 same, sym (some-injective _ _ (rw (same) at e)))
  | inr differs ↦ inl (rw (differs) at e)
]

IsBooks-AreApart : AreApart libraries map_cache tally text_bytes IsBooks
unfolding schema_key_func sprintf
IsBooks-AreApart ns name ns' name' v v' (n, m) (n', m') e =
    (n ∙ sym n', (m ∙ sym m', tally-injective v v' same))
  where
    e' :
        str_append "shop"
          (str_append "-" (str_append "books" (str_append "-" (str_append (tally v) ""))))
        ≡ str_append "shop"
            (str_append "-" (str_append "books" (str_append "-" (str_append (tally v') ""))))
    e' =
        ap
          (λ z.
            str_append z
              (str_append "-" (str_append "books" (str_append "-" (str_append (tally v) "")))))
          (sym n)
        ∙ ap
            (λ z.
              str_append ns
                (str_append "-" (str_append z (str_append "-" (str_append (tally v) "")))))
            (sym m)
        ∙ e
        ∙ ap
            (λ z.
              str_append ns'
                (str_append "-" (str_append z (str_append "-" (str_append (tally v') "")))))
            m'
        ∙ ap
            (λ z.
              str_append z
                (str_append "-" (str_append "books" (str_append "-" (str_append (tally v') "")))))
            n'

    same : tally v ≡ tally v'
    same = append_cancel_right (tally v) (tally v') "" (
        append_cancel_left "-" _ _ (
          append_cancel_left "books" _ _
            (append_cancel_left "-" _ _ (append_cancel_left "shop" _ _ e'))))

empty_cache-IsCoherent :
    IsCoherent libraries map_cache tally text_bytes IsBooks book_tables (λ _. none)
empty_cache-IsCoherent ns name version b known hit = absurd (cc (hit))

IsBooks-IsCoherent :
    ((get_schema libraries map_cache tally text_bytes book_tables (λ _. none) "shop" "books" 1).0
      ≡ read_tables book_tables "shop" "books" 1)
    × ((get_latest libraries map_cache tally text_bytes book_tables (λ _. none) "shop" "books").0
        ≡ read_tables book_tables "shop" "books" (get_latest_version book_tables "shop" "books"))
    × IsCoherent libraries map_cache tally text_bytes IsBooks book_tables
        (get_schema libraries map_cache tally text_bytes book_tables (λ _. none) "shop" "books" 1).1
    × IsCoherent libraries map_cache tally text_bytes IsBooks book_tables
        (get_latest libraries map_cache tally text_bytes book_tables (λ _. none) "shop" "books").1
IsBooks-IsCoherent =
    get_schema-IsCoherent libraries map_cache tally text_bytes IsBooks map_cache_keeps
      IsBooks-AreApart book_tables (λ _. none) "shop" "books" (refl, refl) empty_cache-IsCoherent 1

order_roots : Memᴰ "shop.Order" (find_root_fqns (λ fqns. fqns) order_set "Order") ↔ (
    ((fd : FileDescriptorProto) × Memᴰ fd order_set × FileNames fd "shop.Order")
    × ((◌≡◌ {A = String} "shop.Order" "Order")
        ⊎ ((p : String) × (◌≡◌ {A = String} "shop.Order" (str_append p (str_append "." "Order"))))))
order_roots =
    find_root_fqns_lem (λ fqns. fqns) order_set "Order" "shop.Order" (λ xs y. (λ i. i, λ i. i))
