-- ===== src/Api/Namespaces/Stored.antt =====
-- A namespace reads back as it was sent.
use stencil.Base.{
  ℕ, zero, suc, inl, inr, ◌⊎◌, Bool-cases, any, ◌≤◌, String, List, [], ◌∷◌, map, true, false, ◌≡◌,
  refl, ap, ◌∙◌, arith, str_eq, some, if◌then◌else◌,
}
use stencil.Base.Outcome.{ok}
use stencil.Store.Tables.{NamespaceRow, Db, first}
use stencil.Store.Rows.{first-cons, str_eq_refl}
use stencil.Store.Schemas.{has_namespace, one_row}
use stencil.Store.Namespaces.{create_namespace, update_namespace, get_namespace}
use stencil.Api.{schema_format, schema_compatibility, enum_value, enum_string}
use stencil.Api.Namespaces.{
  Namespace, create_namespace_request_to_namespace, namespace_to_proto, proto_of, handle_create,
  handle_update, handle_get,
}

format_back :
    (decimal : ℕ → String) (n : ℕ)
    → n ≤ 3
    → enum_value schema_format (enum_string decimal schema_format n) ≡ n
unfolding enum_value enum_string
format_back decimal zero h = refl
format_back decimal (suc zero) h = refl
format_back decimal (suc (suc zero)) h = refl
format_back decimal (suc (suc (suc zero))) h = refl
format_back decimal (suc (suc (suc (suc n)))) h = absurd (omega (arith, h))

compatibility_back :
    (decimal : ℕ → String) (n : ℕ)
    → n ≤ 6
    → enum_value schema_compatibility (enum_string decimal schema_compatibility n) ≡ n
unfolding enum_value enum_string
compatibility_back decimal zero h = refl
compatibility_back decimal (suc zero) h = refl
compatibility_back decimal (suc (suc zero)) h = refl
compatibility_back decimal (suc (suc (suc zero))) h = refl
compatibility_back decimal (suc (suc (suc (suc zero)))) h = refl
compatibility_back decimal (suc (suc (suc (suc (suc zero))))) h = refl
compatibility_back decimal (suc (suc (suc (suc (suc (suc zero)))))) h = refl
compatibility_back decimal (suc (suc (suc (suc (suc (suc (suc n))))))) h = absurd (omega (arith, h))

-- The namespace that a row made from a request becomes.
request_back :
    (decimal : ℕ → String) (r : Namespace)
    → r.format ≤ 3
    → r.compatibility ≤ 6
    → namespace_to_proto (create_namespace_request_to_namespace decimal r) ≡ r
request_back decimal r f c =
    let proto : ℕ → ℕ → Namespace =
      λ x y. record { id = r.id; format = x; compatibility = y; description = r.description } in
    converted
    ∙ ap
        (λ x. proto x (
          enum_value schema_compatibility
            (enum_string decimal schema_compatibility r.compatibility)))
        (format_back decimal r.format f)
    ∙ ap (proto r.format) (compatibility_back decimal r.compatibility c)
  where
    converted : namespace_to_proto (create_namespace_request_to_namespace decimal r) ≡ record {
      id = r.id;
      format = enum_value schema_format (enum_string decimal schema_format r.format);
      compatibility =
          enum_value schema_compatibility
            (enum_string decimal schema_compatibility r.compatibility);
      description = r.description;
    }
    converted = refl

module _ (db : Db) (ns : NamespaceRow) where
  created :
      has_namespace db ns.id ≡ false
      → ((create_namespace db ns).0 ≡ ok ns)
        × (get_namespace (create_namespace db ns).1 ns.id ≡ ok ns)
  unfolding create_namespace get_namespace one_row
  created fresh = (
    rw (fresh, create_namespace) refl,
    rw (fresh, create_namespace)
        (ap one_row (
          first-cons (λ (n : NamespaceRow). str_eq n.id ns.id) ns db.namespaces
            (str_eq_refl ns.id))),
  )

  replaced :
      (rows : List NamespaceRow)
      → any (λ (n : NamespaceRow). str_eq n.id ns.id) rows ≡ true
      → first
          (λ (n : NamespaceRow). str_eq n.id ns.id)
          (map (λ (n : NamespaceRow). if str_eq n.id ns.id then ns else n) rows)
        ≡ some ns
  unfolding first
  replaced [] h = absurd (cc (h))
  replaced (x ∷ rows) h = elim (Bool-cases (str_eq x.id ns.id)) [
    | inl here ↦ rw (here) (rw (str_eq_refl ns.id) refl)
    | inr later ↦ rw (later) (rw (later) (replaced rows (rw (later) at h)))
  ]

  updated :
      has_namespace db ns.id ≡ true
      → ((update_namespace db ns).0 ≡ ok ns)
        × (get_namespace (update_namespace db ns).1 ns.id ≡ ok ns)
  unfolding update_namespace get_namespace one_row
  updated there = (
    rw (there, update_namespace) refl,
    rw (there, update_namespace) (ap one_row (replaced db.namespaces there)),
  )

-- A namespace with a format and a compatibility of the enums that CreateNamespace or
-- UpdateNamespace stores comes back from the handler, and then from GetNamespace, as it was sent:
-- the one if no namespace has its id, the other if one has.
pub namespace_reads_back :
    (decimal : ℕ → String) (db : Db) (r : Namespace)
    → r.format ≤ 3
    → r.compatibility ≤ 6
    → ((has_namespace db r.id ≡ false)
        × ((handle_create decimal db r).0 ≡ ok r)
        × (handle_get (handle_create decimal db r).1 r.id ≡ ok r))
      ⊎ ((has_namespace db r.id ≡ true)
          × ((handle_update decimal db r).0 ≡ ok r)
          × (handle_get (handle_update decimal db r).1 r.id ≡ ok r))
unfolding handle_create handle_update handle_get
namespace_reads_back decimal db r f c =
    let back : proto_of (ok (create_namespace_request_to_namespace decimal r)) ≡ ok r =
      ap ok (request_back decimal r f c) in
    let row = create_namespace_request_to_namespace decimal r in
    elim (Bool-cases (has_namespace db r.id)) [
      | inl there ↦
          let (a, b) = updated db row there in
          inr (there, ap proto_of a ∙ back, ap proto_of b ∙ back)
      | inr fresh ↦
          let (a, b) = created db row fresh in
          inl (fresh, ap proto_of a ∙ back, ap proto_of b ∙ back)
    ]
