-- ===== src/Client/Lookup.antt =====
-- clients/go/client.go: the client over the stores of its URLs. A resolver's `Get`, and what the
-- protobuf and JSON libraries do with bytes and values, are parameters. A function is `none` where
-- the code panics. The stores are shared with their goroutines; a call passes them on.
pub mod First
use stencil.Base.{
  String, List, [], ◌∷◌, Bool, true, false, Option, none, some, ℕ, ◌==◌, if◌then◌else◌,
}
use stencil.Base.Outcome.{Outcome, ok, err, ◌>>=◌}
use stencil.Client.Store.{Store, new_store, get_resolver, refresh}

-- The options that setDefaults sets, in seconds.
pub record Options : Type 0 where
  pub auto_refresh : Bool
  pub refresh_interval : ℕ
  pub timeout : ℕ

unfoldable pub set_defaults : Options → Options
set_defaults o = record o {
  refresh_interval = if o.refresh_interval == 0 then 43200 else o.refresh_interval;
  timeout = if o.timeout == 0 then 10 else o.timeout;
}

pub data ClientErr : Type 0 where
  err_not_found : ClientErr
  err_invalid_descriptor : ClientErr
  library_err : String → ClientErr

-- The loop of NewClient; `load` is the first load of a URL with the options.
unfoldable pub new_stores :
    {R E : Type 0} → (String → Outcome E R) → Bool → List String → Outcome E (List (Store R))
new_stores load auto [] = ok []
new_stores load auto (url ∷ urls) =
    new_store (load url) auto >>= λ s. new_stores load auto urls >>= λ stores. ok (s ∷ stores)

unfoldable pub new_client :
    {R E : Type 0}
    → (Options → String → Outcome E R)
    → List String
    → Options
    → Outcome E (List (Store R))
unfolding set_defaults new_stores
new_client load urls options =
    let o = set_defaults options in new_stores (load o) o.auto_refresh urls

-- Client.Refresh: each store's refresh, in a goroutine of its own, with what its loader returned.
unfoldable pub refresh_stores : {R : Type 0} → List (Option R × Store R) → List (Store R)
unfolding refresh
refresh_stores [] = []
refresh_stores ((loaded, s) ∷ rest) = refresh loaded s ∷ refresh_stores rest

module _ {R M : Type 0} (get : R → String → Option M) where
  unfoldable pub get_matching_resolver :
      List (Store R) → String → Option (Option R × List (Store R))
  get_matching_resolver [] class_name = some (none, [])
  get_matching_resolver (s ∷ stores) class_name = elim (get_resolver s) [
    | none ↦ none
    | some (none, s') ↦ some (none, s' ∷ stores)
    | some (some resolver, s') ↦ elim (get resolver class_name) [
      | some m ↦ some (some resolver, s' ∷ stores)
      | none ↦ elim (get_matching_resolver stores class_name) [
        | none ↦ none
        | some (found, stores') ↦ some (found, s' ∷ stores')
      ]
    ]
  ]

  -- What Parse, Serialize and GetDescriptor share: the message type of the class, which the
  -- continuation uses; a nil message type panics.
  unfoldable pub with_message_type :
      {A : Type 0}
      → List (Store R)
      → String
      → (R → M → Outcome ClientErr A)
      → Option (Outcome ClientErr A × List (Store R))
  unfolding get_matching_resolver
  with_message_type stores class_name use_type = elim (get_matching_resolver stores class_name) [
    | none ↦ none
    | some (none, stores') ↦ some (err err_not_found, stores')
    | some (some resolver, stores') ↦ elim (get resolver class_name) [
      | none ↦ none
      | some message_type ↦ some (use_type resolver message_type, stores')
    ]
  ]

  -- `unmarshal` reads the wire format with the resolver's types.
  unfoldable pub parse :
      {P : Type 0}
      → (R → M → List ℕ → Outcome String P)
      → List (Store R)
      → String
      → List ℕ
      → Option (Outcome ClientErr P × List (Store R))
  unfolding with_message_type
  parse unmarshal stores class_name content =
      with_message_type stores class_name (λ resolver message_type.
        elim (unmarshal resolver message_type content) [
          | ok m ↦ ok m
          | err e ↦ err (library_err e)
        ])

  -- `to_json` marshals the value, `from_json` reads JSON into a message, `to_wire` marshals it.
  unfoldable pub serialize :
      {V J P : Type 0}
      → (V → Outcome String J)
      → (R → M → J → Outcome String P)
      → (P → Outcome String (List ℕ))
      → List (Store R)
      → String
      → V
      → Option (Outcome ClientErr (List ℕ) × List (Store R))
  unfolding with_message_type
  serialize to_json from_json to_wire stores class_name value = elim (to_json value) [
    | err e ↦ some (err (library_err e), stores)
    | ok json_bytes ↦ with_message_type stores class_name (λ resolver message_type.
        elim (from_json resolver message_type json_bytes) [
          | err e ↦ err err_invalid_descriptor
          | ok m ↦ elim (to_wire m) [ ok bytes ↦ ok bytes | err e ↦ err (library_err e) ]
        ])
  ]

  -- `descriptor` is the message type's Descriptor.
  unfoldable pub get_descriptor :
      {D : Type 0}
      → (M → D)
      → List (Store R)
      → String
      → Option (Outcome ClientErr D × List (Store R))
  unfolding with_message_type
  get_descriptor descriptor stores class_name =
      with_message_type stores class_name (λ resolver message_type. ok (descriptor message_type))
