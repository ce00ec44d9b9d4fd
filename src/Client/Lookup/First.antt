-- ===== src/Client/Lookup/First.antt =====
-- Which store answers.
use stencil.Base.{
  String, List, [], ◌∷◌, map, Bool, true, Option, none, some, ℕ, ◌≡◌, refl, sym, ap, ◌∙◌, subst,
  Option-cases, inl, inr,
}
use stencil.Base.Outcome.{Outcome, ok, err, Outcome-cases}
use mathlib.Core.Option.{some-injective}
use stencil.Client.Store.{Store, new_store, get_resolver}
use stencil.Client.Store.Runs.{get_resolver-open}
use stencil.Client.Lookup.{
  ClientErr, err_not_found, library_err, err_invalid_descriptor, get_matching_resolver,
  with_message_type, parse, serialize, get_descriptor, new_stores, new_client, Options,
  set_defaults,
}

-- Stores that are open, with their values.
abbrev pub AreServing : {R : Type 0} → List (Store R) → List R → Type 0
AreServing [] [] = Unit
AreServing [] (_ ∷ _) = ⊥
AreServing (_ ∷ _) [] = ⊥
AreServing (s ∷ ss) (r ∷ rs) = (s.open_access ≡ true) × ((s.resolver ≡ some r) × AreServing ss rs)

module _ {R M : Type 0} (get : R → String → Option M) where
  -- The first resolver that has the class, with the message type.
  abbrev pub first_match : List R → String → Option (R × M)
  first_match [] class_name = none
  first_match (r ∷ rs) class_name = elim (get r class_name) [
    | some m ↦ some (r, m)
    | none ↦ first_match rs class_name
  ]

  -- With serving stores the lookup gives the first match's resolver, and leaves them serving.
  get_matching_resolver-first :
      (ss : List (Store R)) (rs : List R) (class_name : String)
      → AreServing ss rs
      → (ss' : List (Store R)) × (get_matching_resolver get ss class_name
          ≡ some (elim (first_match rs class_name) [ some (r, m) ↦ some r | none ↦ none ], ss'))
        × AreServing ss' rs
  unfolding get_matching_resolver
  get_matching_resolver-first [] [] class_name h = ([], refl, tt)
  get_matching_resolver-first [] (r ∷ rs) class_name h = absurd h
  get_matching_resolver-first (s ∷ ss) [] class_name h = absurd h
  get_matching_resolver-first (s ∷ ss) (r ∷ rs) class_name (o, (v, h)) =
      let (u, e, same, o') = get_resolver-open s o in
      let e' : get_resolver s ≡ some (some r, u) = e ∙ ap (λ z. some (z, u)) v in
      elim (Option-cases (get r class_name)) [
        | inl missing ↦
            let (ss', e2, h') = get_matching_resolver-first ss rs class_name h in
            (u ∷ ss', rw (e', missing, e2, get_matching_resolver) refl, (o', (same ∙ v, h')))
        | inr (m, found) ↦ (u ∷ ss, rw (e', found, get_matching_resolver) refl, (o', (same ∙ v, h)))
      ]

  first_match_found :
      (rs : List R) (class_name : String) (r : R) (m : M)
      → first_match rs class_name ≡ some (r, m)
      → get r class_name ≡ some m
  first_match_found [] class_name r m e = absurd (cc (e))
  first_match_found (x ∷ rs) class_name r m e = elim (Option-cases (get x class_name)) [
    | inl missing ↦ first_match_found rs class_name r m (rw (missing, first_match) at e)
    | inr (m', found) ↦
        let e' = some-injective _ _ (rw (found, first_match) at e) in
        ap (λ z. get z class_name) (sym (ap (λ p. p.0) e')) ∙ found ∙ ap (λ p. some p.1) e'
  ]

  with_message_type-first :
      {A : Type 0} (ss : List (Store R)) (rs : List R) (class_name : String)
      (use_type : R → M → Outcome ClientErr A)
      → AreServing ss rs
      → (ss' : List (Store R)) × (with_message_type get ss class_name use_type
          ≡ some (
            elim (first_match rs class_name) [
              | some (r, m) ↦ use_type r m
              | none ↦ err err_not_found
            ],
            ss',
          ))
        × AreServing ss' rs
  unfolding with_message_type
  with_message_type-first ss rs class_name use_type h =
      let (ss', e, h') = get_matching_resolver-first ss rs class_name h in
      elim (Option-cases (first_match rs class_name)) [
        | inl missing ↦ (
          ss',
          rw (missing, with_message_type) (rw (rw (missing) at e, with_message_type) refl),
          h',
        )
        | inr ((r, m), found) ↦ (
          ss',
          rw (found) (
              rw (rw (found) at e, with_message_type, first_match_found rs class_name r m found)
                refl),
          h',
        )
      ]

  -- With open stores that have a value each, Parse, Serialize and GetDescriptor use the message type
  -- that the first store, in the order of the URLs, has for the class, and its resolver; they fail
  -- with ErrNotFound if no store has the class. Serialize first marshals the value to JSON, and
  -- fails with ErrInvalidDescriptor if the JSON does not fit the message. None of them panics, and
  -- the stores stay open and keep their values.
  pub client_answers :
      {P V J D : Type 0} (ss : List (Store R)) (rs : List R) (class_name : String)
      (content : List ℕ) (unmarshal : R → M → List ℕ → Outcome String P)
      (to_json : V → Outcome String J) (from_json : R → M → J → Outcome String P)
      (to_wire : P → Outcome String (List ℕ)) (value : V) (descriptor : M → D)
      → AreServing ss rs
      → ((ss' : List (Store R)) × (parse get unmarshal ss class_name content
            ≡ some (
              elim (first_match rs class_name) [
                | none ↦ err err_not_found
                | some (r, m) ↦ elim (unmarshal r m content) [
                  | ok p ↦ ok p
                  | err e ↦ err (library_err e)
                ]
              ],
              ss',
            ))
          × AreServing ss' rs)
        × (((ss' : List (Store R)) × (serialize get to_json from_json to_wire ss class_name value
                ≡ some (
                  elim (to_json value) [
                    | err e ↦ err (library_err e)
                    | ok j ↦ elim (first_match rs class_name) [
                      | none ↦ err err_not_found
                      | some (r, m) ↦ elim (from_json r m j) [
                        | err e ↦ err err_invalid_descriptor
                        | ok p ↦ elim (to_wire p) [ ok b ↦ ok b | err e ↦ err (library_err e) ]
                      ]
                    ]
                  ],
                  ss',
                ))
              × AreServing ss' rs)
            × ((ss' : List (Store R)) × (get_descriptor get descriptor ss class_name
                  ≡ some (
                    elim (first_match rs class_name) [
                      | none ↦ err err_not_found
                      | some (r, m) ↦ ok (descriptor m)
                    ],
                    ss',
                  ))
                × AreServing ss' rs))
  unfolding parse serialize get_descriptor
  client_answers ss rs class_name content unmarshal to_json from_json to_wire value descriptor h = (
    with_message_type-first ss rs class_name _ h,
    (
      elim (Outcome-cases (to_json value)) [
        | inl (j, e) ↦ rw (e, serialize) (with_message_type-first ss rs class_name _ h)
        | inr (x, e) ↦ (ss, rw (e, serialize) refl, h)
      ],
      with_message_type-first ss rs class_name _ h,
    ),
  )

new_stores-AreServing :
    {R E : Type 0} (load : String → Outcome E R) (auto : Bool) (urls : List String)
    (ss : List (Store R))
    → new_stores load auto urls ≡ ok ss
    → (rs : List R) × (map load urls ≡ map ok rs) × AreServing ss rs
unfolding new_stores new_store
new_stores-AreServing load auto [] [] e = ([], refl, tt)
new_stores-AreServing load auto [] (s ∷ ss) e = absurd (cc (e))
new_stores-AreServing load auto (url ∷ urls) ss e = elim (Outcome-cases (load url)) [
  | inr (x, bad) ↦ absurd (cc (rw (bad, new_stores) at e))
  | inl (r, good) ↦ elim (Outcome-cases (new_stores load auto urls)) [
    | inr (x, bad) ↦ absurd (cc (rw (good, bad, new_stores, new_store) at e))
    | inl (ss', rest) ↦
        let (rs, loads, h) = new_stores-AreServing load auto urls ss' rest in
        let e' = rw (good, rest, new_stores, new_store) at e in
        let made = ap (λ o. elim o [ ok z ↦ z | err _ ↦ ss ]) e' in
        (r ∷ rs, rw (good, loads) refl, subst (λ z. AreServing z (r ∷ rs)) made (refl, (refl, h)))
  ]
]

-- A client that NewClient returns serves, in the order of the URLs, what their loads with the
-- default options gave, and every load succeeded.
pub new_client-AreServing :
    {R E : Type 0} (load : Options → String → Outcome E R) (urls : List String) (options : Options)
    (ss : List (Store R))
    → new_client load urls options ≡ ok ss
    → (rs : List R) × (map (load (set_defaults options)) urls ≡ map ok rs) × AreServing ss rs
unfolding new_client
new_client-AreServing load urls options ss e =
    let o = set_defaults options in new_stores-AreServing (load o) o.auto_refresh urls ss e
