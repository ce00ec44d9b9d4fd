-- ===== src/Validator/Missing.antt =====
-- Which names validateMessage reports, and for which messages it returns.
use mathlib.Core.List.Memᴰ
use stencil.Base.{
  ℕ, String, List, [], ◌∷◌, ◌++◌, Memᴰ, true, false, none, some, ◌==◌, ==_iff, arith, eq_iff, ◌≡◌,
  ◌≢◌, refl, sym, ap, ◌∙◌, subst, ◌⊎◌, inl, inr, ◌↔◌, Bool-cases, Option-cases,
}
use stencil.Base.Sprintf.{sprintf}
use stencil.Validator.{
  FieldDescriptor, Value, bytes_value, string_value, enum_value, other_value, bytes_list,
  string_list, enum_list, Message, no_fields, field_with, message_with, message_list_with,
  check_if_field_required, check_value_exists, add_prefix, own_missing, append_missing,
  validate_message,
}

-- A value that is not there: no bytes, an empty text, or an enum number without a name.
pub data IsAbsent : Value → Type 0 where
  no_bytes : IsAbsent (bytes_value [])
  no_text : IsAbsent (string_value "")
  no_name : IsAbsent (enum_value false)

-- The names of missing fields: a required field without a value, and, below a message field whose
-- value is not empty, the missing fields of that value, after the message field's name and a dot.
pub data Missing : Message → String → Type 0 where
  own :
      (fd : FieldDescriptor) (v : Value) (rest : Message)
      → check_if_field_required fd ≡ true
      → IsAbsent v
      → Missing (field_with fd v rest) fd.json_name
  inner :
      (fd : FieldDescriptor) (size : ℕ) (nested rest : Message) (name : String)
      → size ≢ 0
      → Missing nested name
      → Missing (message_with fd size nested rest) (sprintf (fd.json_name ∷ "." ∷ name ∷ []))
  after_field :
      (fd : FieldDescriptor) (v : Value) (rest : Message) (name : String)
      → Missing rest name
      → Missing (field_with fd v rest) name
  after_message :
      (fd : FieldDescriptor) (size : ℕ) (nested rest : Message) (name : String)
      → Missing rest name
      → Missing (message_with fd size nested rest) name

-- No list of messages, and no required list of bytes or of enums.
abbrev pub IsPlain : Message → Type 0
IsPlain no_fields = Unit
IsPlain (field_with fd v rest) =
    ((check_if_field_required fd ≡ false) ⊎ (check_value_exists v ≢ none)) × IsPlain rest
IsPlain (message_with fd size nested rest) = IsPlain nested × IsPlain rest
IsPlain (message_list_with fd rest) = ⊥

IsAbsent-check : {v : Value} → IsAbsent v → check_value_exists v ≡ some false
unfolding check_value_exists
IsAbsent-check no_bytes = refl
IsAbsent-check no_text = refl
IsAbsent-check no_name = refl

check-IsAbsent : (v : Value) → check_value_exists v ≡ some false → IsAbsent v
unfolding check_value_exists
check-IsAbsent (bytes_value []) e = no_bytes
check-IsAbsent (bytes_value (x ∷ xs)) e = absurd (cc (e))
check-IsAbsent (string_value s) e =
    subst (λ z. IsAbsent (string_value z)) (sym ((eq_iff s "").0 (ground arith))) no_text
check-IsAbsent (enum_value true) e = absurd (cc (e))
check-IsAbsent (enum_value false) e = no_name
check-IsAbsent other_value e = absurd (cc (e))
check-IsAbsent bytes_list e = absurd (cc (e))
check-IsAbsent string_list e = absurd (cc (e))
check-IsAbsent enum_list e = absurd (cc (e))

-- What one field adds.
abbrev Added : FieldDescriptor → Value → String → Type 0
Added fd v n = (check_if_field_required fd ≡ true) × IsAbsent v × (n ≡ fd.json_name)

field_with-cases :
    {fd : FieldDescriptor} {v : Value} {rest : Message} {n : String}
    → Missing (field_with fd v rest) n
    → Added fd v n ⊎ Missing rest n
field_with-cases (own fd v rest r a) = inl (r, a, refl)
field_with-cases (after_field fd v rest n h) = inr h

abbrev Within : FieldDescriptor → ℕ → Message → String → Type 0
Within fd size nested n =
    (size ≢ 0)
    × ((name : String) × Missing nested name × (n ≡ sprintf (fd.json_name ∷ "." ∷ name ∷ [])))

message_with-cases :
    {fd : FieldDescriptor} {size : ℕ} {nested rest : Message} {n : String}
    → Missing (message_with fd size nested rest) n
    → Within fd size nested n ⊎ Missing rest n
message_with-cases (inner fd size nested rest name filled h) = inl (filled, (name, h, refl))
message_with-cases (after_message fd size nested rest n h) = inr h

none-Missing : {n : String} → Missing no_fields n → ⊥
none-Missing h = elim h [ ]

own_missing-names :
    (fd : FieldDescriptor) (v : Value)
    → (check_if_field_required fd ≡ false) ⊎ (check_value_exists v ≢ none)
    → (xs : List String) × (own_missing fd v ≡ some xs) × ((n : String) → Memᴰ n xs ↔ Added fd v n)
unfolding own_missing
own_missing-names fd v plain = elim (Bool-cases (check_if_field_required fd)) [
  | inr optional ↦ (
    [],
    rw (optional, own_missing) refl,
    λ n. (λ i. absurd (Memᴰ.not-nil i), λ a. cc (a.0, optional)),
  )
  | inl required ↦ elim (Option-cases (check_value_exists v)) [
    | inl panics ↦ absurd (elim plain [ inl o ↦ cc (o, required) | inr h ↦ h panics ])
    | inr (true, there) ↦ (
      [],
      rw (required, there, own_missing) refl,
      λ n. (λ i. absurd (Memᴰ.not-nil i), λ a. cc (IsAbsent-check a.1, there)),
    )
    | inr (false, absent) ↦ (
      fd.json_name ∷ [],
      rw (required, absent, own_missing) refl,
      λ n. (
        λ i. (
          required,
          check-IsAbsent v absent,
          elim (Memᴰ.cases_cons i) [ inl e ↦ e | inr j ↦ absurd (Memᴰ.not-nil j) ],
        ),
        λ a. Memᴰ.head a.2,
      ),
    )
  ]
]

mem-add_prefix :
    (pre : String) (xs : List String) (n : String)
    → Memᴰ n (add_prefix pre xs)
      ↔ ((name : String) × Memᴰ name xs × (n ≡ sprintf (pre ∷ "." ∷ name ∷ [])))
unfolding add_prefix
mem-add_prefix pre [] n = (λ i. absurd (Memᴰ.not-nil i), λ h. absurd (Memᴰ.not-nil h.1))
mem-add_prefix pre (x ∷ xs) n =
    let rest = mem-add_prefix pre xs n in
    (
      λ i. elim (Memᴰ.cases_cons i) [
        | inl e ↦ (x, Memᴰ.head refl, e)
        | inr j ↦ let (name, k, e) = rest.0 j in (name, Memᴰ.tail k, e)
      ],
      λ h. elim (Memᴰ.cases_cons h.1) [
        | inl e ↦ Memᴰ.head (h.2 ∙ ap (λ z. sprintf (pre ∷ "." ∷ z ∷ [])) e)
        | inr k ↦ Memᴰ.tail (rest.1 (h.0, k, h.2))
      ],
    )

-- Of a request whose message fields are not lists, and whose required fields of bytes and of enums
-- are not lists, validateMessage returns the names of exactly the missing fields.
pub validate_message-names :
    (m : Message)
    → IsPlain m
    → (names : List String) × (validate_message m ≡ some names)
      × ((name : String) → Memᴰ name names ↔ Missing m name)
unfolding validate_message append_missing
validate_message-names no_fields plain =
    ([], refl, λ n. (λ i. absurd (Memᴰ.not-nil i), λ h. absurd (none-Missing h)))
validate_message-names (message_list_with fd rest) plain = absurd plain
validate_message-names (field_with fd v rest) (mine, plain) =
    let (xs, e, h) = own_missing-names fd v mine in
    let (ys, e2, h2) = validate_message-names rest plain in
    (
      xs ++ ys,
      rw (e, e2, append_missing) refl,
      λ n. (
        λ i. elim (Memᴰ.append_cases xs i) [
          | inl j ↦ let (r, a, same) = (h n).0 j in subst (Missing _) (sym same) (own fd v rest r a)
          | inr j ↦ after_field fd v rest n ((h2 n).0 j)
        ],
        λ q. elim (field_with-cases q) [
          | inl a ↦ Memᴰ.append_left _ ((h n).1 a)
          | inr p ↦ Memᴰ.append_right xs ((h2 n).1 p)
        ],
      ),
    )
validate_message-names (message_with fd size nested rest) (within, plain) =
    let (xs, e, h) = validate_message-names nested within in
    let (ys, e2, h2) = validate_message-names rest plain in
    elim (Bool-cases (size == 0)) [
      | inl empty ↦ (
        ys,
        rw (empty, e2, append_missing) refl,
        λ n. (
          λ i. after_message fd size nested rest n ((h2 n).0 i),
          λ q. elim (message_with-cases q) [
            | inl (filled, _) ↦ absurd (filled ((==_iff size 0).0 empty))
            | inr p ↦ (h2 n).1 p
          ],
        ),
      )
      | inr filled ↦ (
        add_prefix fd.json_name xs ++ ys,
        rw (filled, e, e2, append_missing) refl,
        λ n. (
          λ i. elim (Memᴰ.append_cases (add_prefix fd.json_name xs) i) [
            | inl j ↦
                let (name, k, same) = (mem-add_prefix fd.json_name xs n).0 j in
                subst (Missing _) (sym same) (
                  inner fd size nested rest name (λ z. cc (filled, (==_iff size 0).1 z))
                    ((h name).0 k))
            | inr j ↦ after_message fd size nested rest n ((h2 n).0 j)
          ],
          λ q. elim (message_with-cases q) [
            | inl (_, (name, k, same)) ↦
                Memᴰ.append_left _ ((mem-add_prefix fd.json_name xs n).1 (name, (h name).1 k, same))
            | inr p ↦ Memᴰ.append_right (add_prefix fd.json_name xs) ((h2 n).1 p)
          ],
        ),
      )
    ]
