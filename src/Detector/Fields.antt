-- ===== src/Detector/Fields.antt =====
-- core/changedetector/utils.go. A getter of a nil descriptor gives what it gives of an empty one.
-- proto.Equal and the order of a loop over a map are parameters.
use mathlib.Core.List.{foldl}
use stencil.Base.{
  String, List, [], ◌∷◌, ◌++◌, map, Bool, true, false, not, ◌||◌, Option, none, some, str_eq, ◌==◌,
  if◌then◌else◌,
}
use stencil.Base.Sprintf.{sprintf}
use stencil.Descriptors.{
  FieldDescriptorProto, EnumValueDescriptorProto, EnumDescriptorProto, DescriptorProto,
}

-- A Go map from names, as its entries.
module _ {A : Type 0} where
  unfoldable pub look_up : String → List (String × A) → Option A
  look_up k [] = none
  look_up k ((j, a) ∷ entries) = let rest = look_up k entries in if str_eq j k then some a else rest

  unfoldable pub remove : String → List (String × A) → List (String × A)
  remove k [] = []
  remove k ((j, a) ∷ entries) =
      let rest = remove k entries in if str_eq j k then rest else ((j, a) ∷ rest)

  unfoldable pub put : (A → String) → List (String × A) → A → List (String × A)
  unfolding remove
  put name entries a = (name a, a) ∷ remove (name a) entries

unfoldable pub differ : Bool → Bool → Bool
differ true b = not b
differ false b = b

-- The comparison of `GetOptions()` with itself is always false.
unfoldable pub is_message_field_deprecated : FieldDescriptorProto → FieldDescriptorProto → Bool
unfolding differ
is_message_field_deprecated field1 field2 = differ field1.deprecated field2.deprecated

unfoldable pub is_message_field_changed : FieldDescriptorProto → FieldDescriptorProto → Bool
unfolding is_message_field_deprecated
is_message_field_changed field1 field2 =
    not (field1.field_type == field2.field_type)
    || not (str_eq field1.name field2.name)
    || is_message_field_deprecated field1 field2

unfoldable pub is_enum_field_deprecated : EnumValueDescriptorProto → EnumValueDescriptorProto → Bool
unfolding differ
is_enum_field_deprecated field1 field2 = differ field1.deprecated field2.deprecated

unfoldable pub is_enum_field_changed : EnumValueDescriptorProto → EnumValueDescriptorProto → Bool
unfolding is_enum_field_deprecated
is_enum_field_changed field1 field2 =
    not (str_eq field1.name field2.name) || is_enum_field_deprecated field1 field2

-- What the loops over the old parts change: the impacted names and the new parts that are left.
abbrev pub Matching : Type 0 → Type 0
Matching A = List String × List (String × A)

unfoldable pub match_field :
    Matching FieldDescriptorProto → FieldDescriptorProto → Matching FieldDescriptorProto
unfolding look_up remove is_message_field_changed
match_field (impacted, new_fields) old = elim (look_up old.name new_fields) [
  | none ↦ (impacted, new_fields)
  | some new ↦ (
    if is_message_field_changed old new then impacted ++ old.name ∷ [] else impacted,
    remove old.name new_fields,
  )
]

unfoldable pub match_value :
    String
    → Matching EnumValueDescriptorProto
    → EnumValueDescriptorProto
    → Matching EnumValueDescriptorProto
unfolding look_up remove is_enum_field_changed
match_value enum_name (impacted, new_fields) old = elim (look_up old.name new_fields) [
  | none ↦ (impacted, new_fields)
  | some new ↦ (
    if is_enum_field_changed old new
        then impacted ++ sprintf (enum_name ∷ "." ∷ old.name ∷ []) ∷ []
        else impacted,
    remove old.name new_fields,
  )
]

module _ (equal_enum : EnumDescriptorProto → EnumDescriptorProto → Bool)
    (range : List String → List String) where
  abbrev keys : {A : Type 0} → List (String × A) → List String
  keys entries = range (map (λ e. e.0) entries)

  -- Only an enum that differs is deleted from the new ones.
  unfoldable pub match_enum :
      Matching EnumDescriptorProto → EnumDescriptorProto → Matching EnumDescriptorProto
  unfolding look_up remove
  match_enum (impacted, new_enums) old = elim (look_up old.name new_enums) [
    | none ↦ (impacted, new_enums)
    | some new ↦
        if equal_enum old new
        then (impacted, new_enums)
        else (impacted ++ old.name ∷ [], remove old.name new_enums)
  ]

  unfoldable pub get_impacted_enum_field_inside_message :
      DescriptorProto → DescriptorProto → List String
  unfolding match_enum put
  get_impacted_enum_field_inside_message old_message_desc new_message_desc =
      let new_enums =
        foldl (put (λ (e : EnumDescriptorProto). e.name)) [] new_message_desc.enum_types in
      let (impacted, left) = foldl match_enum ([], new_enums) old_message_desc.enum_types in
      impacted ++ keys left

  unfoldable pub get_impacted_message_fields : DescriptorProto → DescriptorProto → List String
  unfolding get_impacted_enum_field_inside_message match_field
  get_impacted_message_fields old_message_desc new_message_desc =
      if differ old_message_desc.deprecated new_message_desc.deprecated
      then (old_message_desc.name ∷ [])
      else (let new_fields =
            foldl (put (λ (f : FieldDescriptorProto). f.name)) [] new_message_desc.fields in
          let (impacted, left) = foldl match_field ([], new_fields) old_message_desc.fields in
          impacted
          ++ keys left
          ++ get_impacted_enum_field_inside_message old_message_desc new_message_desc)

  unfoldable pub get_impacted_enum_fields : EnumDescriptorProto → EnumDescriptorProto → List String
  unfolding match_value
  get_impacted_enum_fields old_enum_desc new_enum_desc =
      if differ old_enum_desc.deprecated new_enum_desc.deprecated
      then (old_enum_desc.name ∷ [])
      else (let new_fields =
            foldl (put (λ (v : EnumValueDescriptorProto). v.name)) [] new_enum_desc.values in
          let (impacted, left) =
            foldl (match_value old_enum_desc.name) ([], new_fields) old_enum_desc.values in
          impacted ++ map (λ name. sprintf (new_enum_desc.name ∷ "." ∷ name ∷ [])) (keys left))
