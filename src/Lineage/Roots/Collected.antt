-- ===== src/Lineage/Roots/Collected.antt =====
-- Which names collectFQNs adds to the keys.
use mathlib.Core.List.Memᴰ
use stencil.Base.{
  String, List, [], ◌∷◌, Memᴰ, true, any, str_eq, eq_iff, ◌≡◌, refl, sym, ap, ◌∙◌, subst, ◌⊎◌, inl,
  inr, ◌↔◌, Bool-cases,
}
use stencil.Descriptors.{
  DescriptorProto, DescriptorProtos, no_messages, message_with, EnumDescriptorProto,
  FileDescriptorProto,
}
use stencil.Lineage.Deps.{qualify}
use stencil.Lineage.Roots.{put_key, put_enums, collect_fqns}

-- One of the enums has the full name `x`.
abbrev pub NamesEnum : String → List EnumDescriptorProto → String → Type 0
NamesEnum prefix enums x =
    (enum : EnumDescriptorProto) × Memᴰ enum enums × (x ≡ qualify prefix enum.name)

-- The full names of messages and of their enums, nested at any depth.
pub data Names : String → DescriptorProtos → String → Type 0 where
  message :
      (prefix : String) (msg : DescriptorProto) (nested rest : DescriptorProtos)
      → Names prefix (message_with msg nested rest) (qualify prefix msg.name)
  enum_of :
      (prefix : String) (msg : DescriptorProto) (nested rest : DescriptorProtos) (x : String)
      → NamesEnum (qualify prefix msg.name) msg.enum_types x
      → Names prefix (message_with msg nested rest) x
  inside :
      (prefix : String) (msg : DescriptorProto) (nested rest : DescriptorProtos) (x : String)
      → Names (qualify prefix msg.name) nested x
      → Names prefix (message_with msg nested rest) x
  later :
      (prefix : String) (msg : DescriptorProto) (nested rest : DescriptorProtos) (x : String)
      → Names prefix rest x
      → Names prefix (message_with msg nested rest) x

abbrev pub FileNames : FileDescriptorProto → String → Type 0
FileNames fd x =
    Names fd.package_name fd.message_types x ⊎ NamesEnum fd.package_name fd.enum_types x

Names-cases :
    {prefix : String} {msg : DescriptorProto} {nested rest : DescriptorProtos} {x : String}
    → Names prefix (message_with msg nested rest) x
    → (x ≡ qualify prefix msg.name)
      ⊎ (NamesEnum (qualify prefix msg.name) msg.enum_types x
          ⊎ (Names (qualify prefix msg.name) nested x ⊎ Names prefix rest x))
Names-cases (message prefix msg nested rest) = inl refl
Names-cases (enum_of prefix msg nested rest x h) = inr (inl h)
Names-cases (inside prefix msg nested rest x h) = inr (inr (inl h))
Names-cases (later prefix msg nested rest x h) = inr (inr (inr h))

no-Names : {prefix x : String} → Names prefix no_messages x → ⊥
no-Names h = elim h [ ]

mem_of_any : (key : String) (out : List String) → any (λ k. str_eq k key) out ≡ true → Memᴰ key out
mem_of_any key [] h = absurd (cc (h))
mem_of_any key (k ∷ out) h = elim (Bool-cases (str_eq k key)) [
  | inl here ↦ Memᴰ.head (sym ((eq_iff k key).0 here))
  | inr there ↦ Memᴰ.tail (mem_of_any key out (rw (there) at h))
]

module _ (x : String) where
  mem-put_key :
      (key : String) (out : List String) → Memᴰ x (put_key key out) ↔ (Memᴰ x out ⊎ (x ≡ key))
  unfolding put_key
  mem-put_key key out = elim (Bool-cases (any (λ k. str_eq k key) out)) [
    | inl there ↦
        rw (there, put_key)
          (
            inl,
            λ h. elim h [
              | inl i ↦ i
              | inr e ↦ subst (λ z. Memᴰ z out) (sym e) (mem_of_any key out there)
            ],
          )
    | inr fresh ↦
        rw (fresh, put_key)
          (
            λ i. elim (Memᴰ.cases_cons i) [ inl e ↦ inr e | inr j ↦ inl j ],
            λ h. elim h [ inl i ↦ Memᴰ.tail i | inr e ↦ Memᴰ.head e ],
          )
  ]

  pub mem-put_enums :
      (prefix : String) (enums : List EnumDescriptorProto) (out : List String)
      → Memᴰ x (put_enums prefix enums out) ↔ (Memᴰ x out ⊎ NamesEnum prefix enums x)
  unfolding put_enums
  mem-put_enums prefix [] out = (inl, λ h. elim h [ inl i ↦ i | inr n ↦ absurd (Memᴰ.not-nil n.1) ])
  mem-put_enums prefix (enum ∷ enums) out =
      let key = qualify prefix enum.name in
      let rest = mem-put_enums prefix enums (put_key key out) in
      let first = mem-put_key key out in
      (
        λ i. elim (rest.0 i) [
          | inl j ↦ elim (first.0 j) [ inl old ↦ inl old | inr e ↦ inr (enum, Memᴰ.head refl, e) ]
          | inr (e, j, same) ↦ inr (e, Memᴰ.tail j, same)
        ],
        λ h. elim h [
          | inl i ↦ rest.1 (inl (first.1 (inl i)))
          | inr (e, j, same) ↦ elim (Memᴰ.cases_cons j) [
            | inl here ↦ rest.1 (
                inl (
                  first.1
                    (inr (same ∙ ap (λ (z : EnumDescriptorProto). qualify prefix z.name) here))))
            | inr k ↦ rest.1 (inr (e, k, same))
          ]
        ],
      )

  pub mem-collect_fqns :
      (prefix : String) (ms : DescriptorProtos) (out : List String)
      → Memᴰ x (collect_fqns prefix ms out) ↔ (Memᴰ x out ⊎ Names prefix ms x)
  unfolding collect_fqns
  mem-collect_fqns prefix no_messages out =
      (inl, λ h. elim h [ inl i ↦ i | inr n ↦ absurd (no-Names n) ])
  mem-collect_fqns prefix (message_with msg nested rest) out =
      let fqn = qualify prefix msg.name in
      let own = mem-put_key fqn out in
      let enums = mem-put_enums fqn msg.enum_types (put_key fqn out) in
      let within = mem-collect_fqns fqn nested (put_enums fqn msg.enum_types (put_key fqn out)) in
      let after =
        mem-collect_fqns prefix rest
          (collect_fqns fqn nested (put_enums fqn msg.enum_types (put_key fqn out))) in
      (
        λ i. elim (after.0 i) [
          | inr n ↦ inr (later prefix msg nested rest x n)
          | inl i1 ↦ elim (within.0 i1) [
            | inr n ↦ inr (inside prefix msg nested rest x n)
            | inl i2 ↦ elim (enums.0 i2) [
              | inr n ↦ inr (enum_of prefix msg nested rest x n)
              | inl i3 ↦ elim (own.0 i3) [
                | inl old ↦ inl old
                | inr e ↦ inr (
                    subst (Names prefix (message_with msg nested rest)) (sym e)
                      (message prefix msg nested rest))
              ]
            ]
          ]
        ],
        λ h. elim h [
          | inl old ↦ after.1 (inl (within.1 (inl (enums.1 (inl (own.1 (inl old)))))))
          | inr n ↦ elim (Names-cases n) [
            | inl e ↦ after.1 (inl (within.1 (inl (enums.1 (inl (own.1 (inr e)))))))
            | inr (inl e) ↦ after.1 (inl (within.1 (inl (enums.1 (inr e)))))
            | inr (inr (inl e)) ↦ after.1 (inl (within.1 (inr e)))
            | inr (inr (inr e)) ↦ after.1 (inr e)
          ]
        ],
      )
