-- ===== src/Lineage/Roots/Names.antt =====
-- Which names findRootFQNs returns.
use Prim.Native.String.{◌++◌ as str_append}
use mathlib.Core.List.{foldl}
use mathlib.Core.List.Memᴰ
use stencil.Base.{
  String, List, [], ◌∷◌, Memᴰ, true, str_eq, eq_iff, ◌≡◌, refl, ap, ◌∙◌, subst, ◌⊎◌, inl, inr, ◌↔◌,
  Bool-cases, arith,
}
use stencil.Base.Strings.{has_suffix, has_suffix-append, has_suffix-split}
use stencil.Descriptors.{FileDescriptorProto, FileDescriptorSet}
use stencil.Lineage.Roots.{collect_fqns, collect_file, is_root, select_roots, find_root_fqns}
use stencil.Lineage.Roots.Collected.{FileNames, mem-put_enums, mem-collect_fqns}

module _ (x : String) where
  mem-collect_file :
      (out : List String) (fd : FileDescriptorProto)
      → Memᴰ x (collect_file out fd) ↔ (Memᴰ x out ⊎ FileNames fd x)
  unfolding collect_file
  mem-collect_file out fd =
      let messages = mem-collect_fqns x fd.package_name fd.message_types out in
      let enums =
        mem-put_enums x fd.package_name fd.enum_types
          (collect_fqns fd.package_name fd.message_types out) in
      (
        λ i. elim (enums.0 i) [
          | inl j ↦ elim (messages.0 j) [ inl old ↦ inl old | inr n ↦ inr (inl n) ]
          | inr n ↦ inr (inr n)
        ],
        λ h. elim h [
          | inl old ↦ enums.1 (inl (messages.1 (inl old)))
          | inr (inl n) ↦ enums.1 (inl (messages.1 (inr n)))
          | inr (inr n) ↦ enums.1 (inr n)
        ],
      )

  mem-collect_files :
      (fds : FileDescriptorSet) (out : List String)
      → Memᴰ x (foldl collect_file out fds)
        ↔ (Memᴰ x out ⊎ ((fd : FileDescriptorProto) × Memᴰ fd fds × FileNames fd x))
  mem-collect_files [] out = (inl, λ h. elim h [ inl i ↦ i | inr n ↦ absurd (Memᴰ.not-nil n.1) ])
  mem-collect_files (fd ∷ fds) out =
      let first = mem-collect_file out fd in
      let rest = mem-collect_files fds (collect_file out fd) in
      (
        λ i. elim (rest.0 i) [
          | inl j ↦ elim (first.0 j) [ inl old ↦ inl old | inr n ↦ inr (fd, Memᴰ.head refl, n) ]
          | inr (f, j, n) ↦ inr (f, Memᴰ.tail j, n)
        ],
        λ h. elim h [
          | inl old ↦ rest.1 (inl (first.1 (inl old)))
          | inr (f, j, n) ↦ elim (Memᴰ.cases_cons j) [
            | inl here ↦ rest.1 (inl (first.1 (inr (subst (λ z. FileNames z x) here n))))
            | inr k ↦ rest.1 (inr (f, k, n))
          ]
        ],
      )

  mem-select_roots :
      (name : String) (fqns : List String)
      → Memᴰ x (select_roots name fqns) ↔ (Memᴰ x fqns × (is_root name x ≡ true))
  unfolding select_roots
  mem-select_roots name [] = (λ i. absurd (Memᴰ.not-nil i), λ h. h.0)
  mem-select_roots name (fqn ∷ fqns) =
      let rest = mem-select_roots name fqns in
      elim (Bool-cases (is_root name fqn)) [
        | inl root ↦
            rw (root, select_roots)
              (
                λ i. elim (Memᴰ.cases_cons i) [
                  | inl e ↦ (Memᴰ.head e, ap (is_root name) e ∙ root)
                  | inr j ↦ (Memᴰ.tail (rest.0 j).0, (rest.0 j).1)
                ],
                λ h. elim (Memᴰ.cases_cons h.0) [
                  | inl e ↦ Memᴰ.head e
                  | inr j ↦ Memᴰ.tail (rest.1 (j, h.1))
                ],
              )
        | inr other ↦
            rw (other, select_roots)
              (
                λ i. (Memᴰ.tail (rest.0 i).0, (rest.0 i).1),
                λ h. elim (Memᴰ.cases_cons h.0) [
                  | inl e ↦ absurd (cc (h.1, ap (is_root name) e, other))
                  | inr j ↦ rest.1 (j, h.1)
                ],
              )
      ]

  is_root_iff :
      (name : String)
      → (is_root name x ≡ true)
        ↔ ((x ≡ name) ⊎ ((p : String) × (x ≡ str_append p (str_append "." name))))
  unfolding is_root
  is_root_iff name = (
    λ h. elim (Bool-cases (str_eq x name)) [
      | inl same ↦ inl ((eq_iff x name).0 same)
      | inr differs ↦ inr (has_suffix-split x (str_append "." name) (rw (differs, is_root) at h))
    ],
    λ h. elim h [
      | inl e ↦ let same = (eq_iff x name).1 e in rw (same, is_root) refl
      | inr (p, e) ↦
          let suffix =
            ap (λ z. has_suffix z (str_append "." name)) e
            ∙ has_suffix-append p (str_append "." name) in
          ground (arith, suffix)
    ],
  )

-- With a loop over a map that takes every key, findRootFQNs returns exactly the full names of the
-- messages and enums of the files, nested ones included, that are the name asked for or end in a dot
-- and that name.
pub find_root_fqns_lem :
    (range : List String → List String) (fds : FileDescriptorSet) (name x : String)
    → ((xs : List String) (y : String) → Memᴰ y (range xs) ↔ Memᴰ y xs)
    → Memᴰ x (find_root_fqns range fds name) ↔ (
        ((fd : FileDescriptorProto) × Memᴰ fd fds × FileNames fd x)
        × ((x ≡ name) ⊎ ((p : String) × (x ≡ str_append p (str_append "." name)))))
unfolding find_root_fqns
find_root_fqns_lem range fds name x all_keys =
    let selected = mem-select_roots x name (range (foldl collect_file [] fds)) in
    let keys = all_keys (foldl collect_file [] fds) x in
    let names = mem-collect_files x fds [] in
    let root = is_root_iff x name in
    (
      λ i.
          let (j, r) = selected.0 i in
          (elim (names.0 (keys.0 j)) [ inl old ↦ absurd (Memᴰ.not-nil old) | inr n ↦ n ], root.0 r),
      λ h. selected.1 (keys.1 (names.1 (inr h.0)), root.1 h.1),
    )
