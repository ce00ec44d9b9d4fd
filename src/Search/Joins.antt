-- ===== src/Search/Joins.antt =====
-- Membership in the rows that the search queries give.
use mathlib.Core.List.Memᴰ
use stencil.Base.{
  ℕ, ◌≤◌, String, List, [], ◌∷◌, Memᴰ, Bool, true, false, ◌&&◌, ◌≡◌, refl, sym, ap, ◌∙◌, subst, ◌⊎◌,
  inl, inr, ◌↔◌, eq_iff, All-mem, arith, Bool-cases,
}
use stencil.Store.Tables.{VersionRow, select, max_version}
use stencil.Store.Integrity.Pairs.{Pairwise}
use stencil.Search.{flat_map, is_given}

pub and_iff : (a b : Bool) → ((a && b) ≡ true) ↔ ((a ≡ true) × (b ≡ true))
and_iff true b = (λ e. (refl, e), λ h. h.1)
and_iff false b = (λ e. absurd (cc (e)), λ h. absurd (cc (h.0)))

pub is_given_iff :
    (given col : String) → (is_given given col ≡ true) ↔ ((given ≡ "") ⊎ (col ≡ given))
is_given_iff given col = ground (arith, eq_iff given "", eq_iff col given)

pub mem-select :
    {A : Type 0} (p : A → Bool) (xs : List A) (y : A)
    → Memᴰ y (select p xs) ↔ (Memᴰ y xs × (p y ≡ true))
unfolding select
mem-select p [] y = (λ i. absurd (Memᴰ.not-nil i), λ h. h.0)
mem-select p (x ∷ xs) y =
    let rest = mem-select p xs y in
    elim (Bool-cases (p x)) [
      | inl hit ↦ rw hit (
        λ i. elim (Memᴰ.cases_cons i) [
          | inl e ↦ (Memᴰ.head e, ap p e ∙ hit)
          | inr j ↦ (Memᴰ.tail (rest.0 j).0, (rest.0 j).1)
        ],
        λ h. elim (Memᴰ.cases_cons h.0) [
          | inl e ↦ Memᴰ.head e
          | inr j ↦ Memᴰ.tail (rest.1 (j, h.1))
        ],
      )
      | inr miss ↦ rw miss (
        λ i. (Memᴰ.tail (rest.0 i).0, (rest.0 i).1),
        λ h. elim (Memᴰ.cases_cons h.0) [
          | inl e ↦ absurd (cc (h.1, ap p e, miss))
          | inr j ↦ rest.1 (j, h.1)
        ],
      )
    ]

pub mem-flat_map :
    {A B : Type 0} (f : A → List B) (xs : List A) (y : B)
    → Memᴰ y (flat_map f xs) ↔ ((x : A) × Memᴰ x xs × Memᴰ y (f x))
unfolding flat_map
mem-flat_map f [] y = (λ i. absurd (Memᴰ.not-nil i), λ h. absurd (Memᴰ.not-nil h.1))
mem-flat_map f (x ∷ xs) y =
    let rest = mem-flat_map f xs y in
    (
      λ i. elim (Memᴰ.append_cases (f x) i) [
        | inl j ↦ (x, Memᴰ.head refl, j)
        | inr j ↦ let (z, k, l) = rest.0 j in (z, Memᴰ.tail k, l)
      ],
      λ h. elim (Memᴰ.cases_cons h.1) [
        | inl e ↦ Memᴰ.append_left _ (subst (λ z. Memᴰ y (f z)) e h.2)
        | inr j ↦ Memᴰ.append_right (f x) (rest.1 (h.0, j, h.2))
      ],
    )

-- Rows with the same key are the same row.
pub Pairwise-same :
    {A : Type 0} (same_key : A → A → Bool) (xs : List A) (a b : A)
    → Pairwise (λ x y. same_key x y ≡ false) xs
    → ((x y : A) → same_key x y ≡ true → same_key y x ≡ true)
    → Memᴰ a xs
    → Memᴰ b xs
    → same_key a b ≡ true
    → a ≡ b
Pairwise-same same_key [] a b p flip i j e = absurd (Memᴰ.not-nil i)
Pairwise-same same_key (x ∷ xs) a b (first, rest) flip i j e = elim (Memᴰ.cases_cons i) [
  | inl a_first ↦ elim (Memᴰ.cases_cons j) [
    | inl b_first ↦ a_first ∙ sym b_first
    | inr j' ↦ absurd (cc (All-mem _ xs first b j', subst (λ z. same_key z b ≡ true) a_first e))
  ]
  | inr i' ↦ elim (Memᴰ.cases_cons j) [
    | inl b_first ↦
        absurd (cc (All-mem _ xs first a i', subst (λ z. same_key z a ≡ true) b_first (flip a b e)))
    | inr j' ↦ Pairwise-same same_key xs a b rest flip i' j' e
  ]
]

pub max_version-above :
    (vs : List VersionRow) (v : VersionRow) → Memᴰ v vs → v.version ≤ max_version vs
unfolding max_version
max_version-above [] v i = absurd (Memᴰ.not-nil i)
max_version-above (x ∷ xs) v i = elim (Memᴰ.cases_cons i) [
  | inl e ↦ let same = ap (λ (z : VersionRow). z.version) e in ground (arith, same)
  | inr j ↦ let h = max_version-above xs v j in ground (arith, h)
]

pub max_version-least :
    (vs : List VersionRow) (n : ℕ)
    → ((v : VersionRow) → Memᴰ v vs → v.version ≤ n)
    → max_version vs ≤ n
unfolding max_version
max_version-least [] n h = omega arith
max_version-least (x ∷ xs) n h =
    let first = h x (Memᴰ.head refl) in
    let rest = max_version-least xs n (λ v i. h v (Memᴰ.tail i)) in ground (arith, first, rest)
