-- ===== src/Store/Integrity/Pairs.antt =====
-- Lists whose elements are pairwise apart, under the operations that the queries are made of.
use mathlib.Core.List.Memᴰ
use stencil.Base.{
  Memᴰ, subst, List, [], ◌∷◌, map, Bool, true, false, not, any, All, ◌≡◌, Bool-cases, inl, inr,
  arith,
}
use stencil.Store.Tables.{select}

abbrev pub Pairwise {ℓ} : {A : Type ℓ} → (A → A → Type 0) → List A → Type 0
Pairwise R [] = Unit
Pairwise R (x ∷ xs) = All (R x) xs × Pairwise R xs

module _ {ℓ} {A : Type ℓ} where
  pub All-select : (P : A → Type 0) (q : A → Bool) (xs : List A) → All P xs → All P (select q xs)
  unfolding select
  All-select P q [] h = tt
  All-select P q (x ∷ xs) h = elim (Bool-cases (q x)) [
    | inl e ↦ rw e (h.0, All-select P q xs h.1)
    | inr e ↦ rw e (All-select P q xs h.1)
  ]

  pub All-map :
      (P : A → Type 0) (f : A → A) (xs : List A)
      → ((x : A) → P x → P (f x))
      → All P xs
      → All P (map f xs)
  All-map P f [] keep h = tt
  All-map P f (x ∷ xs) keep h = (keep x h.0, All-map P f xs keep h.1)

  pub All-weaken : (P Q : A → Type 0) (xs : List A) → ((x : A) → P x → Q x) → All P xs → All Q xs
  All-weaken P Q [] keep h = tt
  All-weaken P Q (x ∷ xs) keep h = (keep x h.0, All-weaken P Q xs keep h.1)

  pub Pairwise-select :
      (R : A → A → Type 0) (q : A → Bool) (xs : List A) → Pairwise R xs → Pairwise R (select q xs)
  unfolding select
  Pairwise-select R q [] h = tt
  Pairwise-select R q (x ∷ xs) h = elim (Bool-cases (q x)) [
    | inl e ↦ rw e (All-select (R x) q xs h.0, Pairwise-select R q xs h.1)
    | inr e ↦ rw e (Pairwise-select R q xs h.1)
  ]

  -- For a relation that the change of a row does not touch.
  pub Pairwise-map :
      (R : A → A → Type 0) (f : A → A) (xs : List A)
      → ((x y : A) → R x y → R (f x) (f y))
      → Pairwise R xs
      → Pairwise R (map f xs)
  Pairwise-map R f [] keep h = tt
  Pairwise-map R f (x ∷ xs) keep h = (all xs h.0, Pairwise-map R f xs keep h.1)
    where
      all : (ys : List A) → All (R x) ys → All (R (f x)) (map f ys)
      all [] h = tt
      all (y ∷ ys) h = (keep x y h.0, all ys h.1)

  -- What a test finds is found among the rows selected, if these have all that passes it.
  pub any-select :
      (p q : A → Bool) (xs : List A)
      → ((x : A) → p x ≡ true → q x ≡ true)
      → any p xs ≡ true
      → any p (select q xs) ≡ true
  unfolding select
  any-select p q [] h e = absurd (cc (e))
  any-select p q (x ∷ xs) h e = elim (Bool-cases (p x)) [
    | inl hit ↦ rw (h x hit) (rw hit)
    | inr miss ↦
        let rest = any-select p q xs h (rw miss at e) in
        elim (Bool-cases (q x)) [ inl k ↦ rw k (rw miss rest) | inr k ↦ rw k rest ]
  ]

  -- What is not among the rows that go is among those that stay.
  pub any-select_rest :
      (p q : A → Bool) (xs : List A)
      → any p xs ≡ true
      → any p (select q xs) ≡ false
      → any p (select (λ x. not (q x)) xs) ≡ true
  unfolding select
  any-select_rest p q [] e f = absurd (cc (e))
  any-select_rest p q (x ∷ xs) e f = elim (Bool-cases (q x)) [
    | inl k ↦ ground (arith, k, any-select_rest p q xs)
    | inr k ↦ ground (arith, k, any-select_rest p q xs)
  ]

  pub any-map :
      (p : A → Bool) (f : A → A) (xs : List A)
      → ((x : A) → p x ≡ true → p (f x) ≡ true)
      → any p xs ≡ true
      → any p (map f xs) ≡ true
  any-map p f [] keep e = absurd (cc (e))
  any-map p f (x ∷ xs) keep e = elim (Bool-cases (p x)) [
    | inl hit ↦ rw (keep x hit)
    | inr miss ↦ ground (arith, any-map p f xs keep (rw miss at e))
  ]

  -- A row for which the test fails is apart from each row of the list.
  pub All-of_any-false : (p : A → Bool) (xs : List A) → any p xs ≡ false → All (λ x. p x ≡ false) xs
  All-of_any-false p [] e = tt
  All-of_any-false p (x ∷ xs) e = elim (Bool-cases (p x)) [
    | inl hit ↦ absurd (cc (rw hit at e))
    | inr miss ↦ (miss, All-of_any-false p xs (rw miss at e))
  ]

  pub All-select_if :
      (P : A → Type 0) (q : A → Bool) (xs : List A)
      → All (λ x. q x ≡ true → P x) xs
      → All P (select q xs)
  unfolding select
  All-select_if P q [] h = tt
  All-select_if P q (x ∷ xs) h = elim (Bool-cases (q x)) [
    | inl e ↦ rw e (h.0 e, All-select_if P q xs h.1)
    | inr e ↦ rw e (All-select_if P q xs h.1)
  ]

  pub any_of_mem : (p : A → Bool) (xs : List A) (x : A) → Memᴰ x xs → p x ≡ true → any p xs ≡ true
  any_of_mem p [] x m e = absurd (Memᴰ.not-nil m)
  any_of_mem p (y ∷ xs) x m e = elim (Memᴰ.cases_cons m) [
    | inl same ↦ let hit : p y ≡ true = subst (λ z. p z ≡ true) same e in rw hit
    | inr later ↦ ground (arith, any_of_mem p xs x later e)
  ]
