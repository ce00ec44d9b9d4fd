-- ===== src/Formats/Protobuf/Compare/Rules.antt =====
-- What a part of the comparison demands: a function on the collected differences that adds none
-- exactly if a statement holds. One rule for each way in which compatibility.go is put together.
use mathlib.Core.Path.{fun_ext, subst, sym}
use stencil.Base.{
  ◌≡◌, refl, String, List, [], ◌∷◌, ◌++◌, Bool, true, false, All, str_eq, Bool-cases, inl, inr,
  Option, none, some, if◌then◌else◌, arith,
}
use stencil.Base.Sprintf.{sprintf, sprintf-ne-empty}
use stencil.Formats.Protobuf.Diff.{DiffKind, Diff, contains, CompatibilityErr, add}
use stencil.Formats.Protobuf.Compare.{for_each}

-- If changes of kind `k` are not allowed, `C` must hold.
abbrev pub Requires : List DiffKind → DiffKind → Type 0 → Type 0
Requires not_allowed k C = contains k not_allowed ≡ true → C

pub record Checks (na : List DiffKind) (P : Type 0) (f : CompatibilityErr → CompatibilityErr)
    : Type 0 where
  pub keeps : (c : CompatibilityErr) → c.not_allowed ≡ na → (f c).not_allowed ≡ na
  pub sound : (c : CompatibilityErr) → c.not_allowed ≡ na → (f c).diffs ≡ [] → (c.diffs ≡ []) × P
  pub complete : (c : CompatibilityErr) → c.not_allowed ≡ na → c.diffs ≡ [] → P → (f c).diffs ≡ []

not-concat-nil : (ds : List Diff) (d : Diff) → ds ++ d ∷ [] ≡ [] → ⊥
not-concat-nil [] d e = cc
not-concat-nil (x ∷ ds) d e = cc

module _ (k : DiffKind) (path s : String) (rest : List String) (c : CompatibilityErr) where
  add-not_allowed : (add k path (s ∷ rest) c).not_allowed ≡ c.not_allowed
  unfolding add
  add-not_allowed = ground arith

  add_forbidden :
      str_eq s "" ≡ false
      → (add k path (s ∷ rest) c).diffs ≡ []
      → (c.diffs ≡ []) × (contains k c.not_allowed ≡ false)
  unfolding add
  add_forbidden h e =
      let d = sprintf (path ∷ ": " ∷ sprintf (s ∷ rest) ∷ []) in
      ground
        (arith, sprintf-ne-empty s rest h, not-concat-nil c.diffs (record { kind = k; msg = d }))

  add_permitted : contains k c.not_allowed ≡ false → add k path (s ∷ rest) c ≡ c
  unfolding add
  add_permitted h = rw h

module _ (na : List DiffKind) where
  pub Checks-add :
      (k : DiffKind) (path s : String) (rest : List String)
      → str_eq s "" ≡ false
      → Checks na (contains k na ≡ false) (add k path (s ∷ rest))
  Checks-add k path s rest h = record {
    keeps = λ c e. cc (e, add-not_allowed k path s rest c);
    sound = λ c e d. rw (← e) (add_forbidden k path s rest c h d);
    complete = λ c e d p. rw (add_permitted k path s rest c (rw e p)) d;
  }

  module _ {P Q : Type 0} {f g : CompatibilityErr → CompatibilityErr} where
    pub Checks-then : Checks na P f → Checks na Q g → Checks na (P × Q) (λ c. g (f c))
    Checks-then hf hg = record {
      keeps = λ c e. hg.keeps (f c) (hf.keeps c e);
      sound = λ c e d.
          let (d', q) = hg.sound (f c) (hf.keeps c e) d in
          let (d'', p) = hf.sound c e d' in (d'', (p, q));
      complete = λ c e d pq. hg.complete (f c) (hf.keeps c e) (hf.complete c e d pq.0) pq.1;
    }

  module _ {P : Type 0} {f : CompatibilityErr → CompatibilityErr} where
    pub Checks-iff : (Q : Type 0) → (P → Q) → (Q → P) → Checks na P f → Checks na Q f
    Checks-iff Q to from h = record {
      keeps = h.keeps;
      sound = λ c e d. let (d', p) = h.sound c e d in (d', to p);
      complete = λ c e d q. h.complete c e d (from q);
    }

  pub Checks-ext :
      {P : Type 0} {f g : CompatibilityErr → CompatibilityErr}
      → ((c : CompatibilityErr) → g c ≡ f c)
      → Checks na P f
      → Checks na P g
  Checks-ext e h = subst (Checks na _) (sym (fun_ext e)) h

  -- An `if` with no `else`.
  pub Checks-if :
      {P : Type 0} (f : CompatibilityErr → CompatibilityErr) (t : Bool)
      → Checks na P f
      → Checks na (t ≡ true → P) (λ c. if t then f c else c)
  Checks-if f true h = record {
    keeps = h.keeps;
    sound = λ c e d. let (d', p) = h.sound c e d in (d', λ _. p);
    complete = λ c e d p. h.complete c e d (p refl);
  }
  Checks-if f false h = record {
    keeps = λ c e. e;
    sound = λ c e d. (d, λ x. absurd (cc));
    complete = λ c e d p. d;
  }

  pub Checks-if_else :
      {P Q : Type 0} (f g : CompatibilityErr → CompatibilityErr) (t : Bool)
      → Checks na P f
      → Checks na Q g
      → Checks na ((t ≡ true → P) × (t ≡ false → Q)) (λ c. if t then f c else g c)
  Checks-if_else f g true hf hg =
      Checks-iff _ (λ p. ((λ _. p), (λ e. absurd (cc)))) (λ pq. pq.0 refl) hf
  Checks-if_else f g false hf hg =
      Checks-iff _ (λ q. ((λ e. absurd (cc)), (λ _. q))) (λ pq. pq.1 refl) hg

  -- A difference that is added if a test passes; `C` is what the test's failure means.
  pub Checks-guard :
      (C : Type 0) (k : DiffKind) (f : CompatibilityErr → CompatibilityErr) (t : Bool)
      → (t ≡ false → C)
      → (C → t ≡ false)
      → Checks na (contains k na ≡ false) f
      → Checks na (Requires na k C) (λ c. if t then f c else c)
  Checks-guard C k f t to from h =
      Checks-iff (Requires na k C)
        (λ p r. elim (Bool-cases t) [ inl e ↦ absurd (cc (p e)) | inr e ↦ to e ])
        (λ p e. elim (Bool-cases (contains k na)) [ inl r ↦ absurd (cc (from (p r))) | inr r ↦ r ])
        (Checks-if f t h)

  pub Checks-test :
      (C : Type 0) (t : Bool) (k : DiffKind) (path s : String) (rest : List String)
      → str_eq s "" ≡ false
      → (t ≡ false → C)
      → (C → t ≡ false)
      → Checks na (Requires na k C) (λ c. if t then add k path (s ∷ rest) c else c)
  Checks-test C t k path s rest h to from =
      Checks-guard C k (add k path (s ∷ rest)) t to from (Checks-add k path s rest h)

  -- The two outcomes of a lookup.
  pub Checks-lookup {ℓ} :
      {A : Type ℓ} {P : Type 0} (Q : A → Type 0) (f : CompatibilityErr → CompatibilityErr)
      (g : A → CompatibilityErr → CompatibilityErr) (found : Option A)
      → Checks na P f
      → ((x : A) → Checks na (Q x) (g x))
      → Checks na
          (elim found [ none ↦ P | some x ↦ Q x ])
          (λ c. elim found [ none ↦ f c | some x ↦ g x c ])
  Checks-lookup Q f g none hf hg = hf
  Checks-lookup Q f g (some x) hf hg = hg x

  pub Checks-for_each {ℓ} :
      {A : Type ℓ} (P : A → Type 0) (body : A → CompatibilityErr → CompatibilityErr)
      → ((x : A) → Checks na (P x) (body x))
      → (xs : List A) → Checks na (All P xs) (for_each body xs)
  unfolding for_each
  Checks-for_each P body h [] = record {
    keeps = λ c e. e;
    sound = λ c e d. (d, tt);
    complete = λ c e d p. d;
  }
  Checks-for_each P body h (x ∷ xs) = Checks-then (h x) (Checks-for_each P body h xs)
