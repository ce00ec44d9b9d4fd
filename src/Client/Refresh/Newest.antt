-- ===== src/Client/Refresh/Newest.antt =====
-- The version-based refresh loads the greatest version, and only if it is a newer one.
use stencil.Base.{
  ℕ, ◌≤◌, ◌<◌, String, List, [], ◌∷◌, Memᴰ, All, ltb, ◌≡◌, refl, ◌⊎◌, inl, inr, Bool-cases, arith,
}
use stencil.Base.Sprintf.{sprintf}
use stencil.Base.Outcome.{Outcome, ok, err, Outcome-cases}
use stencil.Client.Refresh.{
  LoadErr, no_versions_available, already_upto_date, max_from, trim_right, Download, load_from_url,
  fetch_versions, load_newest, version_based_refresh,
}

-- `m` is the greatest of the numbers.
pub record IsGreatest (m : ℕ) (xs : List ℕ) : Type 0 where
  pub member : Memᴰ m xs
  pub above : All (λ x. x ≤ m) xs

max_from_above : (b m : ℕ) (xs : List ℕ) → max_from m xs ≡ b → (m ≤ b) × All (λ x. x ≤ b) xs
unfolding max_from
max_from_above b m [] e = (omega arith, tt)
max_from_above b m (x ∷ xs) e = elim (Bool-cases (ltb m x)) [
  | inl lt ↦ let (k, l) = max_from_above b x xs (rw lt at e) in (ground arith, (k, l))
  | inr ge ↦ let (k, l) = max_from_above b m xs (rw ge at e) in (k, (ground arith, l))
]

max_from_member : (m : ℕ) (xs : List ℕ) → (max_from m xs ≡ m) ⊎ Memᴰ (max_from m xs) xs
unfolding max_from
max_from_member m [] = inl refl
max_from_member m (x ∷ xs) = elim (Bool-cases (ltb m x)) [
  | inl e ↦
      rw e (elim (max_from_member x xs) [
        | inl same ↦ inr (Memᴰ.head same)
        | inr i ↦ inr (Memᴰ.tail i)
      ])
  | inr e ↦ rw e (elim (max_from_member m xs) [ inl same ↦ inl same | inr i ↦ inr (Memᴰ.tail i) ])
]

max_from-IsGreatest : (x : ℕ) (xs : List ℕ) → IsGreatest (max_from x (x ∷ xs)) (x ∷ xs)
max_from-IsGreatest x xs = record {
  member = elim (max_from_member x (x ∷ xs)) [ inl e ↦ Memᴰ.head e | inr i ↦ i ];
  above = (max_from_above _ x (x ∷ xs) refl).1;
}

module _ {R : Type 0} (new_resolver : List ℕ → Outcome String R)
    (parse_versions : List ℕ → Outcome String (List ℕ)) (decimal : ℕ → String)
    (download : Download new_resolver parse_versions decimal) (url : String)
    (last_version : ℕ) where
  abbrev versions_url : String
  versions_url = sprintf (trim_right url ∷ "/versions" ∷ [])

  -- The resolver is that of the greatest version listed, which is newer than the last one loaded.
  pub record IsNewer (version : ℕ) (resolver : R) : Type 0 where
    pub versions : List ℕ
    pub listed :
        fetch_versions new_resolver parse_versions decimal download versions_url ≡ ok versions
    pub greatest : IsGreatest version versions
    pub newer : last_version < version
    pub loaded :
        load_from_url new_resolver parse_versions decimal download
          (sprintf (versions_url ∷ "/" ∷ decimal version ∷ []))
        ≡ ok resolver

  -- What the loader returns: a newer resolver and its version, or an error and the last version.
  abbrev pub Loaded : Outcome LoadErr R × ℕ → Type 0
  Loaded r =
      ((resolver : R) × (r.0 ≡ ok resolver) × IsNewer r.1 resolver)
      ⊎ (((e : LoadErr) × (r.0 ≡ err e)) × (r.1 ≡ last_version))

  load_newest-Loaded :
      (versions : List ℕ)
      → fetch_versions new_resolver parse_versions decimal download versions_url ≡ ok versions
      → Loaded (
          load_newest new_resolver parse_versions decimal download versions_url last_version
            versions)
  unfolding load_newest
  load_newest-Loaded [] f = inr ((no_versions_available, refl), refl)
  load_newest-Loaded (v ∷ vs) f =
      let m = max_from v (v ∷ vs) in
      let newest =
        load_from_url new_resolver parse_versions decimal download
          (sprintf (versions_url ∷ "/" ∷ decimal m ∷ [])) in
      elim (Bool-cases (ltb last_version m)) [
        | inr ge ↦ rw (ge, load_newest) (inr ((already_upto_date, refl), refl))
        | inl lt ↦ elim (Outcome-cases newest) [
          | inr (e, bad) ↦ rw (lt, load_newest) (rw (bad, load_newest) (inr ((e, refl), refl)))
          | inl (resolver, good) ↦
              rw (lt, load_newest)
                (rw (good, load_newest)
                  (inl (
                    resolver,
                    refl,
                    record {
                      versions = v ∷ vs;
                      listed = f;
                      greatest = max_from-IsGreatest v vs;
                      newer = ground arith;
                      loaded = good;
                    },
                  )))
        ]
      ]

  -- The version-based refresh either loads the descriptors of the greatest version that the server
  -- lists, which is newer than the last one loaded, and remembers it; or it returns an error and
  -- remembers what it did before.
  pub version_based_refresh-Loaded :
      Loaded (version_based_refresh new_resolver parse_versions decimal download url last_version)
  unfolding version_based_refresh
  version_based_refresh-Loaded =
      elim (Outcome-cases
        (fetch_versions new_resolver parse_versions decimal download versions_url)) [
          | inr (e, f) ↦ rw (f, version_based_refresh) (inr ((e, refl), refl))
          | inl (versions, f) ↦ rw (f, version_based_refresh) (load_newest-Loaded versions f)
        ]
