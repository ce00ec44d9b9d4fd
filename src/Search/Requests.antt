-- ===== src/Search/Requests.antt =====
-- What the search service answers to a request.
use stencil.Base.{
  String, List, Memᴰ, Bool, true, false, not, ◌&&◌, ◌||◌, Option, some, ◌≡◌, ◌≢◌, refl, sym, subst,
  ◌⊎◌, inl, inr, ◌↔◌, str_eq, eq_iff, Bool-cases, arith, if◌then◌else◌,
}
use stencil.Base.Outcome.{ok, err}
use stencil.Service.Versions.{ℤ, pos, negsuc}
use stencil.Store.Tables.{VersionRow, Db}
use stencil.Store.Integrity.{IsConsistent}
use stencil.Search.{
  SearchRequest, SearchHits, SearchErr, err_empty_query_string, err_empty_schema_id,
  err_empty_namespace_id, stored_files, all_rows, latest_rows, search_all, search_latest, search,
  is_zero, is_positive,
}
use stencil.Search.Hits.{IsHit, IsLatest, IsAsked}
use stencil.Search.Joins.{and_iff}
use stencil.Search.Answers.{all-IsHit, IsLatest-IsHit}

-- What is wrong with a request.
pub data Fault (req : SearchRequest) : SearchErr → Type 0 where
  no_query : req.query ≡ "" → Fault req err_empty_query_string
  no_namespace : req.schema_id ≢ "" → req.namespace_id ≡ "" → Fault req err_empty_namespace_id
  no_schema : is_positive req.version_id ≡ true → req.schema_id ≡ "" → Fault req err_empty_schema_id

-- Without a version, and without history, the latest version of each schema; otherwise the version
-- asked for, or all.
abbrev pub WantedIf : Bool → Db → SearchRequest → VersionRow → Type 0
WantedIf newest db req v = if newest then IsLatest db v else IsAsked req.version_id v

abbrev pub Wanted : Db → SearchRequest → VersionRow → Type 0
Wanted db req = WantedIf (is_zero req.version_id && not req.history) db req

abbrev accepted : SearchRequest → Bool
accepted req =
    not (str_eq req.query "")
    && ((str_eq req.schema_id "" || not (str_eq req.namespace_id ""))
        && not (is_positive req.version_id && str_eq req.schema_id ""))

Fault-accepted : {req : SearchRequest} {e : SearchErr} → Fault req e → accepted req ≡ false
Fault-accepted {req} (no_query e) = ground (arith, eq_iff req.query "")
Fault-accepted {req} (no_namespace s n) =
    ground (arith, eq_iff req.schema_id "", eq_iff req.namespace_id "")
Fault-accepted {req} (no_schema p s) = ground (arith, eq_iff req.schema_id "")

not_both : (n : ℤ) → is_zero n ≡ true → is_positive n ≡ false
not_both (pos n) e = ground arith
not_both (negsuc n) e = refl

-- The checks that a request has passed, together.
module _ (req : SearchRequest) (asks : str_eq req.query "" ≡ false)
    (scoped : (not (str_eq req.schema_id "") && str_eq req.namespace_id "") ≡ false)
    (pinned : (is_positive req.version_id && str_eq req.schema_id "") ≡ false) where
  no-Fault : (e : SearchErr) → Fault req e → ⊥
  no-Fault e f =
      let refused = Fault-accepted f in
      let passes : accepted req ≡ true = ground arith in cc (refused, passes)

module _ (like_regex : String → Option (String → Bool)) (db : Db) (req : SearchRequest)
    (matches : String → Bool) where
  -- With a query that makes a regular expression, on tables that keep their constraints, Search
  -- returns the error of a fault of the request; or the request has no fault, and its hits are
  -- exactly the files with a match that are stored, under the namespace and the schema asked for if
  -- any, as the latest version of their schema if neither a version nor history is asked for, and
  -- otherwise as the version asked for or any version.
  pub search_answers :
      like_regex req.query ≡ some matches
      → IsConsistent db
      → ((e : SearchErr) × Fault req e × (search like_regex db req ≡ err e))
        ⊎ (((e : SearchErr) → Fault req e → ⊥)
            × ((hits : List SearchHits) × (search like_regex db req ≡ ok hits)
                × ((h : SearchHits) → Memᴰ h hits ↔ IsHit db matches req (Wanted db req) h)))
  unfolding search search_all search_latest
  search_answers query c = elim (Bool-cases (str_eq req.query "")) [
    | inl empty ↦ inl (_, no_query ((eq_iff req.query "").0 empty), rw (empty, search) refl)
    | inr asks ↦ elim (Bool-cases (not (str_eq req.schema_id "") && str_eq req.namespace_id "")) [
      | inl loose ↦
          let (s, n) =
            (and_iff (not (str_eq req.schema_id "")) (str_eq req.namespace_id "")).0 loose in
          inl (
            _,
            no_namespace (λ e. cc (s, (eq_iff req.schema_id "").1 e))
                ((eq_iff req.namespace_id "").0 n),
            rw (asks, loose, search) refl,
          )
      | inr scoped ↦ elim (Bool-cases (is_zero req.version_id && not req.history)) [
        | inl latest ↦ inr (
          no-Fault req asks scoped (rw (not_both _ ((and_iff _ _).0 latest).0) refl),
          (
            stored_files db (latest_rows db matches req),
            rw (asks, scoped, latest, search) (rw (query, search_latest) refl),
            λ h.
                subst
                  (λ b.
                    Memᴰ h (stored_files db (latest_rows db matches req))
                    ↔ IsHit db matches req (WantedIf b db req) h)
                  (sym latest) (IsLatest-IsHit db matches req h c),
          ),
        )
        | inr history ↦ elim (Bool-cases (is_positive req.version_id && str_eq req.schema_id "")) [
          | inl unpinned ↦
              let (p, s) =
                (and_iff (is_positive req.version_id) (str_eq req.schema_id "")).0 unpinned in
              inl (
                _,
                no_schema p ((eq_iff req.schema_id "").0 s),
                rw (asks, scoped, history, unpinned, search) refl,
              )
          | inr pinned ↦ inr (
            no-Fault req asks scoped pinned,
            (
              stored_files db (all_rows db matches req),
              rw (asks, scoped, history, pinned, search) (rw (query, search_all) refl),
              λ h.
                  subst
                    (λ b.
                      Memᴰ h (stored_files db (all_rows db matches req))
                      ↔ IsHit db matches req (WantedIf b db req) h)
                    (sym history) (all-IsHit db matches req h),
            ),
          )
        ]
      ]
    ]
  ]
