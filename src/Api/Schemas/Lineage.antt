-- ===== src/Api/Schemas/Lineage.antt =====
-- What the lineage handler answers, from the query to the graph.
pub mod Query
use stencil.Base.{
  ℕ, String, List, Option, none, some, ◌≡◌, ◌≢◌, refl, sym, ap, subst, ◌∙◌, false, ◌⊎◌, inl, inr,
  Bool-cases, str_eq, eq_iff, arith,
}
use stencil.Base.Outcome.{Outcome, ok, err}
use stencil.Descriptors.{FileDescriptorSet}
use stencil.Formats.Parsed.{Libraries}
use stencil.Lineage.Compute.{
  LineageResponse, invalid_direction, normalize_lineage_direction, compute_lineage,
}
use stencil.Lineage.Compute.Laws.{IsAnswer, compute_lineage-IsAnswer}
use stencil.Service.{ServiceErr, Cache, get_latest}
use stencil.Service.Calls.{GetLineageErr, get_lineage}
use stencil.Service.Versions.{ℤ}
use stencil.Store.Tables.{Db}
use stencil.Store.Schemas.{Metadata}
use stencil.Api.Schemas.{
  HandlerErr, bad_request, refused_direction, query_level, query_direction, handle_get_lineage,
}
use stencil.Api.Schemas.Lineage.Query.{
  IsLevel, IsDirection, query_level-IsLevel, query_level-default, IsDirection-outcome,
}

module _ (L : Libraries) (C : Cache) (decimal : ℕ → String) (text_bytes : String → List ℕ)
    (unmarshal : List ℕ → Outcome String FileDescriptorSet) (range : List String → List String)
    (atoi : String → Option ℤ) where
  module _ (db : Db) (cache cache' : C.State) (ns name root_type level direction : String) where
    abbrev pub Answer : Type 0
    Answer = Outcome (HandlerErr GetLineageErr) LineageResponse × C.State

    abbrev pub answer : Answer
    answer =
        handle_get_lineage L C decimal text_bytes unmarshal range atoi db cache ns name root_type
          level direction

    -- A request that is accepted.
    answered :
        (accepted : String) (meta : Metadata) (content : List ℕ) (fds : FileDescriptorSet)
        → str_eq root_type "" ≡ false
        → normalize_lineage_direction (query_direction direction) ≡ ok accepted
        → get_latest L C decimal text_bytes db cache ns name ≡ (ok (meta, content), cache')
        → unmarshal content ≡ ok fds
        → (resp : LineageResponse) × (answer ≡ (ok resp, cache'))
          × (resp.direction ≡ accepted)
          × IsAnswer range fds root_type (query_level atoi level) resp
    unfolding handle_get_lineage get_lineage
    answered accepted meta content fds named normal latest readable =
        let (resp, answers, same, right) =
          compute_lineage-IsAnswer unmarshal range content ns name root_type
            (query_level atoi level) (query_direction direction) accepted fds readable normal in
        let answers' =
          ap
            (λ n.
              compute_lineage unmarshal range content ns name root_type n
                (query_direction direction))
            (query_level-default atoi level)
          ∙ answers in
        let served : get_lineage L C decimal text_bytes unmarshal range db cache ns name root_type
              (query_level atoi level) (query_direction direction)
            ≡ (ok resp, cache') =
          rw (latest, get_lineage)
            (rw (answers', get_lineage)
              (ap (λ (o : Outcome ServiceErr (Metadata × List ℕ) × C.State). (ok resp, o.1))
                latest)) in
        let handled = ap (λ (o : Outcome GetLineageErr LineageResponse × C.State). o.0) served in
        (
          resp,
          rw (named, normal, handle_get_lineage)
              (rw (handled, handle_get_lineage)
                (ap (λ (o : Outcome GetLineageErr LineageResponse × C.State). (ok resp, o.1))
                  served)),
          same,
          right,
        )

    unnamed :
        root_type ≡ ""
        → answer ≡ (err (bad_request "missing required path parameter: type_name"), cache)
    unfolding handle_get_lineage
    unnamed e = rw ((eq_iff root_type "").1 e, handle_get_lineage) refl

    refused :
        str_eq root_type "" ≡ false
        → normalize_lineage_direction (query_direction direction)
          ≡ err (invalid_direction direction)
        → answer ≡ (err (refused_direction (invalid_direction direction)), cache)
    unfolding handle_get_lineage
    refused named e = rw (named, handle_get_lineage) (rw (e, handle_get_lineage) refl)

    -- A lineage request for a schema whose latest version is read and unmarshals. Without a type, or
    -- with a direction that is not accepted, it is refused and the cache stays. Otherwise it is
    -- answered: the direction is the one asked for, both if it is empty, and each of its sides holds
    -- exactly the types within a level of some root, the positive number that the request gives, or
    -- 10 if it gives none.
    pub handle_get_lineage-IsAnswer :
        (meta : Metadata) (content : List ℕ) (fds : FileDescriptorSet)
        → get_latest L C decimal text_bytes db cache ns name ≡ (ok (meta, content), cache')
        → unmarshal content ≡ ok fds
        → ((root_type ≡ "")
            × (answer ≡ (err (bad_request "missing required path parameter: type_name"), cache)))
          ⊎ ((root_type ≢ "")
              × (¬ ((accepted : String) × IsDirection direction accepted))
              × (answer ≡ (err (refused_direction (invalid_direction direction)), cache)))
          ⊎ ((root_type ≢ "")
              × ((n : ℕ) × (resp : LineageResponse) × IsLevel atoi level n
                  × IsDirection direction resp.direction
                  × (answer ≡ (ok resp, cache'))
                  × IsAnswer range fds root_type n resp))
    handle_get_lineage-IsAnswer meta content fds latest readable =
        elim (Bool-cases (str_eq root_type "")) [
          | inl empty ↦ let e = (eq_iff root_type "").0 empty in inl (e, unnamed e)
          | inr given ↦
              let named : root_type ≢ "" = (λ e. cc (given, (eq_iff root_type "").1 e)) in
              elim (IsDirection-outcome direction) [
                | inr (bad, e) ↦ inr (inl (named, bad, refused given e))
                | inl (accepted, good, e) ↦
                    let (resp, answers, same, right) =
                      answered accepted meta content fds given e latest readable in
                    inr (
                      inr (
                        named,
                        (
                          query_level atoi level,
                          resp,
                          query_level-IsLevel atoi level,
                          subst (IsDirection direction) (sym same) good,
                          answers,
                          right,
                        ),
                      ))
              ]
        ]
