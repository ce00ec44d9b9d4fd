-- ===== src/Service/Guard.antt =====
-- What Create of core/schema/service.go lets through.
use stencil.Base.{ℕ, String, [], ◌∷◌, none, ◌≡◌, refl, ◌⊎◌, inl, inr, Option-cases}
use stencil.Base.Outcome.{Outcome, ok, err, Outcome-cases}
use stencil.Formats.Parsed.Errors.{Bytes, Error, Result, ok as parsed, err as refused}
use stencil.Formats.Parsed.{Libraries, ParsedSchema, parse_schema}
use stencil.Service.Checker.{get_compatibility_checker, get_non_empty}
use stencil.Service.{
  ServiceErr, storage, invalid, Cache, SchemaInfo, get_latest, check_against_latest, create_checked,
  create_schema, update_request, get_id_for_schema,
}
use stencil.Store.Tables.{no_rows, conflict, unknown, NamespaceRow, Db}
use stencil.Store.Schemas.{Metadata}
use stencil.Store.Schemas.{create as repo_create}
use stencil.Store.Namespaces.{get_namespace}

module _ (L : Libraries) (C : Cache) (decimal : ℕ → String) (text_bytes : String → Bytes) where
  abbrev Latest : Type 0
  Latest = Outcome ServiceErr (Metadata × Bytes)

  -- The schema that is compared against was read, parsed and passed by the checker, or there is none.
  unfoldable pub Passes : String → ParsedSchema L.AvroSchema → Latest → Type 0
  Passes compatibility current latest =
      (latest ≡ err (storage no_rows))
      ⊎ ((meta : Metadata) × (found : Bytes) × (prev : ParsedSchema L.AvroSchema) × (latest
            ≡ ok (meta, found))
          × (parse_schema L meta.format found ≡ parsed prev)
          × (get_compatibility_checker L compatibility current (prev ∷ []) ≡ none))

  Result-cases :
      {A : Type 0} (o : Result A) → ((a : A) × (o ≡ parsed a)) ⊎ ((e : Error) × (o ≡ refused e))
  Result-cases (parsed a) = inl (a, refl)
  Result-cases (refused e) = inr (e, refl)

  check-Passes :
      (compatibility : String) (current : ParsedSchema L.AvroSchema) (latest : Latest)
      → check_against_latest L C decimal text_bytes compatibility current latest ≡ none
      → Passes compatibility current latest
  unfolding Passes check_against_latest
  check-Passes compatibility current (err (storage no_rows)) h = inl refl
  check-Passes compatibility current (ok (meta, found)) h =
      elim (Result-cases (parse_schema L meta.format found)) [
        | inr (e, bad) ↦ absurd (cc (rw (bad, check_against_latest) at h))
        | inl (prev, good) ↦
            elim (Option-cases (get_compatibility_checker L compatibility current (prev ∷ []))) [
              | inl fine ↦ inr (meta, found, prev, refl, good, fine)
              | inr (e, bad) ↦
                  let h' = rw (good, check_against_latest) at h in
                  absurd (cc (rw (bad, check_against_latest) at h'))
            ]
      ]
  check-Passes compatibility current (err (storage conflict)) h = absurd (cc (h))
  check-Passes compatibility current (err (storage unknown)) h = absurd (cc (h))
  check-Passes compatibility current (err (invalid e)) h = absurd (cc (h))

  create_checked-stores :
      (db : Db) (cache : C.State) (ns_name name : String) (meta : Metadata)
      (commit_sha format compatibility : String) (current : ParsedSchema L.AvroSchema)
      → let request =
          update_request L C decimal text_bytes ns_name name meta format compatibility current in
        let id = get_id_for_schema L C decimal text_bytes ns_name name request.schema_file.id in
        (create_checked L C decimal text_bytes db cache ns_name name meta commit_sha format
          compatibility current).1
        ≡ (repo_create db request id commit_sha).1
  unfolding create_checked
  create_checked-stores db cache ns_name name meta commit_sha format compatibility current =
      let request =
        update_request L C decimal text_bytes ns_name name meta format compatibility current in
      let id = get_id_for_schema L C decimal text_bytes ns_name name request.schema_file.id in
      elim (Outcome-cases (repo_create db request id commit_sha).0) [
        | inl (v, e) ↦ rw (e, create_checked) refl
        | inr (x, e) ↦ rw (e, create_checked) refl
      ]

  module _ (db : Db) (cache : C.State) (ns_name name : String) (meta : Metadata) (content : Bytes)
      (commit_sha : String) where
    abbrev result : Outcome ServiceErr SchemaInfo × Db × C.State
    result = create_schema L C decimal text_bytes db cache ns_name name meta content commit_sha

    -- The namespace is there, the bytes parse in the format of the request or else of the
    -- namespace, and what they parse to passes in the mode of the request or else of the namespace.
    pub record IsAccepted : Type 0 where
      pub ns : NamespaceRow
      pub namespaced : get_namespace db ns_name ≡ ok ns
      pub current : ParsedSchema L.AvroSchema
      pub parses :
          parse_schema L (get_non_empty (meta.format ∷ ns.format ∷ [])) content ≡ parsed current
      pub passes :
          Passes
            (get_non_empty (meta.compatibility ∷ ns.compatibility ∷ []))
            current
            (get_latest L C decimal text_bytes db cache ns_name name).0
      pub stores :
          let format = get_non_empty (meta.format ∷ ns.format ∷ []) in
          let mode = get_non_empty (meta.compatibility ∷ ns.compatibility ∷ []) in
          let request =
            update_request L C decimal text_bytes ns_name name meta format mode current in
          let id = get_id_for_schema L C decimal text_bytes ns_name name request.schema_file.id in
          result.1 ≡ (repo_create db request id commit_sha).1

    abbrev pub Kept : Type 0
    Kept = ((e : ServiceErr) × (result.0 ≡ err e)) × (result.1 ≡ db)

    -- `Create` of the service either had an accepted schema, and leaves the tables that `Create` of
    -- the repository leaves for it, or it returns an error and leaves the
    -- tables as they were.
    pub create_schema_guarded : IsAccepted ⊎ Kept
    unfolding create_schema
    create_schema_guarded = elim (Outcome-cases (get_namespace db ns_name)) [
      | inr (e, bad) ↦ inr (rw (bad, create_schema) ((storage e, refl), refl))
      | inl (ns, home) ↦
          elim (Result-cases
            (parse_schema L (get_non_empty (meta.format ∷ ns.format ∷ [])) content)) [
              | inr (e, bad) ↦
                  inr (rw (home, create_schema) (rw (bad, create_schema) ((invalid e, refl), refl)))
              | inl (current, good) ↦
                  let mode = get_non_empty (meta.compatibility ∷ ns.compatibility ∷ []) in
                  let format = get_non_empty (meta.format ∷ ns.format ∷ []) in
                  let (latest, cache') = get_latest L C decimal text_bytes db cache ns_name name in
                  elim (Option-cases
                    (check_against_latest L C decimal text_bytes mode current latest)) [
                      | inl fine ↦ inl (record {
                        ns = ns;
                        namespaced = home;
                        current = current;
                        parses = good;
                        passes = check-Passes mode current latest fine;
                        stores =
                            rw (home, create_schema)
                              (rw (good, create_schema)
                                (rw (fine, create_schema)
                                  (create_checked-stores db cache' ns_name name meta commit_sha
                                    format mode current)));
                      })
                      | inr (e, bad) ↦ inr (
                          rw (home, create_schema)
                            (rw (good, create_schema) (rw (bad, create_schema) ((e, refl), refl))))
                    ]
            ]
    ]
