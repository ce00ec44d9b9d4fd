-- ===== src/Store/Namespaces.antt =====
-- internal/store/postgres/namespace_repository.go.
use stencil.Base.{String, List, ◌∷◌, map, not, any, str_eq, ◌==◌, if◌then◌else◌}
use stencil.Base.Outcome.{Outcome, ok, err}
use stencil.Store.Tables.{StorageErr, no_rows, conflict, NamespaceRow, SchemaRow, Db, first, select}
use stencil.Store.Schemas.{has_namespace, one_row, drop_versions}

unfoldable pub create_namespace : Db → NamespaceRow → Outcome StorageErr NamespaceRow × Db
create_namespace db ns =
    if has_namespace db ns.id
    then (err conflict, db)
    else (ok ns, record db { namespaces = ns ∷ db.namespaces })

unfoldable pub update_namespace : Db → NamespaceRow → Outcome StorageErr NamespaceRow × Db
update_namespace db ns =
    if has_namespace db ns.id
    then (
      ok ns,
      record db {
        namespaces = map (λ (n : NamespaceRow). if str_eq n.id ns.id then ns else n) db.namespaces;
      },
    )
    else (err no_rows, db)

unfoldable pub get_namespace : Db → String → Outcome StorageErr NamespaceRow
unfolding one_row
get_namespace db id = one_row (first (λ n. str_eq n.id id) db.namespaces)

-- The schemas of the namespace and their versions go with it.
unfoldable pub delete_namespace : Db → String → Db
delete_namespace db id =
    let gone = select (λ (s : SchemaRow). str_eq s.namespace_id id) db.schemas in
    drop_versions (λ v. any (λ (s : SchemaRow). s.id == v.schema_id) gone)
      (record db {
        namespaces = select (λ n. not (str_eq n.id id)) db.namespaces;
        schemas = select (λ (s : SchemaRow). not (str_eq s.namespace_id id)) db.schemas;
      })

-- The query returns no description.
unfoldable pub list_namespaces : Db → List NamespaceRow
list_namespaces db = map (λ (n : NamespaceRow). record n { description = "" }) db.namespaces
