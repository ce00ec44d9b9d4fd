-- ===== src/Api/Namespaces.antt =====
-- internal/api/namespace.go, and core/namespace/service.go, which passes every call on to the
-- repository. Times are left out.
pub mod Stored
use stencil.Base.{ℕ, String, List, map, Option, none, some}
use stencil.Base.Outcome.{Outcome, ok, err}
use stencil.Store.Tables.{StorageErr, NamespaceRow, Db}
use stencil.Store.Namespaces.{
  create_namespace, update_namespace, get_namespace, delete_namespace, list_namespaces,
}
use stencil.Api.{schema_format, schema_compatibility, enum_value, enum_string, success}

-- CreateNamespaceRequest and UpdateNamespaceRequest, and the Namespace of a response.
pub record Namespace : Type 0 where
  pub id : String
  pub format : ℕ
  pub compatibility : ℕ
  pub description : String

abbrev pub create_namespace_request_to_namespace : (ℕ → String) → Namespace → NamespaceRow
create_namespace_request_to_namespace decimal r = record {
  id = r.id;
  format = enum_string decimal schema_format r.format;
  compatibility = enum_string decimal schema_compatibility r.compatibility;
  description = r.description;
}

abbrev pub namespace_to_proto : NamespaceRow → Namespace
namespace_to_proto ns = record {
  id = ns.id;
  format = enum_value schema_format ns.format;
  compatibility = enum_value schema_compatibility ns.compatibility;
  description = ns.description;
}

abbrev pub proto_of : Outcome StorageErr NamespaceRow → Outcome StorageErr Namespace
proto_of (ok ns) = ok (namespace_to_proto ns)
proto_of (err e) = err e

module _ (decimal : ℕ → String) where
  unfoldable pub handle_create : Db → Namespace → Outcome StorageErr Namespace × Db
  handle_create db request =
      let (created, db') =
        create_namespace db (create_namespace_request_to_namespace decimal request) in
      (proto_of created, db')

  unfoldable pub handle_update : Db → Namespace → Outcome StorageErr Namespace × Db
  handle_update db request =
      let (updated, db') =
        update_namespace db (create_namespace_request_to_namespace decimal request) in
      (proto_of updated, db')

unfoldable pub handle_get : Db → String → Outcome StorageErr Namespace
handle_get db id = proto_of (get_namespace db id)

unfoldable pub handle_list : Db → List Namespace
handle_list db = map namespace_to_proto (list_namespaces db)

unfoldable pub handle_delete : Db → String → String × Db
handle_delete db id = (success, delete_namespace db id)
