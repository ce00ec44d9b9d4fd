-- ===== src/Service/Calls.antt =====
-- The remaining calls of core/schema/service.go that a handler makes: GetLineage, and those that go
-- straight to the repository. A level is a natural number, so 0 stands for those below it too.
use stencil.Base.{ℕ, String, List, ◌==◌, if◌then◌else◌}
use stencil.Base.Outcome.{Outcome, ok, err}
use stencil.Descriptors.{FileDescriptorSet}
use stencil.Formats.Parsed.{Libraries}
use stencil.Lineage.Compute.{LineageError, LineageResponse, compute_lineage}
use stencil.Service.{ServiceErr, Cache, get_latest}
use stencil.Store.Tables.{StorageErr, SchemaRow, Db}
use stencil.Store.Schemas.{
  Metadata, get_metadata, update_metadata, list, list_versions, delete, delete_version,
}

pub data GetLineageErr : Type 0 where
  fetching : ServiceErr → GetLineageErr
  computing : LineageError → GetLineageErr

unfoldable pub default_level : ℕ → ℕ
default_level level = if level == 0 then 10 else level

module _ (L : Libraries) (C : Cache) (decimal : ℕ → String) (text_bytes : String → List ℕ)
    (unmarshal : List ℕ → Outcome String FileDescriptorSet)
    (range : List String → List String) where
  unfoldable pub get_lineage :
      Db
      → C.State
      → String
      → String
      → String
      → ℕ
      → String
      → Outcome GetLineageErr LineageResponse × C.State
  unfolding default_level
  get_lineage db cache namespace_id schema_id root_type level direction =
      let (latest, cache') = get_latest L C decimal text_bytes db cache namespace_id schema_id in
      elim latest [
        | err e ↦ (err (fetching e), cache')
        | ok (_, content) ↦
            elim (compute_lineage unmarshal range content namespace_id schema_id root_type
              (default_level level) direction) [
                | err e ↦ (err (computing e), cache')
                | ok resp ↦ (ok resp, cache')
              ]
      ]

-- The cache is not touched by a deletion.
unfoldable pub delete_schema : Db → String → String → Db
delete_schema db ns name = delete db ns name

unfoldable pub delete_schema_version : Db → String → String → ℕ → Db
delete_schema_version db ns name version = delete_version db ns name version

unfoldable pub get_schema_metadata : Db → String → String → Outcome StorageErr Metadata
get_schema_metadata db ns name = get_metadata db ns name

unfoldable pub update_schema_metadata :
    Db → String → String → Metadata → Outcome StorageErr Metadata × Db
update_schema_metadata db ns name meta = update_metadata db ns name meta

unfoldable pub list_schemas : Db → String → List SchemaRow
list_schemas db ns = list db ns

unfoldable pub list_schema_versions : Db → String → String → List ℕ
list_schema_versions db ns name = list_versions db ns name
