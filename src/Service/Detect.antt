-- ===== src/Service/Detect.antt =====
-- DetectSchemaChange of core/schema/service.go. The request has no version id, so the event's is
-- empty. A negative version, which no row has, is an error when its data is read; the keys of the
-- cache for such versions are left out.
use stencil.Base.{ℕ, String, List, Option, none, some, str_eq, if◌then◌else◌}
use stencil.Base.Outcome.{Outcome, ok, err}
use stencil.Formats.Parsed.{Libraries}
use stencil.Detector.Event.{SchemaChangedEvent, ChangeRequest}
use stencil.Service.{Cache, ServiceErr, storage, get_schema}
use stencil.Service.Versions.{ℤ, pos, negsuc, validate_versions}
use stencil.Service.Notify.{
  NotifyErr, getting_schema_id, identifying_change, invalid_versions, invalid_depth, getting_data,
  getting_source_url, Producer, send_notification,
}
use stencil.Store.Tables.{no_rows, Db}
use stencil.Store.Schemas.{
  Metadata, get_schema_id, get_metadata, get_latest_version, get_version_commit_sha,
}
use stencil.Store.Notifications.{NotificationEvents}

-- A failed lookup of the commit is only logged.
unfoldable pub commit_of : Db → ℕ → ℤ → String
commit_of db schema_id (negsuc _) = ""
commit_of db schema_id (pos version) = elim (get_version_commit_sha db schema_id version) [
  | ok sha ↦ sha
  | err _ ↦ ""
]

abbrev pub number : ℤ → ℕ
number (pos n) = n
number (negsuc _) = 0

-- The request's depth, by strconv.ParseInt.
unfoldable pub depth_of : (String → Option ℤ) → String → Option ℤ
depth_of parse_int depth = parse_int (if str_eq depth "" then "-1" else depth)

module _ (L : Libraries) (C : Cache) (decimal : ℕ → String) (text_bytes : String → List ℕ)
    (K : Producer) (kafka_topic : String) (parse_int : String → Option ℤ) where
  unfoldable pub version_data :
      Db → C.State → String → String → ℤ → Outcome ServiceErr (Metadata × List ℕ) × C.State
  version_data db cache ns name (pos version) =
      get_schema L C decimal text_bytes db cache ns name version
  version_data db cache ns name (negsuc _) = (err (storage no_rows), cache)

  -- The request for the change detector, and the id of the schema.
  unfoldable pub change_request :
      Db → C.State → String → String → ℤ → ℤ → ℤ → Outcome NotifyErr (ChangeRequest × ℕ) × C.State
  unfolding version_data commit_of
  change_request db cache ns name from_ver to_ver depth =
      let (from_data, cache') = version_data db cache ns name from_ver in
      elim from_data [
        | err _ ↦ (err getting_data, cache')
        | ok (_, old_data) ↦
            let (to_data, cache'') = version_data db cache' ns name to_ver in
            elim to_data [
              | err _ ↦ (err getting_data, cache'')
              | ok (_, new_data) ↦ elim (get_metadata db ns name) [
                | err _ ↦ (err getting_source_url, cache'')
                | ok meta ↦ elim (get_schema_id db ns name) [
                  | err _ ↦ (err getting_schema_id, cache'')
                  | ok schema_id ↦ (
                    ok (
                      record {
                        namespace_id = ns;
                        schema_name = name;
                        version = number to_ver;
                        old_data = old_data;
                        new_data = new_data;
                        depth = depth;
                        source_url = meta.source_url;
                        commit_sha = commit_of db schema_id to_ver;
                      },
                      schema_id,
                    ),
                    cache'',
                  )
                ]
              ]
            ]
      ]

  -- The change detector is given as the function of the request.
  unfoldable pub detect_schema_change :
      {E : Type 0}
      → (ChangeRequest → Outcome E SchemaChangedEvent)
      → Db
      → C.State
      → NotificationEvents
      → K.State
      → String
      → String
      → String
      → String
      → String
      → Outcome NotifyErr SchemaChangedEvent × NotificationEvents × K.State × C.State
  unfolding change_request depth_of
  detect_schema_change detector db cache rows producer ns name from_version to_version depth =
      elim (validate_versions parse_int (get_latest_version db ns name) from_version to_version) [
        | err _ ↦ (err invalid_versions, rows, producer, cache)
        | ok (from_ver, to_ver) ↦ elim (depth_of parse_int depth) [
          | none ↦ (err invalid_depth, rows, producer, cache)
          | some depth64 ↦
              let (made, cache') = change_request db cache ns name from_ver to_ver depth64 in
              elim made [
                | err e ↦ (err e, rows, producer, cache')
                | ok (request, schema_id) ↦ elim (detector request) [
                  | err _ ↦ (err identifying_change, rows, producer, cache')
                  | ok sce ↦
                      let (sent, rows', producer') =
                        send_notification K kafka_topic rows producer sce request "" schema_id in
                      elim sent [
                        | err e ↦ (err e, rows', producer', cache')
                        | ok _ ↦ (ok sce, rows', producer', cache')
                      ]
                ]
              ]
        ]
      ]
