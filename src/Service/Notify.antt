-- ===== src/Service/Notify.antt =====
-- The change detection of core/schema/service.go after Create and on request, and its notifications.
-- The producer (changeEventProducer over Kafka) is a parameter with a state; the id that an event gets
-- and the protobuf library are parameters too. Logs are left out.
pub mod Sent
pub mod Once
use stencil.Base.{
  ℕ, String, List, [], ◌∷◌, Bool, true, false, Option, none, some, str_eq, if◌then◌else◌,
}
use stencil.Base.Outcome.{Outcome, ok, err}
use stencil.Descriptors.{EnumDescriptorProto, FileDescriptorSet}
use stencil.Formats.Parsed.{Libraries}
use stencil.Detector.Event.{Message, SchemaChangedEvent, ChangeRequest, identify_schema_change}
use stencil.Service.{Cache, get_schema}
use stencil.Service.Versions.{ℤ, pos, negsuc, validate_versions}
use stencil.Store.Tables.{StorageErr, no_rows, Db}
use stencil.Store.Schemas.{get_schema_id, get_metadata, get_latest_version, get_version_commit_sha}
use stencil.Store.Notifications.{
  NotificationEvent, NotificationEvents, create_event, get_successful, update_event,
}

-- Which of the steps failed.
pub data NotifyErr : Type 0 where
  getting_schema_id : NotifyErr
  fetching_event : NotifyErr
  updating_event : NotifyErr
  identifying_change : NotifyErr
  inserting_event : NotifyErr
  pushing_message : NotifyErr
  invalid_versions : NotifyErr
  invalid_depth : NotifyErr
  getting_data : NotifyErr
  getting_source_url : NotifyErr

pub record Producer : Type 1 where
  pub State : Type 0
  pub write : State → String → SchemaChangedEvent → Outcome String (Unit {0}) × State

abbrev pub create_notification_event :
    SchemaChangedEvent → ChangeRequest → String → ℕ → Bool → NotificationEvent
create_notification_event sce request version_id schema_id success = record {
  id = sce.event_id;
  event_type = "SCHEMA_CHANGE_EVENT";
  namespace_id = request.namespace_id;
  schema_id = schema_id;
  version_id = version_id;
  success = success;
}

module _ (K : Producer) (kafka_topic : String) where
  -- A result, the rows of notification_events, and the producer.
  abbrev pub Notified : Type 0
  Notified = Outcome NotifyErr (Unit {0}) × NotificationEvents × K.State

  -- The body of the test in sendNotification.
  unfoldable pub send_event :
      NotificationEvents → K.State → SchemaChangedEvent → NotificationEvent → Notified
  send_event rows producer sce event =
      let (created, rows') = create_event rows event in
      elim created [
        | err _ ↦ (err inserting_event, rows', producer)
        | ok _ ↦
            let (written, producer') = K.write producer kafka_topic sce in
            elim written [
              | err _ ↦ (err pushing_message, rows', producer')
              | ok _ ↦
                  let (updated, rows'') = update_event rows' event.id true in
                  elim updated [
                    | err _ ↦ (err inserting_event, rows'', producer')
                    | ok _ ↦ (ok tt, rows'', producer')
                  ]
            ]
      ]

  unfoldable pub send_notification :
      NotificationEvents → K.State → SchemaChangedEvent → ChangeRequest → String → ℕ → Notified
  unfolding send_event
  send_notification rows producer sce request version_id schema_id = elim sce.updated_schemas [
    | [] ↦ (ok tt, rows, producer)
    | _ ∷ _ ↦
        send_event rows producer sce
          (create_notification_event sce request version_id schema_id false)
  ]

  -- What follows when no event of this version was sent before: `identified` is what the change
  -- detector returns.
  unfoldable pub identify_and_send :
      {E : Type 0}
      → Outcome E SchemaChangedEvent
      → NotificationEvents
      → K.State
      → ChangeRequest
      → String
      → ℕ
      → Notified
  unfolding send_notification
  identify_and_send identified rows producer request version_id schema_id = elim identified [
    | err _ ↦ (err identifying_change, rows, producer)
    | ok sce ↦ send_notification rows producer sce request version_id schema_id
  ]

  -- The private identifySchemaChange. No row gives an event whose id is empty.
  unfoldable pub identify_change :
      {E : Type 0}
      → Outcome E SchemaChangedEvent
      → Db
      → NotificationEvents
      → K.State
      → ChangeRequest
      → String
      → Notified
  unfolding identify_and_send
  identify_change identified db rows producer request version_id =
      elim (get_schema_id db request.namespace_id request.schema_name) [
        | err _ ↦ (err getting_schema_id, rows, producer)
        | ok schema_id ↦ elim (get_successful rows request.namespace_id schema_id version_id) [
          | err no_rows ↦ identify_and_send identified rows producer request version_id schema_id
          | err _ ↦ (err fetching_event, rows, producer)
          | ok prev_event ↦
              if str_eq prev_event.id ""
              then identify_and_send identified rows producer request version_id schema_id
              else (let (updated, rows') = update_event rows prev_event.id true in
                  elim updated [
                    | err _ ↦ (err updating_event, rows', producer)
                    | ok _ ↦ (ok tt, rows', producer)
                  ])
        ]
      ]
