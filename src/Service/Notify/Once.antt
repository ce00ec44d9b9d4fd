-- ===== src/Service/Notify/Once.antt =====
-- A change that was sent is not sent again.
use stencil.Base.{ℕ, String, [], ◌∷◌, true, false, any, ◌≡◌, ◌≢◌, refl, ap, inl, inr, str_eq}
use stencil.Base.Outcome.{Outcome, ok, err}
use stencil.Detector.Event.{SchemaChangedEvent, ChangeRequest}
use stencil.Store.Tables.{StorageErr, no_rows, Db}
use stencil.Store.Rows.{str_eq_refl}
use stencil.Store.Schemas.{get_schema_id}
use stencil.Store.Notifications.{
  NotificationEvent, NotificationEvents, get_successful, update_event,
}
use stencil.Store.Notifications.Notified.{get_successful-cons}
use stencil.Service.Notify.{Producer, create_notification_event, identify_and_send, identify_change}
use stencil.Service.Notify.Sent.{only_row-any, update_event-known, send_notification_records}

module _ (K : Producer) (kafka_topic : String) where
  -- The same change again, after it was sent: nothing is written, and the call returns no error.
  found_sends_nothing :
      {E : Type 0} (identified : Outcome E SchemaChangedEvent) (db : Db) (rows : NotificationEvents)
      (producer : K.State) (request : ChangeRequest) (version_id : String) (schema_id : ℕ)
      (event : NotificationEvent)
      → get_schema_id db request.namespace_id request.schema_name ≡ ok schema_id
      → get_successful rows request.namespace_id schema_id version_id ≡ ok event
      → str_eq event.id "" ≡ false
      → (rows' : NotificationEvents) × (identify_change K kafka_topic identified db rows producer
            request version_id
          ≡ (ok tt, rows', producer))
  unfolding identify_change get_successful
  found_sends_nothing identified db rows producer request version_id schema_id event known sent
        named =
      let there =
        only_row-any _ (λ (r : NotificationEvent). str_eq r.id event.id) rows event sent
          (str_eq_refl event.id) in
      let (_, rows', updated) = update_event-known rows event.id true there in
      (
        (update_event rows event.id true).1,
        rw (known, identify_change)
            (rw (sent, identify_change)
              (rw (named, identify_change)
                (rw
                  (
                    ap (λ (o : Outcome StorageErr NotificationEvent × NotificationEvents). o.0)
                        updated,
                    identify_change,
                  )
                  refl))),
      )

  -- A change that updates schemas, of a version for which no event was sent, with a new event id that
  -- is not empty, and whose write returns no error: the first call writes the message, and the same
  -- call again, with whatever the detector then returns, writes nothing; both return no error.
  pub change_sent_once :
      {E : Type 0} (again : Outcome E SchemaChangedEvent) (sce : SchemaChangedEvent) (db : Db)
      (rows : NotificationEvents) (producer : K.State) (request : ChangeRequest)
      (version_id : String) (schema_id : ℕ)
      → get_schema_id db request.namespace_id request.schema_name ≡ ok schema_id
      → get_successful rows request.namespace_id schema_id version_id ≡ err no_rows
      → any (λ (r : NotificationEvent). str_eq r.id sce.event_id) rows ≡ false
      → str_eq sce.event_id "" ≡ false
      → sce.updated_schemas ≢ []
      → (K.write producer kafka_topic sce).0 ≡ ok tt
      → (rows' : NotificationEvents) × (rows'' : NotificationEvents) × (identify_change K
            kafka_topic {E = E}
            (ok sce)
            db
            rows
            producer
            request
            version_id
          ≡ (ok tt, rows', (K.write producer kafka_topic sce).1))
        × (identify_change K kafka_topic again db rows'
              (K.write producer kafka_topic sce).1
              request
              version_id
            ≡ (ok tt, rows'', (K.write producer kafka_topic sce).1))
  unfolding identify_change identify_and_send
  change_sent_once again sce db rows producer request version_id schema_id known unsent_before fresh
        named updates written =
      elim (send_notification_records K kafka_topic rows producer sce request version_id schema_id
        fresh) [
          | inl (nothing, _) ↦ absurd (updates nothing)
          | inr (_, inl (e, failed, _)) ↦ absurd (cc (failed, written))
          | inr (_, inr (_, sending_ok)) ↦
              let sent = record (create_notification_event sce request version_id schema_id false) {
                success = true;
              } in
              let found : get_successful (sent ∷ rows) request.namespace_id schema_id version_id
                  ≡ ok sent =
                elim (get_successful-cons rows sent refl) [
                  | inl (_, one) ↦ one
                  | inr (more, _) ↦ absurd (more unsent_before)
                ] in
              let (rows'', second) =
                found_sends_nothing again db (sent ∷ rows) (K.write producer kafka_topic sce).1
                  request version_id schema_id sent known found named in
              (
                sent ∷ rows,
                rows'',
                rw (known, identify_change) (rw (unsent_before, identify_change) sending_ok),
                second,
              )
        ]
