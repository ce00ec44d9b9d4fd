-- ===== src/Service/Notify/Sent.antt =====
-- When the tables say that a change was sent.
use stencil.Base.{
  ℕ, String, List, [], ◌∷◌, map, Bool, true, false, any, ◌≡◌, ◌≢◌, refl, sym, ap, ◌∙◌, subst, ◌⊎◌,
  inl, inr, str_eq, arith, Bool-cases, if◌then◌else◌,
}
use stencil.Base.Outcome.{Outcome, ok, err, Outcome-cases}
use stencil.Detector.Event.{SchemaChangedEvent, ChangeRequest}
use stencil.Store.Tables.{StorageErr, select}
use stencil.Store.Rows.{first_of_any}
use stencil.Store.Notifications.{
  NotificationEvent, NotificationEvents, create_event, only_row, update_event,
}
use stencil.Store.Notifications.Notified.{updated}
use stencil.Service.Notify.{
  Producer, pushing_message, create_notification_event, Notified, send_event, send_notification,
}

only_row-ok : {A : Type 0} (xs : List A) (x : A) → only_row xs ≡ ok x → xs ≡ x ∷ []
unfolding only_row
only_row-ok [] x e = absurd (cc (e))
only_row-ok (y ∷ []) x e = ap (λ o. elim o [ ok z ↦ z ∷ [] | err _ ↦ y ∷ [] ]) e
only_row-ok (y ∷ z ∷ zs) x e = absurd (cc (e))

-- If one of the tests selects rows, another test that the first of them passes finds one too.
select-any :
    {A : Type 0} (p q : A → Bool) (xs ys : List A) (x : A)
    → select p xs ≡ x ∷ ys
    → q x ≡ true
    → any q xs ≡ true
unfolding select
select-any p q [] ys x e h = absurd (cc (e))
select-any p q (y ∷ xs) ys x e h = elim (Bool-cases (p y)) [
  | inl found ↦
      let same : y ≡ x = ap (λ zs. elim zs [ [] ↦ y | z ∷ _ ↦ z ]) (rw (found) at e) in
      rw (ap q same ∙ h) refl
  | inr missed ↦ let rest = select-any p q xs ys x (rw (missed) at e) h in ground (arith, rest)
]

pub only_row-any :
    {A : Type 0} (p q : A → Bool) (xs : List A) (x : A)
    → only_row (select p xs) ≡ ok x
    → q x ≡ true
    → any q xs ≡ true
only_row-any p q xs x e h = select-any p q xs [] x (only_row-ok (select p xs) x e) h

pub update_event-known :
    (rows : NotificationEvents) (id : String) (success : Bool)
    → any (λ (r : NotificationEvent). str_eq r.id id) rows ≡ true
    → (event : NotificationEvent) × (rows' : NotificationEvents) × (update_event rows id success
        ≡ (ok event, rows'))
unfolding update_event
update_event-known rows id success h =
    let (e, found) = first_of_any (λ (r : NotificationEvent). str_eq r.id id) rows h in
    (
      record e { success = success },
      map (λ (r : NotificationEvent). if str_eq r.id id then record r { success = success } else r)
          rows,
      rw (found, update_event) refl,
    )

List-cases : {A : Type 0} (xs : List A) → (xs ≡ []) ⊎ ((y : A) × (ys : List A) × (xs ≡ y ∷ ys))
List-cases [] = inl refl
List-cases (y ∷ ys) = inr (y, ys, refl)

created :
    (rows : NotificationEvents) (event : NotificationEvent)
    → any (λ (r : NotificationEvent). str_eq r.id event.id) rows ≡ false
    → create_event rows event ≡ (ok event, event ∷ rows)
unfolding create_event
created rows event fresh = rw (fresh) refl

module _ (K : Producer) (kafka_topic : String) (rows : NotificationEvents) (producer : K.State)
    (sce : SchemaChangedEvent) (request : ChangeRequest) (version_id : String) (schema_id : ℕ) where
  abbrev pub unsent : NotificationEvent
  unsent = create_notification_event sce request version_id schema_id false

  abbrev pub sending : Notified K kafka_topic
  sending = send_notification K kafka_topic rows producer sce request version_id schema_id

  -- With a new id, the event is stored and the message written; then the event is marked.
  send_event_records :
      any (λ (r : NotificationEvent). str_eq r.id sce.event_id) rows ≡ false
      → ((e : String) × ((K.write producer kafka_topic sce).0 ≡ err e)
          × (send_event K kafka_topic rows producer sce unsent
              ≡ (err pushing_message, unsent ∷ rows, (K.write producer kafka_topic sce).1)))
        ⊎ (((K.write producer kafka_topic sce).0 ≡ ok tt)
            × (send_event K kafka_topic rows producer sce unsent ≡ (
              ok tt,
              record unsent { success = true } ∷ rows,
              (K.write producer kafka_topic sce).1,
            )))
  unfolding send_event
  send_event_records fresh =
      let made = created rows unsent fresh in
      elim (Outcome-cases (K.write producer kafka_topic sce).0) [
        | inr (e, failed) ↦ inl (
          e,
          failed,
          rw (made, send_event)
              (rw (failed, send_event)
                (ap
                  (λ (r : NotificationEvents).
                    (err pushing_message, r, (K.write producer kafka_topic sce).1))
                  (ap (λ (o : Outcome StorageErr NotificationEvent × NotificationEvents). o.1)
                    made))),
        )
        | inl (_, written) ↦
            let marked =
              ap
                (λ (z : Outcome StorageErr NotificationEvent × NotificationEvents).
                  update_event z.1 unsent.id true)
                made
              ∙ updated rows unsent fresh in
            inr (
              written,
              rw (made, send_event)
                  (rw (written, send_event)
                    (rw (marked, send_event)
                      (ap
                        (λ (r : NotificationEvents).
                          (ok tt, r, (K.write producer kafka_topic sce).1))
                        (ap (λ o. o.1) marked)))),
            )
      ]

  -- Sending a change whose event has a new id: nothing is done if no schema was updated; otherwise
  -- the message is written once, and the event is added to the table, unsent if the write returned
  -- an error, and marked as sent if it returned none; no other row is changed.
  pub send_notification_records :
      any (λ (r : NotificationEvent). str_eq r.id sce.event_id) rows ≡ false
      → ((sce.updated_schemas ≡ []) × (sending ≡ (ok tt, rows, producer)))
        ⊎ ((sce.updated_schemas ≢ [])
            × (((e : String) × ((K.write producer kafka_topic sce).0 ≡ err e)
                  × (sending
                      ≡ (err pushing_message, unsent ∷ rows, (K.write producer kafka_topic sce).1)))
                ⊎ (((K.write producer kafka_topic sce).0 ≡ ok tt)
                    × (sending ≡ (
                      ok tt,
                      record unsent { success = true } ∷ rows,
                      (K.write producer kafka_topic sce).1,
                    )))))
  unfolding send_notification
  send_notification_records fresh = elim (List-cases sce.updated_schemas) [
    | inl none_updated ↦ inl (none_updated, simp (none_updated, send_notification))
    | inr (y, ys, some_updated) ↦ inr (
      λ e. cc (e, some_updated),
      subst
          (λ z.
            ((e : String) × ((K.write producer kafka_topic sce).0 ≡ err e)
              × (z ≡ (err pushing_message, unsent ∷ rows, (K.write producer kafka_topic sce).1)))
            ⊎ (((K.write producer kafka_topic sce).0 ≡ ok tt)
                × (z ≡ (
                  ok tt,
                  record unsent { success = true } ∷ rows,
                  (K.write producer kafka_topic sce).1,
                ))))
          (sym (simp (some_updated, send_notification))) (send_event_records fresh),
    )
  ]
