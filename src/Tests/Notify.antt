-- ===== src/Tests/Notify.antt =====
-- The theorems on the notifications of core/schema/service.go at concrete inputs.
use stencil.Base.{String, List, [], ◌∷◌, none, ◌≡◌, ◌≢◌, refl, ◌⊎◌, true}
use stencil.Base.Outcome.{ok, err}
use stencil.Detector.Event.{SchemaChangedEvent, ChangeRequest}
use stencil.Service.Versions.{pos}
use stencil.Service.Notify.{Producer, send_notification, identify_change, pushing_message}
use stencil.Service.Notify.Sent.{send_notification_records, unsent}
use stencil.Service.Notify.Once.{change_sent_once}
use stencil.Store.Tables.{first, no_rows, select}
use stencil.Store.Schemas.{get_schema_id, find_schema, one_row}
use stencil.Store.Notifications.{NotificationEvents, get_successful, only_row}
use stencil.Tests.Search.{book_tables}

-- A producer that keeps what was written.
abbrev log_producer : Producer
log_producer = record {
  State = List SchemaChangedEvent;
  write = λ log topic sce. (ok tt, sce ∷ log);
}

abbrev book_change : SchemaChangedEvent
book_change = record {
  event_id = "e1";
  namespace_name = "shop";
  schema_name = "books";
  updated_schemas = "shop.Book" ∷ [];
  updated_fields = λ _. none;
  impacted_schemas = λ _. none;
  version = 2;
  source_url = "";
  commit_sha = "";
}

abbrev book_request : ChangeRequest
book_request = record {
  namespace_id = "shop";
  schema_name = "books";
  version = 2;
  old_data = 1 ∷ [];
  new_data = 2 ∷ [];
  depth = pos 3;
  source_url = "";
  commit_sha = "";
}

books_known : get_schema_id book_tables "shop" "books" ≡ ok 1
unfolding get_schema_id find_schema first one_row
books_known = refl

not_sent : get_successful [] "shop" 1 "v2" ≡ err no_rows
unfolding get_successful select only_row
not_sent = refl

book_change_recorded :
    ((book_change.updated_schemas ≡ [])
      × (send_notification log_producer "changes" [] [] book_change book_request "v2" 1
          ≡ (ok tt, [], [])))
    ⊎ ((book_change.updated_schemas ≢ [])
        × (((e : String) × ((log_producer.write [] "changes" book_change).0 ≡ err e)
              × (send_notification log_producer "changes" [] [] book_change book_request "v2" 1 ≡ (
                err pushing_message,
                unsent log_producer "changes" [] [] book_change book_request "v2" 1 ∷ [],
                (log_producer.write [] "changes" book_change).1,
              )))
            ⊎ (((log_producer.write [] "changes" book_change).0 ≡ ok tt)
                × (send_notification log_producer "changes" [] [] book_change book_request "v2" 1
                    ≡ (
                      ok tt,
                      record (unsent log_producer "changes" [] [] book_change book_request "v2" 1) {
                        success = true;
                      }
                          ∷ [],
                      (log_producer.write [] "changes" book_change).1,
                    )))))
book_change_recorded =
    send_notification_records log_producer "changes" [] [] book_change book_request "v2" 1 refl

book_change_sent_once :
    (rows' : NotificationEvents) × (rows'' : NotificationEvents) × (identify_change log_producer
        "changes" {E = String}
        (ok book_change)
        book_tables
        []
        []
        book_request
        "v2"
      ≡ (ok tt, rows', book_change ∷ []))
    × (identify_change log_producer "changes" {E = String}
          (ok book_change)
          book_tables
          rows'
          (book_change ∷ [])
          book_request
          "v2"
        ≡ (ok tt, rows'', book_change ∷ []))
book_change_sent_once =
    change_sent_once log_producer "changes" {E = String} (ok book_change) book_change book_tables []
      [] book_request "v2" 1 books_known not_sent refl refl (λ e. cc (e)) refl
