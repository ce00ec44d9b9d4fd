-- ===== src/Store/Notifications.antt =====
-- internal/store/postgres/notification_event_repository.go, on the rows of notification_events.
-- Times are left out.
pub mod Notified
use stencil.Base.{
  ℕ, String, List, [], ◌∷◌, map, Bool, true, false, not, ◌&&◌, ◌||◌, any, Option, none, some,
  str_eq, ◌==◌, if◌then◌else◌,
}
use stencil.Base.Outcome.{Outcome, ok, err}
use stencil.Store.Tables.{StorageErr, no_rows, conflict, unknown, first, select}

pub record NotificationEvent : Type 0 where
  pub id : String
  pub event_type : String
  pub namespace_id : String
  pub schema_id : ℕ
  pub version_id : String
  pub success : Bool

abbrev pub NotificationEvents : Type 0
NotificationEvents = List NotificationEvent

unfoldable pub create_event :
    NotificationEvents
    → NotificationEvent
    → Outcome StorageErr NotificationEvent × NotificationEvents
create_event rows event =
    if any (λ (r : NotificationEvent). str_eq r.id event.id) rows
    then (err conflict, rows)
    else (ok event, event ∷ rows)

unfoldable pub is_sent : String → ℕ → String → NotificationEvent → Bool
is_sent ns schema_id version_id r =
    str_eq r.namespace_id ns
    && (r.schema_id == schema_id)
    && str_eq r.version_id version_id
    && r.success

-- pgxscan.Get on the rows of a query: an error if there is none, another if there is more than one.
unfoldable pub only_row {ℓ} : {A : Type ℓ} → List A → Outcome StorageErr A
only_row [] = err no_rows
only_row (x ∷ []) = ok x
only_row (_ ∷ _ ∷ _) = err unknown

-- GetByNameSpaceSchemaVersionAndSuccess, for `success` true.
unfoldable pub get_successful :
    NotificationEvents → String → ℕ → String → Outcome StorageErr NotificationEvent
unfolding is_sent only_row
get_successful rows ns schema_id version_id =
    only_row (select (is_sent ns schema_id version_id) rows)

unfoldable pub update_event :
    NotificationEvents → String → Bool → Outcome StorageErr NotificationEvent × NotificationEvents
update_event rows id success = elim (first (λ (r : NotificationEvent). str_eq r.id id) rows) [
  | none ↦ (err no_rows, rows)
  | some event ↦ (
    ok (record event { success = success }),
    map (λ (r : NotificationEvent). if str_eq r.id id then record r { success = success } else r)
        rows,
  )
]
