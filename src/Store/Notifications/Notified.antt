-- ===== src/Store/Notifications/Notified.antt =====
-- What the lookup of a sent event finds, before and after an event is sent.
use stencil.Base.{
  String, List, [], ◌∷◌, map, any, true, false, ◌≡◌, ◌≢◌, refl, ap, ◌⊎◌, inl, inr, str_eq,
  if◌then◌else◌, arith, Bool-cases,
}
use stencil.Base.Outcome.{Outcome, ok, err}
use stencil.Store.Tables.{no_rows, unknown, select}
use stencil.Store.Rows.{first-cons, str_eq_refl}
use stencil.Store.Notifications.{
  NotificationEvent, NotificationEvents, is_sent, only_row, get_successful, update_event,
}

-- Before and after one more row matches.
only_row-cons :
    {A : Type 0} (x : A) (xs : List A)
    → ((only_row xs ≡ err no_rows) × (only_row (x ∷ xs) ≡ ok x))
      ⊎ ((only_row xs ≢ err no_rows) × (only_row (x ∷ xs) ≡ err unknown))
unfolding only_row
only_row-cons x [] = inl (refl, refl)
only_row-cons x (y ∷ []) = inr ((λ e. cc (e)), refl)
only_row-cons x (y ∷ z ∷ zs) = inr ((λ e. cc (e)), refl)

-- Marking an event whose id no row has changes no row.
map-fresh :
    (rows : NotificationEvents) (id : String)
    → any (λ (r : NotificationEvent). str_eq r.id id) rows ≡ false
    → map
        (λ (r : NotificationEvent). if str_eq r.id id then record r { success = true } else r)
        rows
      ≡ rows
map-fresh [] id h = refl
map-fresh (r ∷ rows) id h = elim (Bool-cases (str_eq r.id id)) [
  | inl e ↦ absurd (cc (rw (e) at h))
  | inr e ↦ rw (e) (ap (λ rs. r ∷ rs) (map-fresh rows id (rw (e) at h)))
]

select-sent :
    (rows : NotificationEvents) (e : NotificationEvent)
    → e.success ≡ true
    → select (is_sent e.namespace_id e.schema_id e.version_id) (e ∷ rows)
      ≡ e ∷ select (is_sent e.namespace_id e.schema_id e.version_id) rows
unfolding select is_sent
select-sent rows e sent = ground (arith, str_eq_refl e.namespace_id, str_eq_refl e.version_id, sent)

-- With one more row that matches, the lookup finds this row alone, or more than one.
pub get_successful-cons :
    (rows : NotificationEvents) (e : NotificationEvent)
    → e.success ≡ true
    → ((get_successful rows e.namespace_id e.schema_id e.version_id ≡ err no_rows)
        × (get_successful (e ∷ rows) e.namespace_id e.schema_id e.version_id ≡ ok e))
      ⊎ ((get_successful rows e.namespace_id e.schema_id e.version_id ≢ err no_rows)
          × (get_successful (e ∷ rows) e.namespace_id e.schema_id e.version_id ≡ err unknown))
unfolding get_successful
get_successful-cons rows e sent = rw (select-sent rows e sent) (only_row-cons e _)

module _ (rows : NotificationEvents) (event : NotificationEvent) where
  pub updated :
      any (λ (r : NotificationEvent). str_eq r.id event.id) rows ≡ false
      → update_event (event ∷ rows) event.id true
        ≡ (ok (record event { success = true }), record event { success = true } ∷ rows)
  unfolding update_event
  updated fresh =
      rw
        (
          first-cons (λ (r : NotificationEvent). str_eq r.id event.id) event rows
              (str_eq_refl event.id),
          update_event,
        )
        (rw (str_eq_refl event.id) (
          ap (λ rs. (ok (record event { success = true }), record event { success = true } ∷ rs))
            (map-fresh rows event.id fresh)))
