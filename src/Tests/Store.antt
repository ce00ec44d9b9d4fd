-- ===== src/Tests/Store.antt =====
-- The theorems on internal/store/postgres at concrete inputs.
use stencil.Base.{ℕ, none, some, ◌≡◌, ◌≢◌, ◌⊎◌, refl, false, true}
use stencil.Base.Outcome.{ok, err}
use stencil.Store.Tables.{VersionRow, Db, unknown, first, max_version, select}
use stencil.Store.Schemas.{has_namespace, find_version, insert_schema, insert_version, create}
use stencil.Store.Inserted.{IsWellFormed}
use stencil.Store.Create.{IsCreated, IsSameContent, create_fresh, create_again}
use stencil.Store.Create.Branches.{create_outcome}
use stencil.Store.Notifications.{NotificationEvent}
use stencil.Store.Integrity.{IsConsistent, after, create_namespace_call, create_call}
use stencil.Store.Integrity.Reached.{
  empty_tables, Reached, at_start, then_call, Reached-IsConsistent,
}
use stencil.Tests.Samples.{tables, request_in, shop}

tables-IsWellFormed : IsWellFormed tables
tables-IsWellFormed = record { homes = tt; known = tt; below = tt }

nothing_stored : find_version tables "v1" ≡ none
unfolding find_version first
nothing_stored = refl

no_file : IsSameContent tables (request_in "shop").schema_file
unfolding first
no_file f e = absurd (cc (e))

first_create :
    (version : ℕ) × (db' : Db) × (create tables (request_in "shop") "v1" "c0ffee"
      ≡ (ok version, db'))
    × IsCreated tables db' (request_in "shop") version
    × IsWellFormed db'
first_create =
    create_fresh tables (request_in "shop") "v1" "c0ffee" tables-IsWellFormed refl nothing_stored
      no_file

abbrev stored_tables : Db
unfolding create
stored_tables = (create tables (request_in "shop") "v1" "c0ffee").1

stores_one : create tables (request_in "shop") "v1" "c0ffee" ≡ (ok 1, stored_tables)
unfolding create find_version first insert_schema insert_version max_version select
stores_one = refl

second_create : create stored_tables (request_in "shop") "v1" "beef" ≡ (ok 1, stored_tables)
second_create =
    create_again tables (request_in "shop") (request_in "shop") "v1" "c0ffee" "beef" 1 stored_tables
      stores_one

homeless_create :
    ((find_version tables "v1" ≡ none)
      × (has_namespace tables "office" ≡ false)
      × (create tables (request_in "office") "v1" "c0ffee"
          ≡ (err unknown, record tables { next_schema_id = 2 })))
    ⊎ (((find_version tables "v1" ≢ none) ⊎ (has_namespace tables "office" ≡ true))
        × ((v : VersionRow) × (db' : Db) × (create tables (request_in "office") "v1" "c0ffee"
              ≡ (ok v.version, db'))
            × (find_version db' "v1" ≡ some v)
            × IsWellFormed db'))
homeless_create = create_outcome tables (request_in "office") "v1" "c0ffee" tables-IsWellFormed

abbrev change_event : NotificationEvent
change_event = record {
  id = "e1";
  event_type = "SCHEMA_CHANGE_EVENT";
  namespace_id = "shop";
  schema_id = 1;
  version_id = "v1";
  success = false;
}

-- The namespace `shop` is created, then a schema in it.
two_calls-Reached : Reached (
    after
      (after empty_tables (create_namespace_call shop))
      (create_call (request_in "shop") "v1" "c0ffee"))
two_calls-Reached =
    then_call (then_call at_start (create_namespace_call shop))
      (create_call (request_in "shop") "v1" "c0ffee")

two_calls-IsConsistent : IsConsistent (
    after
      (after empty_tables (create_namespace_call shop))
      (create_call (request_in "shop") "v1" "c0ffee"))
two_calls-IsConsistent = Reached-IsConsistent _ two_calls-Reached
