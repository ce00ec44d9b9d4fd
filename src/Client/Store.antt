-- ===== src/Client/Store.antt =====
-- clients/go/store.go: a store, its background refresher, and what runs beside them. A step is what
-- one goroutine does between two points at which it waits; a refresh ends at one point, under the
-- lock, with the value that its loader returned (`none` for an error). getResolver is taken as
-- one step: a refresh that ends between its two halves only changes which value it returns.
pub mod Runs
use stencil.Base.{ℕ, suc, Bool, true, false, Option, none, some, ◌≡◌, if◌then◌else◌, ◌+◌}
use stencil.Base.Outcome.{Outcome, ok, err}

-- Where the goroutine of setInterval is: in `select`, waiting for a reader, in `f()`, or returned.
pub data Refresher : Type 0 where
  selecting : Refresher
  waiting : Refresher
  refreshing : Refresher
  stopped : Refresher

-- `open_access` is that `access` is not closed. `reads` and `started` count the calls of
-- getResolver and the refreshes that the goroutine started; the code keeps no such counters.
pub record Store (R : Type 0) : Type 0 where
  pub resolver : Option R
  pub refresher : Refresher
  pub open_access : Bool
  pub reads : ℕ
  pub started : ℕ

-- newStore with the result of the first load. Without automatic refresh there is no goroutine.
unfoldable pub new_store : {R E : Type 0} → Outcome E R → Bool → Outcome E (Store R)
new_store (err e) auto_refresh = err e
new_store (ok val) auto_refresh = ok (record {
  resolver = some val;
  refresher = if auto_refresh then selecting else stopped;
  open_access = true;
  reads = 0;
  started = 0;
})

-- notify: the send succeeds if the goroutine waits, and is skipped otherwise. A send on a closed
-- channel panics: `none`.
unfoldable pub notify : {R : Type 0} → Store R → Option (Store R)
notify s =
    if s.open_access
    then some (elim s.refresher as (λ _. Store _) [
      | waiting ↦ record s { refresher = refreshing; started = s.started + 1 }
      | selecting ↦ s
      | refreshing ↦ s
      | stopped ↦ s
    ])
    else none

-- getResolver
unfoldable pub get_resolver : {R : Type 0} → Store R → Option (Option R × Store R)
unfolding notify
get_resolver s = elim (notify s) [
  | none ↦ none
  | some s' ↦ some (s'.resolver, record s' { reads = s'.reads + 1 })
]

-- The end of `refresh`: an error leaves the value.
unfoldable pub refresh : {R : Type 0} → Option R → Store R → Store R
refresh none s = s
refresh (some val) s = record s { resolver = some val }

pub data Step {R : Type 0} (s : Store R) : Store R → Type 0 where
  -- The ticker fires.
  tick : s.refresher ≡ selecting → Step s (record s { refresher = waiting })
  -- A reader calls getResolver.
  read : (found : Option R) (t : Store R) → get_resolver s ≡ some (found, t) → Step s t
  -- The goroutine's refresh ends.
  refreshed :
      (loaded : Option R)
      → s.refresher ≡ refreshing
      → Step s (record (refresh loaded s) { refresher = selecting })
  -- A refresh that Client.Refresh started ends.
  refreshed_by_client : (loaded : Option R) → Step s (refresh loaded s)
  -- `close(s.access)`, the first thing that Close does.
  close_access : s.open_access ≡ true → Step s (record s { open_access = false })
  -- A receive from the closed channel gives false, and the goroutine selects again.
  receive_closed :
      s.open_access ≡ false → s.refresher ≡ waiting → Step s (record s { refresher = selecting })
  -- `t.done <- true` of the timer's Close meets the goroutine in its `select`.
  stop : s.open_access ≡ false → s.refresher ≡ selecting → Step s (record s { refresher = stopped })

pub data Steps {R : Type 0} (s : Store R) : Store R → Type 0 where
  here : Steps s s
  next : {t u : Store R} → Steps s t → Step t u → Steps s u
