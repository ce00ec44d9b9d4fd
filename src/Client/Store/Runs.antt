-- ===== src/Client/Store/Runs.antt =====
-- What every run of a store keeps, and that closing it ends.
use mathlib.Core.Option.{some-injective}
use stencil.Base.{
  ◌+◌, ◌≤◌, Bool, true, false, Option, none, some, ◌≡◌, ◌≢◌, refl, sym, ap, ◌∙◌, ◌⊎◌, inl, inr,
  subst, Option-cases, Bool-cases, arith,
}
use stencil.Base.Outcome.{ok, err}
use stencil.Client.Store.{
  Refresher, selecting, waiting, refreshing, stopped, Store, new_store, notify, get_resolver,
  refresh, Step, tick, read, refreshed, refreshed_by_client, close_access, receive_closed, stop,
  Steps, here, next,
}

-- There is a value, and the goroutine has started no more refreshes than there were reads.
pub record IsServing {R : Type 0} (s : Store R) : Type 0 where
  pub filled : s.resolver ≢ none
  pub paid : s.started ≤ s.reads

refresh_parts :
    {R : Type 0} (loaded : Option R) (s : Store R)
    → s.resolver ≢ none
    → ((refresh loaded s).resolver ≢ none)
      × ((refresh loaded s).started ≡ s.started)
      × ((refresh loaded s).reads ≡ s.reads)
unfolding refresh
refresh_parts none s h = (h, refl, refl)
refresh_parts (some v) s h = (λ e. cc (e), refl, refl)

-- A read that does not panic.
record IsRead {R : Type 0} (s : Store R) (found : Option R) (t : Store R) : Type 0 where
  value : found ≡ s.resolver
  same : t.resolver ≡ s.resolver
  counted : t.reads ≡ s.reads + 1
  starts : t.started ≤ s.started + 1
  was_open : s.open_access ≡ true

notify_parts :
    {R : Type 0} (s t : Store R)
    → notify s ≡ some t
    → (t.resolver ≡ s.resolver)
      × (t.reads ≡ s.reads)
      × (t.started ≤ s.started + 1)
      × (s.open_access ≡ true)
unfolding notify
notify_parts s t e = ground arith

get_resolver-IsRead :
    {R : Type 0} (s : Store R) (found : Option R) (t : Store R)
    → get_resolver s ≡ some (found, t)
    → IsRead s found t
unfolding get_resolver
get_resolver-IsRead s found t e = elim (Option-cases (notify s)) [
  | inl closed ↦ absurd (cc (rw (closed, get_resolver) at e))
  | inr (u, sent) ↦
      let e' = rw (sent, get_resolver) at e in
      let (a, b, c, d) = notify_parts s u sent in
      subst (λ z. IsRead s z.0 z.1) (some-injective _ _ e')
        (record { value = a; same = a; counted = omega (arith, b); starts = c; was_open = d })
]

Step-IsServing : {R : Type 0} {s t : Store R} → Step s t → IsServing s → IsServing t
Step-IsServing (tick e) h = record { filled = h.filled; paid = h.paid }
Step-IsServing {s} (read found t e) h =
    let r = get_resolver-IsRead s found t e in
    record {
      filled = λ n. h.filled (sym r.same ∙ n);
      paid = omega (arith, r.counted, r.starts, h.paid);
    }
Step-IsServing {s} (refreshed loaded e) h =
    let (a, b, c) = refresh_parts loaded s h.filled in
    record { filled = a; paid = ground (arith, h.paid) }
Step-IsServing {s} (refreshed_by_client loaded) h =
    let (a, b, c) = refresh_parts loaded s h.filled in
    record { filled = a; paid = ground (arith, h.paid) }
Step-IsServing (close_access e) h = record { filled = h.filled; paid = h.paid }
Step-IsServing (receive_closed e f) h = record { filled = h.filled; paid = h.paid }
Step-IsServing (stop e f) h = record { filled = h.filled; paid = h.paid }

closed-Step :
    {R : Type 0} {s t : Store R}
    → s.open_access ≡ false
    → Step s t
    → (t.open_access ≡ false) × (t.started ≡ s.started)
unfolding refresh
closed-Step c (tick e) = (c, refl)
closed-Step {s} c (read found t e) = absurd (cc (get_resolver-IsRead s found t e).was_open)
closed-Step c (refreshed none e) = (c, refl)
closed-Step c (refreshed (some v) e) = (c, refl)
closed-Step c (refreshed_by_client none) = (c, refl)
closed-Step c (refreshed_by_client (some v)) = (c, refl)
closed-Step c (close_access e) = (refl, refl)
closed-Step c (receive_closed e f) = (c, refl)
closed-Step c (stop e f) = (c, refl)

Steps-IsServing : {R : Type 0} {s t : Store R} → IsServing s → Steps s t → IsServing t
Steps-IsServing h here = h
Steps-IsServing h (next r st) = Step-IsServing st (Steps-IsServing h r)

-- The store that newStore makes.
new_store-IsServing :
    {R E : Type 0} (val : R) (auto_refresh : Bool) (s : Store R)
    → new_store {E = E} (ok val) auto_refresh ≡ ok s
    → IsServing s
unfolding new_store
new_store-IsServing val auto_refresh s e =
    subst IsServing (ap (λ o. elim o [ ok z ↦ z | err _ ↦ s ]) e)
      (record { filled = λ n. cc (n); paid = omega arith })

Refresher-cases :
    (r : Refresher) → (r ≡ selecting) ⊎ ((r ≡ waiting) ⊎ ((r ≡ refreshing) ⊎ (r ≡ stopped)))
Refresher-cases selecting = inl refl
Refresher-cases waiting = inr (inl refl)
Refresher-cases refreshing = inr (inr (inl refl))
Refresher-cases stopped = inr (inr (inr refl))

notify-open :
    {R : Type 0} (s : Store R)
    → s.open_access ≡ true
    → (u : Store R) × (notify s ≡ some u) × (u.resolver ≡ s.resolver) × (u.open_access ≡ true)
unfolding notify
notify-open s e = elim (Refresher-cases s.refresher) [
  | inl r ↦ (s, simp (e, r), refl, e)
  | inr (inl r) ↦
      (record s { refresher = refreshing; started = s.started + 1 }, simp (e, r), refl, e)
  | inr (inr (inl r)) ↦ (s, simp (e, r), refl, e)
  | inr (inr (inr r)) ↦ (s, simp (e, r), refl, e)
]

pub get_resolver-open :
    {R : Type 0} (s : Store R)
    → s.open_access ≡ true
    → (u : Store R) × (get_resolver s ≡ some (s.resolver, u))
      × (u.resolver ≡ s.resolver)
      × (u.open_access ≡ true)
unfolding get_resolver
get_resolver-open {R} s o =
    let (u, e, same, o') = notify-open s o in
    let read_of : Option (Store R) → Option (Option R × Store R) = λ o'. elim o' [
      | none ↦ none
      | some s' ↦ some (s'.resolver, record s' { reads = s'.reads + 1 })
    ] in
    (
      record u { reads = u.reads + 1 },
      ap read_of e ∙ ap (λ v. some (v, record u { reads = u.reads + 1 })) same,
      same,
      o',
    )

get_resolver-closed : {R : Type 0} (s : Store R) → s.open_access ≡ false → get_resolver s ≡ none
unfolding get_resolver notify
get_resolver-closed s e = ground arith

-- In every state that a store reaches after it was made, with any readers, refreshes and closing,
-- there is a value, and the goroutine has started no more refreshes than there were reads; and
-- getResolver returns that value, unless `access` is closed, when it panics.
pub store_serves :
    {R E : Type 0} (val : R) (auto_refresh : Bool) (s t : Store R)
    → new_store {E = E} (ok val) auto_refresh ≡ ok s
    → Steps s t
    → IsServing t
      × (((t.open_access ≡ true)
            × ((u : Store R) × (get_resolver t ≡ some (t.resolver, u))
                × (u.resolver ≡ t.resolver)
                × (u.open_access ≡ true)))
          ⊎ ((t.open_access ≡ false) × (get_resolver t ≡ none)))
store_serves val auto_refresh s t e r = (
  Steps-IsServing (new_store-IsServing val auto_refresh s e) r,
  elim (Bool-cases t.open_access) [
    | inl o ↦ inl (o, get_resolver-open t o)
    | inr c ↦ inr (c, get_resolver-closed t c)
  ],
)

-- Once `access` is closed it stays closed, and no step starts a refresh of the goroutine.
pub closed_stays :
    {R : Type 0} {s t : Store R}
    → s.open_access ≡ false
    → Steps s t
    → (t.open_access ≡ false) × (t.started ≡ s.started)
closed_stays c here = (c, refl)
closed_stays c (next r st) =
    let (c', e) = closed_stays c r in let (c'', e') = closed-Step c' st in (c'', e' ∙ e)

-- From every state of a closed store there are steps that end the goroutine: the store's own steps
-- if the goroutine waits in `select` or for a reader, and the end of the refresh if one runs.
pub close_ends :
    {R : Type 0} (s : Store R)
    → s.open_access ≡ false
    → (t : Store R) × Steps s t × (t.refresher ≡ stopped)
unfolding refresh
close_ends s c = elim (Refresher-cases s.refresher) [
  | inl e ↦ (_, next here (stop c e), refl)
  | inr (inl e) ↦ (_, next (next here (receive_closed c e)) (stop c refl), refl)
  | inr (inr (inl e)) ↦ (_, next (next here (refreshed none e)) (stop c refl), refl)
  | inr (inr (inr e)) ↦ (s, here, e)
]
