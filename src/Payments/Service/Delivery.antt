-- ===== src/Payments/Service/Delivery.antt =====
-- Repeated deliveries of a provider event: `sync_payment` with `record_event` (payments/service.py,
-- payments/persistence/repository.py).
use Prim.Native.String.{String}
use text.Mathlib.Text.{◌==◌ as str_eq}
use text.Mathlib.TextEquality.{eq_iff}
use mathlib.Core.Path.{subst}
use pikol_backend.Common.{
  ℕ, ◌≡◌, refl, sym, ap, ◌∙◌, true, false, none, List, [], ◌∷◌, ◌++◌, map, any, arith, Bool-cases,
  inl, inr, ◌==◌,
}
use pikol_backend.Time.{Instant}
use pikol_backend.Errors.{Result, ok, err, payment_not_found}
use pikol_backend.Events.Service.{insert_event}
use pikol_backend.Bookings.Repository.{set_status, expire_lapsed}
use pikol_backend.Checkouts.Repository.{set_checkout_status}
use pikol_backend.Payments.Enums.{pending, outcome_eq}
use pikol_backend.Payments.Models.{WebhookEvent}
use pikol_backend.Payments.Port.{ProviderPayment, PaymentProvider}
use pikol_backend.Payments.Repository.{has_event, flush_event, after_event_flush, record_event}
use pikol_backend.Payments.Apply.{Effect, apply}
use pikol_backend.Payments.Apply.Integrity.{apply-Keeps}
use pikol_backend.Payments.Service.{
  event_id, mark_processed, run_effect, process_event, sync_fetched, after_fetch, sync_payment,
}
use pikol_backend.Payments.Service.Integrity.{run_effect-Keeps}
use pikol_backend.Payments.Stable.{IsStable}
use pikol_backend.Database.{Tables, Session, Action, attempt, savepoint, request, resume, ◌>>=◌}
use pikol_backend.Database.Keeps.{
  Maintains, Keeps-modify, Keeps-bind, Keeps-gets, Keeps-raise_if, Keeps-for_each, After,
}

abbrev Anything : Tables → Type 0
Anything t = Unit

module _ (id : String) where
  -- The event is recorded.
  abbrev pub IsDelivered : Tables → Type 0
  IsDelivered t = has_event id t ≡ true

  module _ (Q : Tables → Type 0) where
    insert_event-IsDelivered : (e : _) → Maintains IsDelivered Q (insert_event e)
    unfolding insert_event
    insert_event-IsDelivered e = Keeps-modify _ (λ t p. p)

    IsDelivered-stable : ((t : Tables) → IsDelivered t → Q t) → IsStable IsDelivered Q
    unfolding set_status expire_lapsed set_checkout_status
    IsDelivered-stable c = record {
      set_status = λ i status values ne. Keeps-bind _ _ (Keeps-modify _ (λ t p. p)) (λ _.
          Keeps-bind _ _ (Keeps-modify _ (λ t p. p))
            (λ _. Keeps-bind _ _ (Keeps-gets _) (λ b. Keeps-raise_if b _)));
      expire_lapsed = λ court starts now. Keeps-bind _ _ (Keeps-gets _) (λ events.
          Keeps-bind _ _ (Keeps-modify _ (λ t p. p))
            (λ _. Keeps-for_each events _ insert_event-IsDelivered));
      insert_event = insert_event-IsDelivered;
      assign = λ i f l. Keeps-modify _ (λ t p. p);
      assign_payment = λ i f. Keeps-modify _ (λ t p. p);
      set_checkout_status = λ i status. Keeps-modify _ (λ t p. p);
      set_refunds = λ t refunds p. p;
      commits = c;
    }

marked_kept :
    (id marked : String) (now : Instant) (events : List WebhookEvent)
    → any (λ e. str_eq e.provider_event_id id) (map (mark_processed marked now) events)
      ≡ any (λ e. str_eq e.provider_event_id id) events
marked_kept id marked now [] = refl
marked_kept id marked now (e ∷ events) = elim (Bool-cases (str_eq e.provider_event_id marked)) [
  | inl same ↦ rw (same, marked_kept id marked now events) refl
  | inr other ↦ rw (other, marked_kept id marked now events) refl
]

appended_delivered :
    (id : String) (e : WebhookEvent) (events : List WebhookEvent)
    → e.provider_event_id ≡ id
    → any (λ x. str_eq x.provider_event_id id) (events ++ e ∷ []) ≡ true
appended_delivered id e [] same = ground (arith, (eq_iff e.provider_event_id id).1 same)
appended_delivered id e (x ∷ events) same = ground (arith, appended_delivered id e events same)

-- An event that is recorded already is left alone.
sync_fetched_again :
    (provider : PaymentProvider) (p : ProviderPayment) (now : Instant) (s : Session)
    → IsDelivered (event_id p) s.tables
    → sync_fetched provider p now s ≡ (ok tt, s)
unfolding sync_fetched record_event flush_event after_event_flush attempt savepoint ◌>>=◌
sync_fetched_again provider p now s seen = elim (Bool-cases (p.status == pending)) [
  | inl waiting ↦ rw waiting refl
  | inr reported ↦ rw (reported, seen) refl
]

-- Nothing has happened yet.
sync_fetched_waiting :
    (provider : PaymentProvider) (p : ProviderPayment) (now : Instant) (s : Session)
    → (p.status == pending) ≡ true
    → sync_fetched provider p now s ≡ (ok tt, s)
unfolding sync_fetched ◌>>=◌
sync_fetched_waiting provider p now s waiting = rw waiting refl

-- A new event is recorded, and then processed.
recorded : PaymentProvider → ProviderPayment → Session → Session
recorded provider p s = record s {
  tables = record s.tables {
    webhook_events =
        s.tables.webhook_events
        ++ record { provider = provider.name; provider_event_id = event_id p; processed_at = none }
          ∷ [];
  };
}

sync_fetched_new :
    (provider : PaymentProvider) (p : ProviderPayment) (now : Instant) (s : Session)
    → (p.status == pending) ≡ false
    → has_event (event_id p) s.tables ≡ false
    → sync_fetched provider p now s ≡ process_event provider p now (recorded provider p s)
unfolding sync_fetched record_event flush_event after_event_flush attempt savepoint recorded ◌>>=◌
sync_fetched_new provider p now s reported unseen = rw (reported, unseen) refl

abbrev marked : ProviderPayment → Instant → Tables → Tables
marked p now t = record t {
  webhook_events = map (mark_processed (event_id p) now) t.webhook_events;
}

abbrev after_apply : PaymentProvider → ProviderPayment → Instant → Effect → Action (Unit {0})
after_apply provider p now effect s =
    run_effect provider p now effect
      (record s { tables = marked p now s.tables; committed = marked p now s.tables })

processed :
    (provider : PaymentProvider) (p : ProviderPayment) (now : Instant) (r : Result Effect)
    (s s' : Session)
    → After (IsDelivered (event_id p)) Anything (r, s)
    → resume r (after_apply provider p now) s ≡ (ok tt, s')
    → IsDelivered (event_id p) s'.committed
processed provider p now (err e) s s' d h = cc
processed provider p now (ok effect) s s' d h =
    let id = event_id p in
    let there : IsDelivered id (marked p now s.tables) =
      marked_kept id id now s.tables.webhook_events ∙ d.0 in
    let kept =
      (run_effect-Keeps ⦃st = IsDelivered-stable id (IsDelivered id) (λ t x. x)⦄ provider p now
          effect).at
        (record s { tables = marked p now s.tables; committed = marked p now s.tables }) there
        there in
    (subst (After (IsDelivered id) (IsDelivered id)) h kept).1

recorded-IsDelivered :
    (provider : PaymentProvider) (p : ProviderPayment) (s : Session)
    → IsDelivered (event_id p) (recorded provider p s).tables
unfolding recorded
recorded-IsDelivered provider p s =
    appended_delivered (event_id p)
      (record { provider = provider.name; provider_event_id = event_id p; processed_at = none })
      s.tables.webhook_events refl

-- What is processed to its end is committed with its record.
process_event_commits :
    (provider : PaymentProvider) (p : ProviderPayment) (now : Instant) (s s' : Session)
    → IsDelivered (event_id p) s.tables
    → process_event provider p now s ≡ (ok tt, s')
    → IsDelivered (event_id p) s'.committed
unfolding process_event ◌>>=◌
process_event_commits provider p now s s' seen h =
    processed provider p now (apply provider.name p now s).0 (apply provider.name p now s).1 s'
      ((apply-Keeps ⦃st = IsDelivered-stable (event_id p) Anything (λ t x. tt)⦄ provider.name p
          now).at
        s seen tt)
      h

abbrev pub new_session : (ℕ → String) → Tables → Session
new_session codes t = record { tables = t; committed = t; reference_codes = codes; drawn = 0 }

-- The request returned, and the same request on what it left behind changes nothing.
abbrev IsFinal : (Instant → Action (Unit {0})) → Instant → Instant → (ℕ → String) → Tables → Type 0
IsFinal m now later codes t =
    (m now (new_session codes t)).0 ≡ ok tt
    → let t' = (request (m now) (new_session codes t)).1 in
      (codes' : ℕ → String) → request (m later) (new_session codes' t') ≡ (ok tt, t')

seen_again :
    (provider : PaymentProvider) (p : ProviderPayment) (later : Instant) (t : Tables)
    → IsDelivered (event_id p) t
    → (codes : ℕ → String)
    → request (sync_fetched provider p later) (new_session codes t) ≡ (ok tt, t)
seen_again provider p later t seen codes =
    ap (λ run. (run.0, run.1.committed))
      (sync_fetched_again provider p later (new_session codes t) seen)

module _ (provider : PaymentProvider) (now later : Instant) (codes : ℕ → String) (t : Tables) where
  new_event-IsFinal :
      (p : ProviderPayment)
      → (p.status == pending) ≡ false
      → has_event (event_id p) t ≡ false
      → IsFinal (sync_fetched provider p) now later codes t
  new_event-IsFinal p reported unseen h codes' =
      let s = new_session codes t in
      let start = recorded provider p s in
      let e = sync_fetched_new provider p now s reported unseen in
      let s' = (process_event provider p now start).1 in
      let ran : process_event provider p now start ≡ (ok tt, s') =
        ap (λ r. (r, s')) (sym (ap (λ run. run.0) e) ∙ h) in
      let there : IsDelivered (event_id p) s'.committed =
        process_event_commits provider p now start s' (recorded-IsDelivered provider p s) ran in
      subst
        (λ run.
          request (sync_fetched provider p later) (new_session codes' run.1.committed)
          ≡ (ok tt, run.1.committed))
        (sym e) (seen_again provider p later s'.committed there codes')

  waiting-IsFinal :
      (p : ProviderPayment)
      → (p.status == pending) ≡ true
      → IsFinal (sync_fetched provider p) now later codes t
  waiting-IsFinal p waiting h codes' =
      subst
        (λ run.
          request (sync_fetched provider p later) (new_session codes' run.1.committed)
          ≡ (ok tt, run.1.committed))
        (sym (sync_fetched_waiting provider p now (new_session codes t) waiting))
        (ap (λ run. (run.0, run.1.committed))
          (sync_fetched_waiting provider p later (new_session codes' t) waiting))

  fetched-IsFinal : (p : ProviderPayment) → IsFinal (sync_fetched provider p) now later codes t
  fetched-IsFinal p h codes' = elim (Bool-cases (p.status == pending)) [
    | inl waiting ↦ waiting-IsFinal p waiting h codes'
    | inr reported ↦ elim (Bool-cases (has_event (event_id p) t)) [
      | inr unseen ↦ new_event-IsFinal p reported unseen h codes'
      | inl seen ↦
          subst
            (λ run.
              request (sync_fetched provider p later) (new_session codes' run.1.committed)
              ≡ (ok tt, run.1.committed))
            (sym (sync_fetched_again provider p now (new_session codes t) seen))
            (seen_again provider p later t seen codes')
    ]
  ]

  after_fetch-IsFinal :
      (r : Result ProviderPayment) → IsFinal (λ at. after_fetch provider at r) now later codes t
  unfolding after_fetch ◌>>=◌
  after_fetch-IsFinal (ok p) = fetched-IsFinal p
  after_fetch-IsFinal (err payment_not_found) = λ h codes'. refl
  after_fetch-IsFinal (err e) = λ h codes'. cc

-- A provider event is processed once: after a sync of a payment that returned, another sync that the
-- provider answers alike, at any later clock, returns and leaves the committed tables as they are.
pub sync_payment_once :
    (provider : PaymentProvider) (payment_id : String) (now later : Instant) (codes : ℕ → String)
    (t : Tables)
    → (sync_payment provider payment_id now (new_session codes t)).0 ≡ ok tt
    → let t' = (request (sync_payment provider payment_id now) (new_session codes t)).1 in
      (codes' : ℕ → String)
      → request (sync_payment provider payment_id later) (new_session codes' t') ≡ (ok tt, t')
unfolding sync_payment
sync_payment_once provider payment_id now later codes t =
    after_fetch-IsFinal provider now later codes t (provider.fetch_payment payment_id)
