-- ===== src/Program/Reachable.antt =====
-- The tables that sequences of requests lead to.
use Prim.Native.String.{String}
use pikol_backend.Common.{ℕ, refl, arith, nat_eq}
use pikol_backend.Time.{Instant}
use pikol_backend.Bookings.Enums.{status_eq}
use pikol_backend.Bookings.Integrity.{IsConsistent}
use pikol_backend.Bookings.Service.Integrity.{
  create_walk_in-Keeps, cancel_by_staff-Keeps, mark_paid-Keeps, set_outcome-Keeps, resolve-Keeps,
  close_courts-Keeps, reopen-Keeps,
}
use pikol_backend.Checkouts.Service.Integrity.{create-Keeps, pay-Keeps, cancel-Keeps}
use pikol_backend.Payments.Port.{PaymentProvider}
use pikol_backend.Payments.Service.Integrity.{sync_payment-Keeps}
use pikol_backend.Database.{Tables, Action}
use pikol_backend.Database.Keeps.{Keeps, Keeps-bind, Keeps-pure, Keeps-request}
use pikol_backend.Program.{
  Request, hold, pay_hold, cancel_hold, sync, walk_in, cancel_booking, take_cash, record_outcome,
  resolve_flag, close, reopen_closure, answer, serve, open_session, after_request, Step, served,
  administered, Reach, initially, next,
}

answer-Keeps : {A : Type 0} (m : Action A) → Keeps IsConsistent m → Keeps IsConsistent (answer m)
answer-Keeps m k = Keeps-bind m _ k (λ _. Keeps-pure tt)

serve-Keeps :
    (provider : PaymentProvider) (now : Instant) (r : Request)
    → Keeps IsConsistent (serve provider now r)
serve-Keeps provider now (hold u items) = answer-Keeps _ (create-Keeps u items now)
serve-Keeps provider now (pay_hold u id) = answer-Keeps _ (pay-Keeps u id provider now)
serve-Keeps provider now (cancel_hold u id) = answer-Keeps _ (cancel-Keeps u id now)
serve-Keeps provider now (sync id) = sync_payment-Keeps provider id now
serve-Keeps provider now (walk_in u body scope) =
    answer-Keeps _ (create_walk_in-Keeps u body scope now)
serve-Keeps provider now (cancel_booking u id reason scope) =
    answer-Keeps _ (cancel_by_staff-Keeps u id reason scope now)
serve-Keeps provider now (take_cash u id method scope) =
    answer-Keeps _ (mark_paid-Keeps u id method scope now)
serve-Keeps provider now (record_outcome u id outcome scope) =
    answer-Keeps _ (set_outcome-Keeps u id outcome scope now)
serve-Keeps provider now (resolve_flag u id resolution scope) =
    answer-Keeps _ (resolve-Keeps u id resolution scope now)
serve-Keeps provider now (close u body scope) = answer-Keeps _ (close_courts-Keeps u body scope now)
serve-Keeps provider now (reopen_closure u id reason scope) =
    answer-Keeps _ (reopen-Keeps u id reason scope now)

-- Every request, whatever the provider answers, the clock shows and the reference codes are, leaves
-- consistent tables behind when it found consistent tables, also when it raises.
pub after_request-IsConsistent :
    (provider : PaymentProvider) (codes : ℕ → String) (now : Instant) (r : Request) (t : Tables)
    → IsConsistent t
    → IsConsistent (after_request provider codes now r t)
after_request-IsConsistent provider codes now r t c =
    Keeps-request (serve provider now r) (open_session codes t) (serve-Keeps provider now r) c c

Step-IsConsistent : {t t' : Tables} → Step t t' → IsConsistent t → IsConsistent t'
Step-IsConsistent (served provider codes now r) c =
    after_request-IsConsistent provider codes now r _ c
Step-IsConsistent (administered courts venues price_rules parameters accounts) c = c

-- After any sequence of requests and edits of the catalog, from tables without bookings on, the
-- tables are consistent: every slot has its group's status and court, no court and hour has two
-- active slots, exactly the pending groups have a deadline, groups stand under their own keys,
-- keys from the next one on are free, and slots start on whole hours.
pub Reach-IsConsistent : (t : Tables) → Reach t → IsConsistent t
Reach-IsConsistent _ (initially courts venues price_rules parameters accounts) = record {
  mirrored = tt;
  exclusive = λ court at. omega arith;
  deadlines = λ i. tt;
  keyed = λ i. tt;
  fresh = λ i h. refl;
  whole_hours = tt;
}
Reach-IsConsistent _ (next r step) = Step-IsConsistent step (Reach-IsConsistent _ r)
