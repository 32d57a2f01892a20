-- ===== src/Payments/Apply/Refusals.antt =====
-- The branches of `_paid` that flag a payment and stop (payments/service.py).
use mathlib.Core.Path.{subst}
use pikol_backend.Common.{
  ℕ, ◌≡◌, ◌⊎◌, inl, inr, refl, true, false, ◌||◌, Option, some, List, [], ◌∷◌, ◌++◌, arith, ◌==◌,
  nat_eq, ◌≢◌, is_some, All, Bool-cases, Option-cases, eqb_iff, sym, ◌∙◌,
}
use pikol_backend.Time.{Instant}
use pikol_backend.Errors.{Result, ok}
use pikol_backend.Events.Service.{record_group, insert_event}
use pikol_backend.Bookings.Enums.{BookingStatus}
use pikol_backend.Bookings.Models.{NoteLine, system_mismatch, system_final, BookingGroup}
use pikol_backend.Bookings.Repository.{group_by_id}
use pikol_backend.Checkouts.Models.{Checkout}
use pikol_backend.Payments.Enums.{pending, cancelled, outcome_eq}
use pikol_backend.Payments.Models.{Payment}
use pikol_backend.Payments.Port.{ProviderPayment}
use pikol_backend.Payments.Apply.{
  Effect, nothing, flag_group, flag, flag_and_stop, paid, matches_checkout,
}
use pikol_backend.Database.{Session, Tables, for_each, update_row, ◌>>=◌}
use pikol_backend.Database.Runs.{for_each_returns, Pass}

-- The row is there and has the status.
abbrev pub HasStatus : BookingStatus → Option BookingGroup → Type 0
HasStatus status found = (g : BookingGroup) × (found ≡ some g) × (g.booking_status ≡ status)

-- The hours, the checkouts and the payments are those of `before`, and so are
-- the bookings with their statuses.
pub record BooksNothing (before : Tables) (s : Session) : Type 0 where
  pub slots : s.tables.booking_slots ≡ before.booking_slots
  pub checkouts : s.tables.checkouts ≡ before.checkouts
  pub payments : s.tables.payments ≡ before.payments
  pub present :
      (i : ℕ)
      → is_some (before.booking_groups i) ≡ true
      → is_some (s.tables.booking_groups i) ≡ true
  pub statuses :
      (i : ℕ) (g : BookingGroup)
      → before.booking_groups i ≡ some g
      → HasStatus g.booking_status (s.tables.booking_groups i)

-- The booking waits for staff.
abbrev pub IsFlagged : ℕ → Session → Type 0
IsFlagged id s =
    (g : BookingGroup) × (s.tables.booking_groups id ≡ some g) × (g.needs_resolution ≡ true)

abbrev flag_row : NoteLine → ℕ → (ℕ → Option BookingGroup) → ℕ → Option BookingGroup
flag_row line id groups =
    update_row id (λ g. record g { notes = g.notes ++ line ∷ []; needs_resolution = true }) groups

flag_group_run :
    (line : NoteLine) (now : Instant) (id : ℕ) (s : Session)
    → is_some (s.tables.booking_groups id) ≡ true
    → let (r, s') = flag_group line now id s in
      (r ≡ ok tt)
      × (s'.tables.booking_groups ≡ flag_row line id s.tables.booking_groups)
      × (s'.tables.booking_slots ≡ s.tables.booking_slots)
      × (s'.tables.checkouts ≡ s.tables.checkouts)
      × (s'.tables.payments ≡ s.tables.payments)
unfolding flag_group group_by_id record_group insert_event ◌>>=◌
flag_group_run line now id s there = elim (Option-cases (s.tables.booking_groups id)) [
  | inl e ↦ ground arith
  | inr (g, e) ↦ rw ((eqb_iff id id).1 refl, e) (refl, refl, refl, refl, refl)
]

row_flagged :
    (line : NoteLine) (id : ℕ) (groups : ℕ → Option BookingGroup)
    → is_some (groups id) ≡ true
    → (g : BookingGroup) × (flag_row line id groups id ≡ some g) × (g.needs_resolution ≡ true)
row_flagged line id groups there = elim (Option-cases (groups id)) [
  | inl e ↦ ground arith
  | inr (g, e) ↦ (
    record g { notes = g.notes ++ line ∷ []; needs_resolution = true },
    rw ((eqb_iff id id).1 refl, e) refl,
    refl,
  )
]

flagged_kept :
    (line : NoteLine) (id i : ℕ) (groups : ℕ → Option BookingGroup)
    → (g : BookingGroup) × (groups i ≡ some g) × (g.needs_resolution ≡ true)
    → (g : BookingGroup) × (flag_row line id groups i ≡ some g) × (g.needs_resolution ≡ true)
flagged_kept line id i groups (g, e, f) = elim (Bool-cases (id == i)) [
  | inl same ↦
      (record g { notes = g.notes ++ line ∷ []; needs_resolution = true }, rw (same, e) refl, refl)
  | inr other ↦ (g, rw other e, f)
]

status_kept :
    (line : NoteLine) (id i : ℕ) (groups : ℕ → Option BookingGroup) (status : BookingStatus)
    → HasStatus status (groups i)
    → HasStatus status (flag_row line id groups i)
status_kept line id i groups status (g, e, h) = elim (Bool-cases (id == i)) [
  | inl same ↦
      (record g { notes = g.notes ++ line ∷ []; needs_resolution = true }, rw (same, e) refl, h)
  | inr other ↦ (g, rw other e, h)
]

present_kept :
    (line : NoteLine) (id i : ℕ) (groups : ℕ → Option BookingGroup)
    → is_some (groups i) ≡ true
    → is_some (flag_row line id groups i) ≡ true
present_kept line id i groups h = ground arith

pub flag_group-Pass :
    (line : NoteLine) (now : Instant) (before : Tables) (id : ℕ) (s : Session)
    → is_some (before.booking_groups id) ≡ true
    → BooksNothing before s
    → ((flag_group line now id s).0 ≡ ok tt)
      × IsFlagged id (flag_group line now id s).1
      × Pass
          (flag_group line now)
          (λ i. is_some (before.booking_groups i) ≡ true)
          (BooksNothing before)
          IsFlagged
          s
          (flag_group line now id s).1
flag_group-Pass line now before id s q b =
    let (e, rows, slots, checkouts, payments) = flag_group_run line now id s (b.present id q) in
    let back =
      λ (G : (ℕ → Option BookingGroup) → Type 0) (h : G (flag_row line id s.tables.booking_groups)).
        subst G (sym rows) h in
    (
      e,
      back (λ x. (g : BookingGroup) × (x id ≡ some g) × (g.needs_resolution ≡ true))
          (row_flagged line id s.tables.booking_groups (b.present id q)),
      (
        record {
          slots = slots ∙ b.slots;
          checkouts = checkouts ∙ b.checkouts;
          payments = payments ∙ b.payments;
          present = λ i h.
              back (λ x. is_some (x i) ≡ true)
                (present_kept line id i s.tables.booking_groups (b.present i h));
          statuses = λ i g h.
              back (λ x. HasStatus g.booking_status (x i))
                (status_kept line id i s.tables.booking_groups g.booking_status (b.statuses i g h));
        },
        λ i h.
            back (λ x. (g : BookingGroup) × (x i ≡ some g) × (g.needs_resolution ≡ true))
              (flagged_kept line id i s.tables.booking_groups h),
      ),
    )

-- All the bookings flagged, and nothing else.
abbrev pub OnlyFlags : List ℕ → Session → Result Effect × Session → Type 0
OnlyFlags groups s run =
    (run.0 ≡ ok nothing) × BooksNothing s.tables run.1 × All (λ i. IsFlagged i run.1) groups

flag_and_stop_run :
    (groups : List ℕ) (line : NoteLine) (now : Instant) (s : Session)
    → (for_each groups (flag_group line now) s).0 ≡ ok tt
    → (ok nothing, (for_each groups (flag_group line now) s).1) ≡ flag_and_stop groups line now s
unfolding flag_and_stop flag ◌>>=◌
flag_and_stop_run groups line now s e = rw e refl

flag_and_stop_only :
    (groups : List ℕ) (line : NoteLine) (now : Instant) (s : Session)
    → All (λ i. is_some (s.tables.booking_groups i) ≡ true) groups
    → OnlyFlags groups s (flag_and_stop groups line now s)
flag_and_stop_only groups line now s there =
    let (e, all_flagged, (kept, _)) =
      for_each_returns (flag_group line now) (λ i. is_some (s.tables.booking_groups i) ≡ true)
        (BooksNothing s.tables) IsFlagged (flag_group-Pass line now s.tables) groups s there
        (record {
          slots = refl;
          checkouts = refl;
          payments = refl;
          present = λ i h. h;
          statuses = λ i g h. (g, h, refl);
        }) in
    subst (OnlyFlags groups s) (flag_and_stop_run groups line now s e) (refl, kept, all_flagged)

-- A payment of another amount or for another reference, and a payment for a checkout that is neither
-- pending nor cancelled, books nothing: it returns without an effect to carry out, every booking of
-- the checkout is flagged for staff, and no hour, no checkout and no payment has changed.
pub paid_refused :
    (checkout : Checkout) (row : Payment) (groups : List ℕ) (p : ProviderPayment) (now : Instant)
    (s : Session)
    → (matches_checkout checkout p ≡ false)
      ⊎ ((checkout.status ≢ pending) × (checkout.status ≢ cancelled))
    → All (λ i. is_some (s.tables.booking_groups i) ≡ true) groups
    → OnlyFlags groups s (paid checkout row groups p now s)
unfolding paid
paid_refused checkout row groups p now s (inl wrong) there =
    rw wrong (flag_and_stop_only groups (system_mismatch p.payment_id) now s there)
paid_refused checkout row groups p now s (inr (a, b)) there =
    elim (Bool-cases (matches_checkout checkout p)) [
      | inr wrong ↦ rw wrong (flag_and_stop_only groups (system_mismatch p.payment_id) now s there)
      | inl right ↦
          let final : (checkout.status == pending || checkout.status == cancelled) ≡ false =
            ground arith in
          rw (right, final) (flag_and_stop_only groups (system_final p.payment_id) now s there)
    ]
