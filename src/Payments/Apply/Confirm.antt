-- ===== src/Payments/Apply/Confirm.antt =====
-- The branch of `_paid` for a live hold (payments/service.py).
use mathlib.Core.Path.{subst}
use pikol_backend.Common.{
  ℕ, ◌≡◌, inl, inr, refl, sym, ap, ◌∙◌, false, Option, some, List, arith, All, ◌==◌, nat_eq,
  eqb_iff, Bool-cases,
}
use pikol_backend.Time.{Instant}
use pikol_backend.Errors.{ok}
use pikol_backend.Events.Service.{record_group, insert_event}
use pikol_backend.Bookings.Enums as BookingEnums
use pikol_backend.Bookings.Enums.{is_releasing}
use pikol_backend.Bookings.Models.{BookingGroup, GroupUpdate, paid_fields}
use pikol_backend.Bookings.Repository.{set_status, group_by_id, with_status}
use pikol_backend.Bookings.Integrity.{IsConsistent}
use pikol_backend.Bookings.Integrity.Status.{set_status_accepted}
use pikol_backend.Checkouts.Models.{Checkout}
use pikol_backend.Checkouts.Repository.{set_checkout_status}
use pikol_backend.Payments.Enums.{successful}
use pikol_backend.Payments.Apply.{confirm_group, paid_live, receipt}
use pikol_backend.Payments.Apply.Integrity.{confirm_group-Keeps}
use pikol_backend.Payments.Stable.{consistent_stable}
use pikol_backend.Database.{Session, for_each, update_row, ◌>>=◌}
use pikol_backend.Database.Keeps.{After-ok}
use pikol_backend.Database.Runs.{for_each_returns, Pass}

abbrev Groups : Type 0
Groups = ℕ → Option BookingGroup

-- The booking is there and takes its hours.
abbrev pub Holds : Groups → ℕ → Type 0
Holds groups id =
    (g : BookingGroup) × (groups id ≡ some g) × (is_releasing g.booking_status ≡ false)

-- The booking is there, confirmed and paid.
abbrev pub IsPaidFor : Groups → ℕ → Type 0
IsPaidFor groups id =
    (g : BookingGroup) × (groups id ≡ some g)
    × (g.booking_status ≡ BookingEnums.confirmed)
    × (g.payment_status ≡ BookingEnums.paid)

abbrev confirm_row : ℕ → Groups → Groups
confirm_row id groups = update_row id (with_status BookingEnums.confirmed paid_fields) groups

confirm_row-IsPaidFor :
    (id : ℕ) (groups : Groups) → Holds groups id → IsPaidFor (confirm_row id groups) id
confirm_row-IsPaidFor id groups (g, e, h) = (
  with_status BookingEnums.confirmed paid_fields g,
  ground (arith, (eqb_iff id id).1 refl),
  refl,
  refl,
)

paid_kept : (id b : ℕ) (groups : Groups) → IsPaidFor groups b → IsPaidFor (confirm_row id groups) b
paid_kept id b groups (g, e, c, p) = elim (Bool-cases (id == b)) [
  | inl same ↦ (with_status BookingEnums.confirmed paid_fields g, rw (same, e) refl, refl, refl)
  | inr other ↦ (g, rw other e, c, p)
]

held_kept : (id b : ℕ) (groups : Groups) → Holds groups b → Holds (confirm_row id groups) b
held_kept id b groups (g, e, h) = elim (Bool-cases (id == b)) [
  | inl same ↦ (with_status BookingEnums.confirmed paid_fields g, rw (same, e) refl, refl)
  | inr other ↦ (g, rw other e, h)
]

pub set_status_groups :
    (id : ℕ) (status : BookingEnums.BookingStatus) (fields : GroupUpdate) (s : Session)
    → (set_status id status fields s).1.tables.booking_groups
      ≡ update_row id (with_status status fields) s.tables.booking_groups
unfolding set_status ◌>>=◌
set_status_groups id status values s = refl

set_status_checkouts :
    (id : ℕ) (status : BookingEnums.BookingStatus) (fields : GroupUpdate) (s : Session)
    → (set_status id status fields s).1.tables.checkouts ≡ s.tables.checkouts
unfolding set_status ◌>>=◌
set_status_checkouts id status values s = refl

-- What a pass does to the table of groups, and that it returns.
confirm_group_run :
    (now : Instant) (id : ℕ) (s : Session)
    → IsConsistent s.tables
    → Holds s.tables.booking_groups id
    → ((confirm_group now id s).0 ≡ ok tt)
      × ((confirm_group now id s).1.tables.booking_groups ≡ confirm_row id s.tables.booking_groups)
      × ((confirm_group now id s).1.tables.checkouts ≡ s.tables.checkouts)
unfolding confirm_group group_by_id record_group insert_event ◌>>=◌
confirm_group_run now id s c (g, e, holds) =
    let groups = set_status_groups id BookingEnums.confirmed paid_fields s in
    let found : (set_status id BookingEnums.confirmed paid_fields s).1.tables.booking_groups id
        ≡ some (with_status BookingEnums.confirmed paid_fields g) =
      ap (λ h. h id) groups ∙ ground (arith, (eqb_iff id id).1 refl) in
    rw (set_status_accepted id BookingEnums.confirmed paid_fields s c (inr (g, e, holds)), found)
      (refl, groups, set_status_checkouts id BookingEnums.confirmed paid_fields s)

-- The session is consistent, what held its hours at first still does, and no checkout has changed.
abbrev Held : Session → Session → Type 0
Held first s =
    IsConsistent s.tables
    × IsConsistent s.committed
    × ((i : ℕ) → Holds first.tables.booking_groups i → Holds s.tables.booking_groups i)
    × (s.tables.checkouts ≡ first.tables.checkouts)

confirm_group-Pass :
    (now : Instant) (first : Session) (id : ℕ) (s : Session)
    → Holds first.tables.booking_groups id
    → Held first s
    → ((confirm_group now id s).0 ≡ ok tt)
      × IsPaidFor (confirm_group now id s).1.tables.booking_groups id
      × Pass
          (confirm_group now)
          (λ i. Holds first.tables.booking_groups i)
          (Held first)
          (λ i x. IsPaidFor x.tables.booking_groups i)
          s
          (confirm_group now id s).1
confirm_group-Pass now first id s q (c, c', held, same) =
    let (e, rows, checkouts) = confirm_group_run now id s c (held id q) in
    let (d, d') =
      After-ok IsConsistent IsConsistent (confirm_group now id s).0 (confirm_group now id s).1 e
        ((confirm_group-Keeps now id).at s c c') in
    let back = λ (G : Groups → Type 0) (h : G (confirm_row id s.tables.booking_groups)).
      subst G (sym rows) h in
    (
      e,
      back (λ x. IsPaidFor x id) (confirm_row-IsPaidFor id s.tables.booking_groups (held id q)),
      (
        (
          d,
          d',
          λ i h. back (λ x. Holds x i) (held_kept id i s.tables.booking_groups (held i h)),
          checkouts ∙ same,
        ),
        λ b h. back (λ x. IsPaidFor x b) (paid_kept id b s.tables.booking_groups h),
      ),
    )

abbrev set_successful : ℕ → (ℕ → Option Checkout) → ℕ → Option Checkout
set_successful id checkouts = update_row id (λ c. record c { status = successful }) checkouts

paid_live_run :
    (checkout : Checkout) (groups : List ℕ) (now : Instant) (s : Session)
    → let (r, s') = for_each groups (confirm_group now) s in
      r ≡ ok tt
      → (
        ok (receipt checkout.id),
        record s' {
          tables = record s'.tables { checkouts = set_successful checkout.id s'.tables.checkouts };
        },
      )
        ≡ paid_live checkout groups now s
unfolding paid_live set_checkout_status ◌>>=◌
paid_live_run checkout groups now s e = rw e refl

set_successful_at :
    (id : ℕ) (checkouts : ℕ → Option Checkout) (c : Checkout)
    → checkouts id ≡ some c
    → set_successful id checkouts id ≡ some (record c { status = successful })
set_successful_at id checkouts c e = ground (arith, (eqb_iff id id).1 refl)

-- In consistent tables where every booking of the checkout still takes its hours, a payment for a
-- live hold cannot fail: it returns a receipt, every booking is confirmed and paid, and the checkout
-- is SUCCESSFUL.
pub paid_live_confirms :
    (checkout : Checkout) (groups : List ℕ) (now : Instant) (s : Session)
    → IsConsistent s.tables
    → IsConsistent s.committed
    → All (λ i. Holds s.tables.booking_groups i) groups
    → let (r, s') = paid_live checkout groups now s in
      (r ≡ ok (receipt checkout.id))
      × All (λ i. IsPaidFor s'.tables.booking_groups i) groups
      × ((c : Checkout)
          → s.tables.checkouts checkout.id ≡ some c
          → s'.tables.checkouts checkout.id ≡ some (record c { status = successful }))
paid_live_confirms checkout groups now s c c' holds =
    let (e, all_paid, ((_, _, _, same), _)) =
      for_each_returns (confirm_group now) (λ i. Holds s.tables.booking_groups i) (Held s)
        (λ i x. IsPaidFor x.tables.booking_groups i) (confirm_group-Pass now s) groups s holds
        (c, c', (λ i h. h), refl) in
    subst
      (λ run.
        (run.0 ≡ ok (receipt checkout.id))
        × All (λ i. IsPaidFor run.1.tables.booking_groups i) groups
        × ((x : Checkout)
            → s.tables.checkouts checkout.id ≡ some x
            → run.1.tables.checkouts checkout.id ≡ some (record x { status = successful })))
      (paid_live_run checkout groups now s e)
      (
        refl,
        all_paid,
        λ x at.
            set_successful_at checkout.id (for_each groups (confirm_group now) s).1.tables.checkouts
              x (ap (λ f. f checkout.id) same ∙ at),
      )
