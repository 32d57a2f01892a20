-- ===== src/Checkouts/Rules.antt =====
-- checkouts/domain/rules.py: the rules of one "Pay now".
pub mod Items
pub mod Allocation
use pikol_backend.Common.{
  ℕ, ◌+◌, ◌-◌, ◌*◌, ◌/◌, Bool, true, false, not, ◌&&◌, ◌||◌, Option, none, some, List, [], ◌∷◌,
  ◌++◌, map, sum, ltb, ◌==◌, nat_eq, pair_eq, is_none, if◌then◌else◌,
}
use pikol_backend.Errors.{
  Result, ok, err, ◌>>=◌, ◌>>◌, raise_if, invalid_error, empty_checkout, too_many_hours,
  overlapping_items,
}
use pikol_backend.Time.{Instant, DateTime, hour, manila_date}
use pikol_backend.Bookings.Rules.{check_on_the_hour, slot_starts}
use pikol_backend.Payments.Enums.{
  PaymentOutcome, RefundKind, pending, cancelled, void, refund, outcome_eq,
}

abbrev pub max_checkout_hours : ℕ
max_checkout_hours = 24

-- Maya's session lives an hour.
abbrev pub maya_session : ℕ
maya_session = hour

pub record CheckoutItem : Type 0 where
  pub court_id : ℕ
  pub starts_at : DateTime
  pub hours : ℕ

-- `x in l`
abbrev pub member : ℕ × Instant → List (ℕ × Instant) → Bool
member x [] = false
member x (y ∷ l) = y == x || member x l

-- The inner loop over the hours of one item, and the outer loop over the items.
add_hours : ℕ → List Instant → List (ℕ × Instant) → Result (List (ℕ × Instant))
add_hours court [] seen = ok seen
add_hours court (t ∷ starts) seen =
    if member (court, t) seen
    then err (invalid_error overlapping_items)
    else add_hours court starts ((court, t) ∷ seen)

add_items : List CheckoutItem → List (ℕ × Instant) → Result (List (ℕ × Instant))
unfolding add_hours
add_items [] seen = ok seen
add_items (i ∷ items) seen = do
  seen' ← add_hours i.court_id (slot_starts i.starts_at.instant i.hours) seen
  add_items items seen'

check_all_on_the_hour : List CheckoutItem → Result (Unit {0})
check_all_on_the_hour [] = ok tt
check_all_on_the_hour (i ∷ items) = do check_on_the_hour i.starts_at; check_all_on_the_hour items

abbrev pub is_empty {ℓ} : {A : Type ℓ} → List A → Bool
is_empty [] = true
is_empty (x ∷ l) = false

abbrev pub total_hours : List CheckoutItem → ℕ
total_hours items = sum (map (λ i. i.hours) items)

unfoldable pub check_items : List CheckoutItem → Result (Unit {0})
unfolding check_all_on_the_hour add_items
check_items items = do
  raise_if (is_empty items) (invalid_error empty_checkout)
  check_all_on_the_hour items
  raise_if (ltb max_checkout_hours (total_hours items)) (invalid_error too_many_hours)
  _ ← add_items items []
  ok tt

-- The floor shares of all prices but the last, `prices[:-1]`.
pub floor_shares : ℕ → ℕ → List ℕ → List ℕ
floor_shares fee total [] = []
floor_shares fee total (p ∷ []) = []
floor_shares fee total (p ∷ q ∷ prices) =
    (if total == 0 then 0 else fee * p / total) ∷ floor_shares fee total (q ∷ prices)

unfoldable pub allocate_fee : ℕ → List ℕ → List ℕ
unfolding floor_shares
allocate_fee fee prices =
    let shares = floor_shares fee (sum prices) prices in shares ++ (fee - sum shares) ∷ []

unfoldable pub is_live : PaymentOutcome → Instant → Instant → Bool
is_live status expires_at now = status == pending && ltb now expires_at

unfoldable pub checkout_display_status : PaymentOutcome → Instant → Instant → PaymentOutcome
unfolding is_live
checkout_display_status status expires_at now =
    if status == pending && not (is_live status expires_at now) then cancelled else status

-- `attempt_opened_at is not None and … and now < attempt_opened_at + MAYA_SESSION`
abbrev session_open : Option Instant → Instant → Bool
session_open none now = false
session_open (some opened) now = ltb now (opened + maya_session)

unfoldable pub awaiting_payment :
    {S : Type 0} → PaymentOutcome → Option S → Option Instant → Instant → Bool
awaiting_payment status provider_status attempt_opened_at now =
    (status == pending || status == cancelled)
    && is_none provider_status
    && session_open attempt_opened_at now

unfoldable pub undo_kind : Instant → Instant → RefundKind
undo_kind paid_at now = if manila_date paid_at == manila_date now then void else refund
