-- ===== src/Database.antt =====
-- The database and the session of a request (database/session.py). A session has the tables as its
-- transaction sees them and as they were last committed; an operation that raises keeps what it
-- wrote until a savepoint, or the end of the request, rolls that back. The primary keys are the
-- arguments of the table functions. Random reference codes come from a stream.
pub mod Keeps
pub mod Runs
pub mod Ends
use Prim.Native.String.{String}
use pikol_backend.Common.{
  ℕ, suc, ◌+◌, Bool, true, false, Option, none, some, List, [], ◌∷◌, ◌++◌, ◌==◌, nat_eq,
  if◌then◌else◌,
}
use pikol_backend.Errors.{Error, Result, ok, err}
use pikol_backend.Catalog.{Court, Venue, PriceRuleRow, Parameters}
use pikol_backend.Bookings.Models.{BookingGroup, BookingSlot}
use pikol_backend.Checkouts.Models.{Checkout, Refund}
use pikol_backend.Payments.Models.{Payment, WebhookEvent}
use pikol_backend.Events.Models.{ActionEvent}
use pikol_backend.Users.Models.{UserRow, UserGroup, GroupMember, GroupCode}
use pikol_backend.Auth.Models.{RefreshToken, UserToken}

-- The tables of identity; `permissions` has the codes of its rows.
pub record Accounts : Type 0 where
  pub users : List UserRow
  pub next_user_id : ℕ
  pub user_groups : List UserGroup
  pub next_user_group_id : ℕ
  pub members : List GroupMember
  pub group_codes : List GroupCode
  pub permissions : List String
  pub refresh_tokens : List RefreshToken
  pub user_tokens : List UserToken

pub record Tables : Type 0 where
  pub courts : List Court
  pub venues : List Venue
  pub price_rules : List PriceRuleRow
  pub parameters : Parameters
  pub booking_groups : ℕ → Option BookingGroup
  pub next_group_id : ℕ
  pub booking_slots : List BookingSlot
  pub checkouts : ℕ → Option Checkout
  pub next_checkout_id : ℕ
  pub payments : ℕ → Option Payment
  pub next_payment_id : ℕ
  pub refunds : List Refund
  pub webhook_events : List WebhookEvent
  pub action_events : List ActionEvent
  pub accounts : Accounts

pub record Session : Type 0 where
  pub tables : Tables
  pub committed : Tables
  pub reference_codes : ℕ → String
  pub drawn : ℕ

abbrev pub Action : Type 0 → Type 0
Action A = Session → Result A × Session

module _ {A : Type 0} where
  pub pure : A → Action A
  pure a s = (ok a, s)

  pub raise : Error → Action A
  raise e s = (err e, s)

  unfoldable pub lift : Result A → Action A
  lift r s = (r, s)

  -- A query.
  unfoldable pub gets : (Tables → A) → Action A
  gets f s = (ok (f s.tables), s)

  abbrev pub roll_back : Tables → Result A → Action A
  roll_back before (ok a) s = (ok a, s)
  roll_back before (err e) s = (err e, record s { tables = before })

  -- `async with session.begin_nested()`: a raise undoes what the block wrote.
  unfoldable pub savepoint : Action A → Action A
  savepoint m s = let (r, s') = m s in roll_back s.tables r s'

  -- The result of a block as a value, for `except`.
  unfoldable pub attempt : Action A → Action (Result A)
  attempt m s = let (r, s') = m s in (ok r, s')

  -- The end of a request: what is not committed is rolled back.
  abbrev pub request : Action A → Session → Result A × Tables
  request m s = let (r, s') = m s in (r, s'.committed)

unfoldable pub raise_if : Bool → Error → Action (Unit {0})
raise_if b e s = (if b then err e else ok tt, s)

-- A statement that writes.
pub modify : (Tables → Tables) → Action (Unit {0})
modify f s = (ok tt, record s { tables = f s.tables })

pub commit : Action (Unit {0})
commit s = (ok tt, record s { committed = s.tables })

-- `new_reference_code()`
pub draw : Action String
draw s = (ok (s.reference_codes s.drawn), record s { drawn = suc s.drawn })

abbrev pub resume : {A B : Type 0} → Result A → (A → Action B) → Action B
resume (ok a) f s = f a s
resume (err e) f s = (err e, s)

infixl 5 ◌>>=◌ ◌>>◌
-- Opening this opens the other actions too.
unfoldable pub ◌>>=◌ : {A B : Type 0} → Action A → (A → Action B) → Action B
unfolding pure raise lift gets raise_if modify commit draw
◌>>=◌ m f s = let (r, s') = m s in resume r f s'

abbrev pub ◌>>◌ : {B : Type 0} → Action (Unit {0}) → Action B → Action B
m >> k = m >>= λ _. k

-- `if b: m`
abbrev pub when : Bool → Action (Unit {0}) → Action (Unit {0})
when b m = if b then m else pure tt

-- `if row is None: raise e`
abbrev pub or_raise : {A : Type 0} → Option A → Error → Action A
or_raise none e = raise e
or_raise (some a) e = pure a

-- `for x in l: f(x)`
unfoldable pub for_each : {A : Type 0} → List A → (A → Action (Unit {0})) → Action (Unit {0})
for_each [] f = pure tt
for_each (x ∷ l) f = f x >> for_each l f

-- `[f(x) for x in l]`
unfoldable pub map_action : {A B : Type 0} → (A → Action B) → List A → Action (List B)
map_action f [] = pure []
map_action f (x ∷ l) = do y ← f x; ys ← map_action f l; pure (y ∷ ys)

-- A row of a table keyed by its primary key, written anew.
abbrev pub put_row : {A : Type 0} → ℕ → A → (ℕ → Option A) → ℕ → Option A
put_row i a table j = if i == j then some a else table j

abbrev pub alter : {A : Type 0} → (A → A) → Option A → Option A
alter f none = none
alter f (some a) = some (f a)

-- `UPDATE … WHERE id = i`
abbrev pub update_row : {A : Type 0} → ℕ → (A → A) → (ℕ → Option A) → ℕ → Option A
update_row i f table j = if i == j then alter f (table j) else table j
