-- ===== src/Pricing/Service/Agreement.antt =====
-- The price that a booking is charged (`resolvers_for` in pricing/service.py, whose query has no
-- order) and the price that `day_prices` lists (`resolver_for`, whose query has one).
use mathlib.Core.List.{Perm, Permᴰ}
use mathlib.Core.List.Permᴰ
use mathlib.Core.Logic.{∥∥₁_elim}
use mathlib.Core.Path.{subst}
use pikol_backend.Common.{
  ℕ, ◌≤◌, ◌≡◌, refl, sym, Bool, true, ◌&&◌, List, [], ◌∷◌, map, any, select, count, arith, inl, inr,
  Any, Any-mono, Any-map, Any-of_map, Any-select, Any-of_select, Any-sort_by, Any-of_sort_by,
  Any-rearranged, ◌==◌, nat_eq, option_eq, pair_eq, pair_beq_iff, eqb_iff, and-true_split,
}
use pikol_backend.Time.{Instant}
use pikol_backend.Catalog.{PriceRuleRow, VenueScope, in_scope}
use pikol_backend.Pricing.Domain.{PriceKey, price_at_instant}
use pikol_backend.Pricing.Domain.Resolution.{HasPrice}
use pikol_backend.Pricing.Domain.Resolution.Order.{price_agrees}
use pikol_backend.Pricing.Repository.{rule_of, has_place, list_for_court, rule_in_scope, with_rules}
use pikol_backend.Pricing.Service.{resolver_for}
use pikol_backend.Pricing.Service.Places.{IsSpecific}
use pikol_backend.Bookings.Service.{resolver_of}
use pikol_backend.Database.{Tables}

-- The row is a rule of the court with this key and price.
abbrev HasRow : ℕ → PriceKey → ℕ → PriceRuleRow → Type 0
HasRow court k p r = (r.court_id ≡ court) × HasPrice k p (rule_of r)

uncounted :
    (q : PriceRuleRow → Bool) (P : PriceRuleRow → Type 0)
    → ((r : PriceRuleRow) → P r → q r ≡ true)
    → (rows : List PriceRuleRow) → Any P rows
    → 1 ≤ count q rows
uncounted q P sub [] a = elim a [ ]
uncounted q P sub (r ∷ rows) (inl p) = ground (arith, sub r p)
uncounted q P sub (r ∷ rows) (inr a) = omega (arith, uncounted q P sub rows a)

has_here :
    (court : ℕ) (k : PriceKey) (p : ℕ) (r : PriceRuleRow)
    → HasRow court k p r
    → has_place court k r ≡ true
has_here court k p r (at_court, (at_key, _)) =
    rw
      (
        (eqb_iff r.court_id court).1 at_court,
        (pair_beq_iff (r.day_of_week, r.hour_of_day) k).1 at_key,
      )
      refl

one_row :
    (court : ℕ) (k : PriceKey) (p q : ℕ) (rows : List PriceRuleRow)
    → count (has_place court k) rows ≤ 1
    → Any (HasRow court k p) rows
    → Any (HasRow court k q) rows
    → p ≡ q
one_row court k p q [] u a b = elim a [ ]
one_row court k p q (r ∷ rows) u (inl a) (inl b) = cc
one_row court k p q (r ∷ rows) u (inl a) (inr b) =
    let here = has_here court k p r a in
    let twice = uncounted (has_place court k) _ (has_here court k q) rows b in
    ground (arith, here, twice, u)
one_row court k p q (r ∷ rows) u (inr a) (inl b) =
    let here = has_here court k q r b in
    let twice = uncounted (has_place court k) _ (has_here court k p) rows a in
    ground (arith, here, twice, u)
one_row court k p q (r ∷ rows) u (inr a) (inr b) = one_row court k p q rows (omega (arith, u)) a b

-- The rules of the court that a query selects, as the resolver takes them.
module _ (court : ℕ) (k : PriceKey) (p : ℕ) (q : PriceRuleRow → Bool) where
  selected :
      (rows : List PriceRuleRow)
      → ((r : PriceRuleRow) → r.court_id ≡ court → q r ≡ true)
      → Any (HasRow court k p) rows
      → Any (HasRow court k p) (select q rows)
  selected rows all a = Any-select (HasRow court k p) q (λ r has. all r has.0) rows a

  of_selected :
      (rows : List PriceRuleRow)
      → ((r : PriceRuleRow) → q r ≡ true → r.court_id ≡ court)
      → Any (λ r. HasPrice k p (rule_of r)) (select q rows)
      → Any (HasRow court k p) rows
  of_selected rows only a =
      Any-mono (λ r (has, kept). (only r kept, has)) rows
        (Any-of_select (λ r. HasPrice k p (rule_of r)) q rows a)

priced :
    (court : ℕ) (k : PriceKey) (p : ℕ) (rows : List PriceRuleRow)
    → Any (HasRow court k p) rows
    → Any (HasPrice k p) (map rule_of rows)
priced court k p rows a = Any-map (HasPrice k p) rule_of rows (Any-mono (λ r has. has.1) rows a)

module _ (court : ℕ) (scope : VenueScope) (t : Tables) where
  abbrev is_shown : PriceRuleRow → Bool
  is_shown r = r.court_id == court && rule_in_scope scope t r

  shown_there :
      any (λ c. c.id == court && in_scope scope c.venue_id) t.courts ≡ true
      → (r : PriceRuleRow) → r.court_id ≡ court
      → is_shown r ≡ true
  shown_there there r e =
      let seen =
        subst (λ i. any (λ c. c.id == i && in_scope scope c.venue_id) t.courts ≡ true) (sym e)
          there in
      rw ((eqb_iff r.court_id court).1 e, seen) refl

  listed :
      (k : PriceKey) (p : ℕ)
      → Any (HasPrice k p) (map rule_of (list_for_court court scope t))
      → Any (HasRow court k p) t.price_rules
  listed k p a =
      of_selected court k p is_shown t.price_rules
        (λ r e. (eqb_iff r.court_id court).0 (and-true_split (r.court_id == court) _ e).0)
        (Any-of_sort_by (λ r. HasPrice k p (rule_of r)) _ _ (Any-of_map (HasPrice k p) rule_of _ a))

prices_rearranged :
    (court : ℕ) (scope : VenueScope) (t : Tables) (rules : List PriceRuleRow) (at : Instant)
    → IsSpecific t
    → any (λ c. c.id == court && in_scope scope c.venue_id) t.courts ≡ true
    → Permᴰ t.price_rules rules
    → price_at_instant (resolver_for court scope t) at
      ≡ price_at_instant (resolver_of court (with_rules rules t)) at
prices_rearranged court scope t rules at u shown order =
    price_agrees (map rule_of (list_for_court court scope t))
      (map rule_of (select (λ r. r.court_id == court) rules))
      t.parameters.default_slot_price_centavos at
      (λ k p a. priced court k p _ (
        selected court k p (λ r. r.court_id == court) rules (λ r e. (eqb_iff r.court_id court).1 e)
          (Any-rearranged (HasRow court k p) order (listed court scope t k p a))))
      (λ k p a. priced court k p _ (
        Any-sort_by (HasRow court k p) _ _ (
          selected court k p (is_shown court scope t) t.price_rules
            (shown_there court scope t shown)
            (Any-rearranged (HasRow court k p) (Permᴰ.symm order) (
              of_selected court k p (λ r. r.court_id == court) rules
                (λ r e. (eqb_iff r.court_id court).0 e) (Any-of_map (HasPrice k p) rule_of _ a))))))
      (λ k p q a b.
        one_row court k p q t.price_rules (u court k) (listed court scope t k p a)
          (listed court scope t k q b))

-- Where no court has two rules for one weekday and hour, an instant at a court in scope has one
-- price: the one that day_prices resolves, over rules in the order of `list_for_court`, is the one
-- that a booking is charged and the grid shows, in whatever order the database returns the rules.
pub prices_agree :
    (court : ℕ) (scope : VenueScope) (t : Tables) (rules : List PriceRuleRow) (at : Instant)
    → IsSpecific t
    → any (λ c. c.id == court && in_scope scope c.venue_id) t.courts ≡ true
    → Perm t.price_rules rules
    → price_at_instant (resolver_for court scope t) at
      ≡ price_at_instant (resolver_of court (with_rules rules t)) at
prices_agree court scope t rules at u shown order =
    ∥∥₁_elim order (hlevel) (prices_rearranged court scope t rules at u shown)
