-- ===== src/Pricing/Service/Places.antt =====
-- `uq_price_rule_specificity` under the operations of pricing/service.py.
use pikol_backend.Common.{
  ℕ, ◌≤◌, ◌≡◌, refl, sym, Bool, false, not, ◌&&◌, List, [], ◌∷◌, ◌++◌, map, any, select, count,
  count-append, count-eq-zero, arith, Bool-cases, inl, inr, ◌==◌, nat_eq, option_eq, pair_eq,
  pair_beq_iff, eqb_iff, and-true_split, if◌then◌else◌,
}
use mathlib.Core.Path.{subst}
use pikol_backend.Errors.{
  Result, ok, err, Result-cases, integrity_error, specificity_constraint, rule_ranges,
}
use pikol_backend.Catalog.{PriceRuleRow, User, VenueScope}
use pikol_backend.Pricing.Domain.{PriceKey}
use pikol_backend.Pricing.Repository.{
  has_place, is_at_most, add_rule, flush_rule, repriced, reprice, without_rule,
}
use pikol_backend.Pricing.Service.{
  PriceRuleCreate, new_rule, after_rule_flush, create_rule, get_rule, update_rule, delete_rule,
}
use pikol_backend.Bookings.Service.Integrity.{get_court-Keeps, or_raise-Keeps}
use pikol_backend.Database.{Tables, Session, request, ◌>>=◌}
use pikol_backend.Database.Keeps.{
  Keeps, Keeps-pure, Keeps-raise, Keeps-bind, Keeps-modify, Keeps-attempt-savepoint, Keeps-request,
  keeps_rules,
}

-- No court has two rules for one weekday and hour, the wildcards included.
abbrev pub AreSpecific : List PriceRuleRow → Type 0
AreSpecific rules = (court : ℕ) (key : PriceKey) → count (has_place court key) rules ≤ 1

abbrev pub IsSpecific : Tables → Type 0
IsSpecific t = AreSpecific t.price_rules

count-changed :
    (p : PriceRuleRow → Bool) (f : PriceRuleRow → PriceRuleRow)
    → ((r : PriceRuleRow) → p (f r) ≡ p r)
    → (rules : List PriceRuleRow) → count p (map f rules) ≡ count p rules
count-changed p f e [] = refl
count-changed p f e (r ∷ rules) = ground (arith, e r, count-changed p f e rules)

count-kept :
    (p q : PriceRuleRow → Bool) (rules : List PriceRuleRow)
    → count p (select q rules) ≤ count p rules
count-kept p q [] = omega arith
count-kept p q (r ∷ rules) = ground (arith, count-kept p q rules)

new_place :
    (r : PriceRuleRow) (rules : List PriceRuleRow)
    → AreSpecific rules
    → any (has_place r.court_id (r.day_of_week, r.hour_of_day)) rules ≡ false
    → AreSpecific (rules ++ r ∷ [])
new_place r rules u free court key = elim (Bool-cases (has_place court key r)) [
  | inr other ↦
      rw (count-append (has_place court key) rules (r ∷ []), other) (omega (arith, u court key))
  | inl here ↦
      let at_court = (eqb_iff r.court_id court).0 (and-true_split (r.court_id == court) _ here).0 in
      let at_key =
        (pair_beq_iff (r.day_of_week, r.hour_of_day) key).0
          (and-true_split (r.court_id == court) _ here).1 in
      let none_there =
        count-eq-zero (has_place court key) (has_place court key) (λ x h. h) rules
          (subst (λ c. any (has_place c key) rules ≡ false) at_court
            (subst (λ k. any (has_place r.court_id k) rules ≡ false) at_key free)) in
      rw (count-append (has_place court key) rules (r ∷ []), here, none_there) (omega arith)
]

add_rule-AreSpecific :
    (r : PriceRuleRow) (rules rules' : List PriceRuleRow)
    → AreSpecific rules
    → add_rule r rules ≡ ok rules'
    → AreSpecific rules'
unfolding add_rule
add_rule-AreSpecific r rules rules' u h =
    elim (Bool-cases (is_at_most 6 r.day_of_week && is_at_most 23 r.hour_of_day)) [
      | inr e ↦
          let bad : ◌≡◌ {A = Result (List PriceRuleRow)} (err (integrity_error rule_ranges))
              (ok rules') =
            rw e at h in
          cc
      | inl e ↦
          elim (Bool-cases (any (has_place r.court_id (r.day_of_week, r.hour_of_day)) rules)) [
            | inl taken ↦
                let bad : ◌≡◌ {A = Result (List PriceRuleRow)}
                    (err (integrity_error specificity_constraint)) (ok rules') =
                  rw (e, taken) at h in
                cc
            | inr free ↦
                let done : ok (rules ++ r ∷ []) ≡ ok rules' = rw (e, free) at h in
                let same : (rules ++ r ∷ []) ≡ rules' = cc in
                subst AreSpecific same (new_place r rules u free)
          ]
    ]

flush_rule-Keeps : (r : PriceRuleRow) → Keeps IsSpecific (flush_rule r)
unfolding flush_rule ◌>>=◌
flush_rule-Keeps r = record {
  at = λ s p q. elim (Result-cases (add_rule r s.tables.price_rules)) [
    | inr (bad, e) ↦ rw e q
    | inl (rules, e) ↦ rw e (add_rule-AreSpecific r s.tables.price_rules rules p e, q)
  ];
}

after_rule_flush-Keeps : (r : Result (Unit {0})) → Keeps IsSpecific (after_rule_flush r)
unfolding after_rule_flush
after_rule_flush-Keeps (ok _) = Keeps-pure tt
after_rule_flush-Keeps (err (integrity_error specificity_constraint)) = Keeps-raise _
after_rule_flush-Keeps (err e) = search keeps_rules

reprice-IsSpecific :
    (caller : User) (price id : ℕ) (t : Tables)
    → IsSpecific t
    → IsSpecific (reprice caller price id t)
reprice-IsSpecific caller price id t u court key =
    subst (λ n. n ≤ 1)
      (sym (
        count-changed (has_place court key) (λ x. if x.id == id then repriced caller price x else x)
          (λ x. elim (Bool-cases (x.id == id)) [ inl e ↦ rw e refl | inr e ↦ rw e refl ])
          t.price_rules))
      (u court key)

without_rule-IsSpecific : (id : ℕ) (t : Tables) → IsSpecific t → IsSpecific (without_rule id t)
without_rule-IsSpecific id t u court key =
    omega
      (arith, count-kept (has_place court key) (λ x. not (x.id == id)) t.price_rules, u court key)

get_rule-Keeps : (id : ℕ) (scope : VenueScope) → Keeps IsSpecific (get_rule id scope)
unfolding get_rule
get_rule-Keeps id scope = Keeps-bind _ _ (search keeps_rules) (λ o. or_raise-Keeps o _)

create_rule-Keeps :
    (id : ℕ) (caller : User) (court_id : ℕ) (body : PriceRuleCreate) (scope : VenueScope)
    → Keeps IsSpecific (create_rule id caller court_id body scope)
unfolding create_rule
create_rule-Keeps id caller court_id body scope =
    Keeps-bind _ _ (get_court-Keeps court_id scope) (λ _.
      Keeps-bind _ _
        (Keeps-attempt-savepoint _ (flush_rule-Keeps (new_rule id caller court_id body)))
        (λ r. Keeps-bind _ _ (after_rule_flush-Keeps r) (λ _. search keeps_rules)))

update_rule-Keeps :
    (caller : User) (rule_id price : ℕ) (scope : VenueScope)
    → Keeps IsSpecific (update_rule caller rule_id price scope)
unfolding update_rule
update_rule-Keeps caller rule_id price scope = Keeps-bind _ _ (get_rule-Keeps rule_id scope) (λ r.
    Keeps-bind _ _ (Keeps-modify _ (reprice-IsSpecific caller price r.id))
      (λ _. search keeps_rules))

delete_rule-Keeps :
    (rule_id : ℕ) (scope : VenueScope) → Keeps IsSpecific (delete_rule rule_id scope)
unfolding delete_rule
delete_rule-Keeps rule_id scope =
    Keeps-bind _ _ (get_rule-Keeps rule_id scope) (λ r.
      Keeps-bind _ _ (Keeps-modify _ (without_rule-IsSpecific r.id)) (λ _. search keeps_rules))

-- Where no court has two rules for one weekday and hour (wildcards included), none has after a
-- request that creates, changes or deletes a rule, however the request ends.
pub administration-IsSpecific :
    (caller : User) (id court_id rule_id price : ℕ) (body : PriceRuleCreate) (scope : VenueScope)
    (s : Session)
    → IsSpecific s.tables
    → IsSpecific s.committed
    → IsSpecific (request (create_rule id caller court_id body scope) s).1
      × IsSpecific (request (update_rule caller rule_id price scope) s).1
      × IsSpecific (request (delete_rule rule_id scope) s).1
administration-IsSpecific caller id court_id rule_id price body scope s p q = (
  Keeps-request _ s (create_rule-Keeps id caller court_id body scope) p q,
  Keeps-request _ s (update_rule-Keeps caller rule_id price scope) p q,
  Keeps-request _ s (delete_rule-Keeps rule_id scope) p q,
)
