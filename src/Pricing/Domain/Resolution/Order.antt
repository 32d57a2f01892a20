-- ===== src/Pricing/Domain/Resolution/Order.antt =====
-- The dict comprehension of `PriceResolver.__init__` over rules in another order
-- (pricing/domain/pricing.py).
use pikol_backend.Common.{
  ℕ, ◌≡◌, ◌≢◌, refl, sym, ap, ◌∙◌, none, some, List, [], ◌∷◌, Option-cases, inl, inr, All, Any,
  nat_eq, option_eq, pair_eq,
}
use pikol_backend.Common.Dict.{lookup}
use pikol_backend.Time.{Instant, manila_hour, manila_weekday}
use pikol_backend.Pricing.Domain.{
  PriceRule, PriceKey, PriceResolver, rule_key, price_resolver, prices_from, first_price,
  price_at_instant,
}
use pikol_backend.Pricing.Domain.Resolution.{HasPrice, present, lacking}

lacks_none :
    (k : PriceKey) (p : ℕ) (rules : List PriceRule)
    → All (λ r. rule_key r ≢ k) rules
    → Any (HasPrice k p) rules
    → ⊥
lacks_none k p [] lacks has = elim has [ ]
lacks_none k p (r ∷ rules) lacks (inl has) = lacks.0 has.0
lacks_none k p (r ∷ rules) lacks (inr later) = lacks_none k p rules lacks.1 later

-- Two lists with the same prices under a key, of which there is at most one.
lookup_agrees :
    (k : PriceKey) (rules rules' : List PriceRule)
    → ((p : ℕ) → Any (HasPrice k p) rules → Any (HasPrice k p) rules')
    → ((p : ℕ) → Any (HasPrice k p) rules' → Any (HasPrice k p) rules)
    → ((p q : ℕ) → Any (HasPrice k p) rules → Any (HasPrice k q) rules → p ≡ q)
    → lookup k (prices_from [] rules) ≡ lookup k (prices_from [] rules')
lookup_agrees k rules rules' to from one = elim (Option-cases (lookup k (prices_from [] rules))) [
  | inl e ↦ elim (Option-cases (lookup k (prices_from [] rules'))) [
    | inl e' ↦ e ∙ sym e'
    | inr (q, e') ↦
        elim (lacks_none k q rules (lacking rules 0 0 0 k e)
          (from q (present rules' 0 0 0 k q e'))) [ ]
  ]
  | inr (p, e) ↦ elim (Option-cases (lookup k (prices_from [] rules'))) [
    | inl e' ↦
        elim (lacks_none k p rules' (lacking rules' 0 0 0 k e')
          (to p (present rules 0 0 0 k p e))) [ ]
    | inr (q, e') ↦
        e
        ∙ ap some (one p q (present rules 0 0 0 k p e) (from q (present rules' 0 0 0 k q e')))
        ∙ sym e'
  ]
]

first_price_agrees :
    (r r' : PriceResolver)
    → ((k : PriceKey) → lookup k r.prices ≡ lookup k r'.prices)
    → r.default ≡ r'.default
    → (keys : List PriceKey) → first_price r keys ≡ first_price r' keys
unfolding first_price
first_price_agrees r r' same default [] = default
first_price_agrees r r' same default (k ∷ keys) = elim (Option-cases (lookup k r'.prices)) [
  | inl e ↦ rw (first_price, same k, e) (first_price_agrees r r' same default keys)
  | inr (p, e) ↦ rw (first_price, same k, e) refl
]

-- Rules with the same prices, of which each key has at most one, give every instant the same price.
pub price_agrees :
    (rules rules' : List PriceRule) (default : ℕ) (t : Instant)
    → ((k : PriceKey) (p : ℕ) → Any (HasPrice k p) rules → Any (HasPrice k p) rules')
    → ((k : PriceKey) (p : ℕ) → Any (HasPrice k p) rules' → Any (HasPrice k p) rules)
    → ((k : PriceKey) (p q : ℕ) → Any (HasPrice k p) rules → Any (HasPrice k q) rules → p ≡ q)
    → price_at_instant (price_resolver rules default) t
      ≡ price_at_instant (price_resolver rules' default) t
unfolding price_at_instant price_resolver
price_agrees rules rules' default t to from one =
    first_price_agrees (price_resolver rules default) (price_resolver rules' default)
      (λ k. lookup_agrees k rules rules' (to k) (from k) (one k)) refl
      ((some (manila_weekday t), some (manila_hour t))
        ∷ (none, some (manila_hour t))
        ∷ (some (manila_weekday t), none)
        ∷ (none, none)
        ∷ [])
