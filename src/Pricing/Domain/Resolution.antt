-- ===== src/Pricing/Domain/Resolution.antt =====
-- Which rule `price_at` takes (pricing/domain/pricing.py).
pub mod Order
use pikol_backend.Common.{
  ℕ, ◌≡◌, ◌≢◌, sym, ◌∙◌, ◌≤◌, ◌⊎◌, inl, inr, none, some, List, [], ◌∷◌, All, Any, Bool-cases, ◌==◌,
  nat_eq, option_eq, pair_eq, pair_beq_iff,
}
use pikol_backend.Common.Dict.{Dict, lookup, insert, lookup-insert_self, lookup-insert_ne}
use pikol_backend.Pricing.Domain.{PriceRule, PriceKey, rule_key, prices_from}

abbrev pub HasPrice : PriceKey → ℕ → PriceRule → Type 0
HasPrice k p r = (rule_key r ≡ k) × (r.price_centavos ≡ p)

key-cases : (a b : PriceKey) → (a ≡ b) ⊎ (a ≢ b)
key-cases a b = elim (Bool-cases (a == b)) [
  | inl e ↦ inl ((pair_beq_iff a b).0 e)
  | inr e ↦ inr (λ h. cc ((pair_beq_iff a b).1 h))
]

lookup-prices_from-some :
    (k : PriceKey) (p : ℕ) (d : Dict PriceKey ℕ) (rules : List PriceRule)
    → lookup k (prices_from d rules) ≡ some p
    → (lookup k d ≡ some p) ⊎ Any (HasPrice k p) rules
unfolding prices_from
lookup-prices_from-some k p d [] h = inl h
lookup-prices_from-some k p d (r ∷ rules) h =
    elim (lookup-prices_from-some k p (insert (rule_key r) r.price_centavos d) rules h) [
      | inr later ↦ inr (inr later)
      | inl here ↦ elim (key-cases (rule_key r) k) [
        | inl e ↦ inr (inl (e, cc (lookup-insert_self (rule_key r) r.price_centavos d)))
        | inr ne ↦ inl (sym (lookup-insert_ne (rule_key r) k r.price_centavos d ne) ∙ here)
      ]
    ]

lookup-prices_from-none :
    (k : PriceKey) (d : Dict PriceKey ℕ) (rules : List PriceRule)
    → lookup k (prices_from d rules) ≡ none
    → (lookup k d ≡ none) × All (λ r. rule_key r ≢ k) rules
unfolding prices_from
lookup-prices_from-none k d [] h = (h, tt)
lookup-prices_from-none k d (r ∷ rules) h =
    let (absent, rest) =
      lookup-prices_from-none k (insert (rule_key r) r.price_centavos d) rules h in
    let ne : rule_key r ≢ k = λ e. cc (lookup-insert_self (rule_key r) r.price_centavos d) in
    (sym (lookup-insert_ne (rule_key r) k r.price_centavos d ne) ∙ absent, (ne, rest))

-- The rule applies at a weekday and an hour: each field is a wildcard or that value.
abbrev pub Applies : ℕ → ℕ → PriceRule → Type 0
Applies d h r =
    ((r.day_of_week ≡ none) ⊎ (r.day_of_week ≡ some d))
    × ((r.hour_of_day ≡ none) ⊎ (r.hour_of_day ≡ some h))

-- `_SPECIFICITY` of the repository: 0 for a day and an hour, 1 for an hour, 2 for a day, 3 for none.
unfoldable pub specificity : PriceRule → ℕ
specificity r = elim r.hour_of_day [
  | some _ ↦ elim r.day_of_week [ some _ ↦ 0 | none ↦ 1 ]
  | none ↦ elim r.day_of_week [ some _ ↦ 2 | none ↦ 3 ]
]

-- `p` is the price of a rule that applies, and no rule that applies is more specific; or no rule
-- applies, and `p` is the default.
abbrev pub IsResolved : List PriceRule → ℕ → ℕ → ℕ → ℕ → Type 0
IsResolved rules default d h p =
    Any
      (λ r.
        Applies d h r
        × (r.price_centavos ≡ p)
        × All (λ r'. Applies d h r' → specificity r ≤ specificity r') rules)
      rules
    ⊎ (All (λ r. ¬ Applies d h r) rules × (p ≡ default))

module _ (rules : List PriceRule) (default d h : ℕ) where
  abbrev Lacks : PriceKey → Type 0
  Lacks k = All (λ r. rule_key r ≢ k) rules

  present :
      (k : PriceKey) (p : ℕ) → lookup k (prices_from [] rules) ≡ some p → Any (HasPrice k p) rules
  present k p e = elim (lookup-prices_from-some k p [] rules e) [ inl bad ↦ cc | inr a ↦ a ]

  lacking : (k : PriceKey) → lookup k (prices_from [] rules) ≡ none → Lacks k
  lacking k e = (lookup-prices_from-none k [] rules e).1
