-- ===== src/Checkouts/Rules/Allocation.antt =====
-- `allocate_fee` (checkouts/domain/rules.py).
use native.Mathlib.Nat.{div-mul-le_self, le_of_mul-le-mul_right, add-mul}
use pikol_backend.Common.{
  ℕ, zero, suc, ◌+◌, ◌-◌, ◌*◌, ◌/◌, ◌≡◌, if◌then◌else◌, ◌==◌, nat_eq, ◌≤◌, refl, sym, ap, ◌∙◌, List,
  [], ◌∷◌, arith, sum, length, sum-append, length-append,
}
use pikol_backend.Checkouts.Rules.{floor_shares, allocate_fee}

-- The last of a list that is not empty.
abbrev pub last : ℕ → List ℕ → ℕ
last p [] = p
last p (q ∷ prices) = last q prices

one_share : (fee total p : ℕ) → (if total == 0 then 0 else fee * p / total) * total ≤ fee * p
one_share fee total p = ground (arith, div-mul-le_self (fee * p) total)

-- The floor shares times the total leave at least the last group's proportion of the fee.
sum-floor_shares :
    (fee total p : ℕ) (prices : List ℕ)
    → sum (floor_shares fee total (p ∷ prices)) * total + fee * last p prices
      ≤ fee * sum (p ∷ prices)
unfolding floor_shares
sum-floor_shares fee total p [] = omega arith
sum-floor_shares fee total p (q ∷ prices) =
    omega (arith, one_share fee total p, sum-floor_shares fee total q prices)

floor_shares_zero : (fee : ℕ) (prices : List ℕ) → sum (floor_shares fee 0 prices) ≡ 0
unfolding floor_shares
floor_shares_zero fee [] = refl
floor_shares_zero fee (p ∷ []) = refl
floor_shares_zero fee (p ∷ q ∷ prices) = omega (arith, floor_shares_zero fee (q ∷ prices))

shares-le-fee :
    (fee total p : ℕ) (prices : List ℕ)
    → sum (p ∷ prices) ≡ total
    → sum (floor_shares fee total (p ∷ prices)) ≤ fee
shares-le-fee fee zero p prices e = omega (arith, floor_shares_zero fee (p ∷ prices))
shares-le-fee fee (suc t) p prices e =
    le_of_mul-le-mul_right {k = suc t}
      (omega (arith, sum-floor_shares fee (suc t) p prices, ap (λ (n : ℕ). fee * n) e))
      (omega arith)

sum-floor_shares-le-fee :
    (fee p : ℕ) (prices : List ℕ) → sum (floor_shares fee (sum (p ∷ prices)) (p ∷ prices)) ≤ fee
sum-floor_shares-le-fee fee p prices = shares-le-fee fee (sum (p ∷ prices)) p prices refl

length-floor_shares :
    (fee total p : ℕ) (prices : List ℕ)
    → length (floor_shares fee total (p ∷ prices)) ≡ length prices
unfolding floor_shares
length-floor_shares fee total p [] = refl
length-floor_shares fee total p (q ∷ prices) = omega (arith, length-floor_shares fee total q prices)

last_share :
    (fee p : ℕ) (prices : List ℕ)
    → fee * last p prices
      ≤ (fee - sum (floor_shares fee (sum (p ∷ prices)) (p ∷ prices))) * sum (p ∷ prices)
last_share fee p prices =
    let total = sum (p ∷ prices) in
    let shares = sum (floor_shares fee total (p ∷ prices)) in
    let fits : shares ≤ fee = sum-floor_shares-le-fee fee p prices in
    let split : (fee - shares) * total + shares * total ≡ fee * total =
      sym (add-mul (fee - shares) shares total) ∙ ap (λ (t : ℕ). t * total) (omega (arith, fits)) in
    omega (arith, split, sum-floor_shares fee total p prices)

-- For any fee and any prices of at least one group, there is one share for each group, the shares
-- add up to exactly the fee, the shares before the last never exceed the fee, so that the last is no
-- negative remainder, and the last is at least its group's proportion of the fee.
pub allocate_fee_exact :
    (fee p : ℕ) (prices : List ℕ)
    → let shares = floor_shares fee (sum (p ∷ prices)) (p ∷ prices) in
      (sum (allocate_fee fee (p ∷ prices)) ≡ fee)
      × (length (allocate_fee fee (p ∷ prices)) ≡ length (p ∷ prices))
      × (sum shares ≤ fee)
      × (fee * last p prices ≤ (fee - sum shares) * sum (p ∷ prices))
unfolding allocate_fee
allocate_fee_exact fee p prices =
    let shares = floor_shares fee (sum (p ∷ prices)) (p ∷ prices) in
    (
      omega (
        arith,
        sum-append shares ((fee - sum shares) ∷ []),
        sum-floor_shares-le-fee fee p prices,
      ),
      omega (
        arith,
        length-append shares ((fee - sum shares) ∷ []),
        length-floor_shares fee (sum (p ∷ prices)) p prices,
      ),
      sum-floor_shares-le-fee fee p prices,
      last_share fee p prices,
    )
