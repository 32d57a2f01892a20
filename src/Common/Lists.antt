-- ===== src/Common/Lists.antt =====
-- Lists measured by native numbers, and a predicate on every element.
use Prim.Native.Nat.{ℕ, zero, suc, ◌+◌, ◌≤◌, ◌<◌}
use mathlib.Core.Path.{◌≡◌, refl, ap, sym, subst}
use mathlib.Core.Logic.{◌⊎◌, inl, inr}
use mathlib.Core.Bool.{Bool, true, false, ◌&&◌, ◌||◌}
use mathlib.Core.Option.{Option, none, some}
use mathlib.Core.List.{List, [], ◌∷◌, ◌++◌, map}
use native.Mathlib.Omega.{arith}
use pikol_backend.Common.Tests.{Bool-cases, if◌then◌else◌}

module _ {ℓ} {A : Type ℓ} where
  abbrev pub length : List A → ℕ
  length [] = 0
  length (x ∷ xs) = suc (length xs)

  abbrev pub any : (A → Bool) → List A → Bool
  any p [] = false
  any p (x ∷ xs) = p x || any p xs

  abbrev pub all : (A → Bool) → List A → Bool
  all p [] = true
  all p (x ∷ xs) = p x && all p xs

  -- `[x for x in xs if p(x)]`
  abbrev pub select : (A → Bool) → List A → List A
  select p [] = []
  select p (x ∷ xs) = let rest = select p xs in if p x then x ∷ rest else rest

  abbrev pub find? : (A → Bool) → List A → Option A
  find? p [] = none
  find? p (x ∷ xs) = if p x then some x else find? p xs

  abbrev pub count : (A → Bool) → List A → ℕ
  count p [] = 0
  count p (x ∷ xs) = (if p x then 1 else 0) + count p xs

  abbrev pub All {κ} : (A → Type κ) → List A → Type κ
  All P [] = Unit
  All P (x ∷ xs) = P x × All P xs

  pub length-append : (xs ys : List A) → length (xs ++ ys) ≡ length xs + length ys
  length-append [] ys = omega arith
  length-append (x ∷ xs) ys = omega (arith, length-append xs ys)

module _ {ℓ} {A : Type ℓ} where
  abbrev pub take : ℕ → List A → List A
  take zero xs = []
  take (suc n) [] = []
  take (suc n) (x ∷ xs) = x ∷ take n xs

-- `range(n)`
abbrev pub range : ℕ → List ℕ
range zero = []
range (suc n) = range n ++ n ∷ []

abbrev pub sum : List ℕ → ℕ
sum [] = 0
sum (x ∷ xs) = x + sum xs

pub sum-append : (xs ys : List ℕ) → sum (xs ++ ys) ≡ sum xs + sum ys
sum-append [] ys = omega arith
sum-append (x ∷ xs) ys = omega (arith, sum-append xs ys)

pub length-map {ℓ κ} :
    {A : Type ℓ} {B : Type κ} (f : A → B) (xs : List A) → length (map f xs) ≡ length xs
length-map f [] = refl
length-map f (x ∷ xs) = ap suc (length-map f xs)

module _ {ℓ κ} {A : Type ℓ} where
  pub All-append : (P : A → Type κ) (xs ys : List A) → All P xs → All P ys → All P (xs ++ ys)
  All-append P [] ys hx hy = hy
  All-append P (x ∷ xs) ys hx hy = (hx.0, All-append P xs ys hx.1 hy)

  pub All-mono {μ} :
      {P : A → Type κ} {Q : A → Type μ}
      → ((x : A) → P x → Q x)
      → (xs : List A) → All P xs
      → All Q xs
  All-mono f [] h = tt
  All-mono f (x ∷ xs) h = (f x h.0, All-mono f xs h.1)

  pub All-map {μ ν} :
      {B : Type μ} {P : A → Type κ} (Q : B → Type ν) (g : A → B)
      → ((x : A) → P x → Q (g x))
      → (xs : List A) → All P xs
      → All Q (map g xs)
  All-map Q g f [] h = tt
  All-map Q g f (x ∷ xs) h = (f x h.0, All-map Q g f xs h.1)

  pub All-of : {P : A → Type κ} → ((x : A) → P x) → (xs : List A) → All P xs
  All-of f [] = tt
  All-of f (x ∷ xs) = (f x, All-of f xs)

  pub All-select : (P : A → Type κ) (p : A → Bool) (xs : List A) → All P xs → All P (select p xs)
  All-select P p [] h = tt
  All-select P p (x ∷ xs) h = ground (arith, All-select P p xs h.1)

  pub All-and {μ} :
      (P : A → Type κ) (Q : A → Type μ) (xs : List A)
      → All P xs
      → All Q xs
      → All (λ x. P x × Q x) xs
  All-and P Q [] h k = tt
  All-and P Q (x ∷ xs) h k = ((h.0, k.0), All-and P Q xs h.1 k.1)

module _ {ℓ κ} {A : Type ℓ} (P : A → Type κ) where
  pub All-take : (n : ℕ) (xs : List A) → All P xs → All P (take n xs)
  All-take zero xs h = tt
  All-take (suc n) [] h = tt
  All-take (suc n) (x ∷ xs) h = (h.0, All-take n xs h.1)

-- Each element is among the elements that are like it.
pub All-any_self {ℓ} :
    {A : Type ℓ} (q : A → A → Bool)
    → ((x : A) → q x x ≡ true)
    → (xs : List A) → All (λ x. any (q x) xs ≡ true) xs
All-any_self q r [] = tt
All-any_self q r (x ∷ xs) =
    (ground (arith, r x), All-mono (λ y h. ground (arith, h)) xs (All-any_self q r xs))

pub range_below : (n : ℕ) → All (λ i. i < n) (range n)
range_below zero = tt
range_below (suc n) =
    All-append (λ i. i < suc n) (range n) (n ∷ [])
      (All-mono (λ i h. omega arith) (range n) (range_below n)) (omega arith, tt)

module _ {ℓ} {A : Type ℓ} where
  -- Some element satisfies `P`.
  abbrev pub Any : (A → Type 0) → List A → Type 0
  Any P [] = ⊥
  Any P (x ∷ xs) = P x ⊎ Any P xs

  pub Any-mono :
      {P : A → Type 0} {Q : A → Type 0}
      → ((x : A) → P x → Q x)
      → (xs : List A) → Any P xs
      → Any Q xs
  Any-mono f [] h = elim h [ ]
  Any-mono f (x ∷ xs) (inl p) = inl (f x p)
  Any-mono f (x ∷ xs) (inr q) = inr (Any-mono f xs q)

module _ {ℓ} {A : Type ℓ} where
  pub count-append : (p : A → Bool) (xs ys : List A) → count p (xs ++ ys) ≡ count p xs + count p ys
  count-append p [] ys = omega arith
  count-append p (x ∷ xs) ys = omega (arith, count-append p xs ys)

  -- A map that makes no element satisfy `p` anew does not raise the count.
  pub count-map-le :
      (p : A → Bool) (f : A → A) (xs : List A)
      → All (λ x. p (f x) ≡ true → p x ≡ true) xs
      → count p (map f xs) ≤ count p xs
  count-map-le p f [] back = omega arith
  count-map-le p f (x ∷ xs) back = ground (arith, back.0, count-map-le p f xs back.1)

  pub count-eq-zero :
      (p q : A → Bool)
      → ((x : A) → q x ≡ true → p x ≡ true)
      → (xs : List A) → any p xs ≡ false
      → count q xs ≡ 0
  count-eq-zero p q sub [] h = refl
  count-eq-zero p q sub (x ∷ xs) h = ground (arith, sub x, count-eq-zero p q sub xs)

  pub count-pos :
      (p q : A → Bool)
      → ((x : A) → p x ≡ true → q x ≡ true)
      → (xs : List A) → any p xs ≡ true
      → 1 ≤ count q xs
  count-pos p q sub [] h = cc
  count-pos p q sub (x ∷ xs) h = ground (arith, sub x, count-pos p q sub xs)

module _ {ℓ} {A : Type ℓ} where
  pub find?-sound : (p : A → Bool) (xs : List A) (x : A) → find? p xs ≡ some x → p x ≡ true
  find?-sound p [] x h = cc
  find?-sound p (y ∷ xs) x h = elim (Bool-cases (p y)) [
    | inl e ↦ ground (arith, find?-sound p xs x)
    | inr e ↦ ground (arith, find?-sound p xs x)
  ]

  pub find?-none : (p : A → Bool) (xs : List A) → any p xs ≡ false → find? p xs ≡ none
  find?-none p [] h = refl
  find?-none p (y ∷ xs) h = ground (arith, find?-none p xs)

  pub find?-any : (p : A → Bool) (xs : List A) (x : A) → find? p xs ≡ some x → any p xs ≡ true
  find?-any p [] x h = cc
  find?-any p (y ∷ xs) x h = elim (Bool-cases (p y)) [
    | inl e ↦ ground (arith)
    | inr e ↦ ground (arith, find?-any p xs x)
  ]

  -- What is found is there.
  pub find?-holds :
      (p q : A → Bool) (xs : List A) (x : A) → find? p xs ≡ some x → q x ≡ true → any q xs ≡ true
  find?-holds p q [] x h k = cc
  find?-holds p q (y ∷ xs) x h k = elim (Bool-cases (p y)) [
    | inl e ↦
        let here : some y ≡ some x = rw e at h in
        let same : q y ≡ true =
          subst (λ o. elim o as (λ _. Type 0) [ none ↦ Unit {0} | some z ↦ q z ≡ true ]) (sym here)
            k in
        ground (arith)
    | inr e ↦
        let later : find? p xs ≡ some x = rw e at h in ground (arith, find?-holds p q xs x later k)
  ]

  pub find?-absent : (p : A → Bool) (xs : List A) → find? p xs ≡ none → any p xs ≡ false
  find?-absent p [] h = refl
  find?-absent p (y ∷ xs) h = elim (Bool-cases (p y)) [
    | inl e ↦ let bad : some y ≡ none = rw e at h in cc
    | inr e ↦ let later : find? p xs ≡ none = rw e at h in ground (arith, find?-absent p xs later)
  ]
