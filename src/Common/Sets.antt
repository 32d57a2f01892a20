-- ===== src/Common/Sets.antt =====
-- A Python `frozenset` as a list whose order and repetitions do not count, and a sort.
use mathlib.Core.Path.{◌≡◌, refl, subst}
use mathlib.Core.Logic.{◌⊎◌, inl, inr}
use mathlib.Core.Option.{none, some}
use mathlib.Core.Bool.{Bool, true, false, not, ◌&&◌, ◌||◌}
use mathlib.Core.List.{List, [], ◌∷◌, ◌++◌, map}
use native.Mathlib.Omega.{arith}
use pikol_backend.Common.Tests.{Bool-cases, if◌then◌else◌}
use pikol_backend.Common.Lists.{any, select, find?, All}
use pikol_backend.Common.Equality.{Eq, ◌==◌}

abbrev pub is_empty {ℓ} : {A : Type ℓ} → List A → Bool
is_empty [] = true
is_empty (_ ∷ _) = false

module _ {ℓ} {A : Type ℓ} ⦃e : Eq A⦄ where
  -- `x in s`
  abbrev pub elem : A → List A → Bool
  elem x s = any (λ y. y == x) s

  -- `s & r`, `s - r` and `s | r`
  abbrev pub inter : List A → List A → List A
  inter s r = select (λ x. elem x r) s

  abbrev pub diff : List A → List A → List A
  diff s r = select (λ x. not (elem x r)) s

  pub elem-append : (x : A) (s r : List A) → elem x (s ++ r) ≡ (elem x s || elem x r)
  elem-append x [] r = refl
  elem-append x (y ∷ s) r = ground (arith, elem-append x s r)

  pub elem-select : (x : A) (p : A → Bool) (s : List A) → elem x (select p s) ≡ (p x && elem x s)
  elem-select x p [] = ground arith
  elem-select x p (y ∷ s) = ground (arith, e.equals_iff y x, elem-select x p s)

  -- A set without elements has none.
  pub elem-empty : (x : A) (s : List A) → is_empty s ≡ true → elem x s ≡ false
  elem-empty x [] h = refl
  elem-empty x (y ∷ s) h = ground arith

module _ {ℓ} {A : Type ℓ} where
  pub any-append : (p : A → Bool) (s r : List A) → any p (s ++ r) ≡ (any p s || any p r)
  any-append p [] r = refl
  any-append p (x ∷ s) r = ground (arith, any-append p s r)

  pub any_mono :
      (p q : A → Bool)
      → ((x : A) → p x ≡ true → q x ≡ true)
      → (s : List A) → any p s ≡ true
      → any q s ≡ true
  any_mono p q f [] h = h
  any_mono p q f (x ∷ s) h = ground (arith, f x, any_mono p q f s)

  pub any-select : (p q : A → Bool) (s : List A) → any p (select q s) ≡ any (λ x. q x && p x) s
  any-select p q [] = refl
  any-select p q (x ∷ s) = ground (arith, any-select p q s)

  -- Insertion before the first element that `before` puts after it.
  abbrev pub insert_by : (A → A → Bool) → A → List A → List A
  insert_by before x [] = x ∷ []
  insert_by before x (y ∷ s) =
      let rest = insert_by before x s in if before x y then x ∷ y ∷ s else y ∷ rest

  -- `sorted(s, key=…)`, and `ORDER BY`
  abbrev pub sort_by : (A → A → Bool) → List A → List A
  sort_by before [] = []
  sort_by before (x ∷ s) = insert_by before x (sort_by before s)

  pub All-insert_by {κ} :
      (P : A → Type κ) (before : A → A → Bool) (x : A) (s : List A)
      → P x
      → All P s
      → All P (insert_by before x s)
  All-insert_by P before x [] p h = (p, tt)
  All-insert_by P before x (y ∷ s) p h = elim (Bool-cases (before x y)) [
    | inl e ↦ rw e (p, h)
    | inr e ↦ rw e (h.0, All-insert_by P before x s p h.1)
  ]

  pub All-sort_by {κ} :
      (P : A → Type κ) (before : A → A → Bool) (s : List A) → All P s → All P (sort_by before s)
  All-sort_by P before [] h = tt
  All-sort_by P before (x ∷ s) h =
      All-insert_by P before x (sort_by before s) h.0 (All-sort_by P before s h.1)

pub any-map {ℓ κ} :
    {A : Type ℓ} {B : Type κ} (p : B → Bool) (f : A → B) (s : List A)
    → any p (map f s) ≡ any (λ x. p (f x)) s
any-map p f [] = refl
any-map p f (x ∷ s) = ground (arith, any-map p f s)

module _ {ℓ} {A : Type ℓ} where
  -- A search that finds nothing in the front goes on behind it.
  pub find?-append :
      (p : A → Bool) (xs ys : List A) → any p xs ≡ false → find? p (xs ++ ys) ≡ find? p ys
  find?-append p [] ys h = refl
  find?-append p (x ∷ xs) ys h = ground (arith, find?-append p xs ys)

  pub any-select-false :
      (p q : A → Bool) (s : List A) → any p s ≡ false → any p (select q s) ≡ false
  any-select-false p q [] h = refl
  any-select-false p q (x ∷ s) h = ground (arith, any-select-false p q s)

  -- What is found among the selected elements is selected.
  pub find?-select :
      (p q : A → Bool) (s more : List A) (x : A)
      → find? p (select q s ++ more) ≡ some x
      → (q x ≡ true) ⊎ (find? p more ≡ some x)
  find?-select p q [] more x h = inr h
  find?-select p q (y ∷ s) more x h = elim (Bool-cases (q y)) [
    | inr e ↦
        let skipped : find? p (select q s ++ more) ≡ some x = rw e at h in
        find?-select p q s more x skipped
    | inl e ↦
        let seen : (if p y then some y else find? p (select q s ++ more)) ≡ some x = rw e at h in
        elim (Bool-cases (p y)) [
          | inl f ↦
              let here : some y ≡ some x = rw f at seen in
              inl (subst (λ o. elim o as (λ _. Type 0) [ none ↦ ⊥ | some z ↦ q z ≡ true ]) here e)
          | inr f ↦
              let later : find? p (select q s ++ more) ≡ some x = rw f at seen in
              find?-select p q s more x later
        ]
  ]
