-- ===== src/Common/Anys.antt =====
-- `Any` through maps, selections, sorting and rearrangements.
use mathlib.Core.Path.{◌≡◌, subst}
use mathlib.Core.Logic.{◌⊎◌, inl, inr}
use mathlib.Core.Bool.{Bool, true}
use mathlib.Core.List.{List, [], ◌∷◌, map, Permᴰ}
use native.Mathlib.Omega.{arith}
use pikol_backend.Common.Tests.{Bool-cases}
use pikol_backend.Common.Lists.{Any, any, select}
use pikol_backend.Common.Sets.{insert_by, sort_by}

module _ {A B : Type 0} (P : B → Type 0) (f : A → B) where
  pub Any-map : (xs : List A) → Any (λ x. P (f x)) xs → Any P (map f xs)
  Any-map [] a = a
  Any-map (x ∷ xs) (inl p) = inl p
  Any-map (x ∷ xs) (inr a) = inr (Any-map xs a)

  pub Any-of_map : (xs : List A) → Any P (map f xs) → Any (λ x. P (f x)) xs
  Any-of_map [] a = a
  Any-of_map (x ∷ xs) (inl p) = inl p
  Any-of_map (x ∷ xs) (inr a) = inr (Any-of_map xs a)

module _ {A : Type 0} (P : A → Type 0) where
  pub Any-select :
      (q : A → Bool) → ((x : A) → P x → q x ≡ true) → (xs : List A) → Any P xs → Any P (select q xs)
  Any-select q sub [] a = a
  Any-select q sub (x ∷ xs) (inl p) = rw (sub x p) (inl p)
  Any-select q sub (x ∷ xs) (inr a) = elim (Bool-cases (q x)) [
    | inl e ↦ rw e (inr (Any-select q sub xs a))
    | inr e ↦ rw e (Any-select q sub xs a)
  ]

  pub Any-of_select :
      (q : A → Bool) (xs : List A) → Any P (select q xs) → Any (λ x. P x × (q x ≡ true)) xs
  Any-of_select q [] a = a
  Any-of_select q (x ∷ xs) a = elim (Bool-cases (q x)) [
    | inl e ↦
        let kept : P x ⊎ Any P (select q xs) = rw e at a in
        elim kept [ inl p ↦ inl (p, e) | inr later ↦ inr (Any-of_select q xs later) ]
    | inr e ↦ let later : Any P (select q xs) = rw e at a in inr (Any-of_select q xs later)
  ]

  module _ (before : A → A → Bool) where
    Any-insert_by : (x : A) (s : List A) → P x ⊎ Any P s → Any P (insert_by before x s)
    Any-insert_by x [] a = a
    Any-insert_by x (y ∷ s) a = elim (Bool-cases (before x y)) [
      | inl e ↦ rw e a
      | inr e ↦ rw e (elim a [
        | inl p ↦ inr (Any-insert_by x s (inl p))
        | inr (inl p) ↦ inl p
        | inr (inr later) ↦ inr (Any-insert_by x s (inr later))
      ])
    ]

    Any-of_insert_by : (x : A) (s : List A) → Any P (insert_by before x s) → P x ⊎ Any P s
    Any-of_insert_by x [] a = a
    Any-of_insert_by x (y ∷ s) a = elim (Bool-cases (before x y)) [
      | inl e ↦ rw e at a
      | inr e ↦
          let split : P y ⊎ Any P (insert_by before x s) = rw e at a in
          elim split [
            | inl p ↦ inr (inl p)
            | inr later ↦ elim (Any-of_insert_by x s later) [
              | inl p ↦ inl p
              | inr rest ↦ inr (inr rest)
            ]
          ]
    ]

    pub Any-sort_by : (s : List A) → Any P s → Any P (sort_by before s)
    Any-sort_by [] a = a
    Any-sort_by (x ∷ s) (inl p) = Any-insert_by x (sort_by before s) (inl p)
    Any-sort_by (x ∷ s) (inr a) = Any-insert_by x (sort_by before s) (inr (Any-sort_by s a))

    pub Any-of_sort_by : (s : List A) → Any P (sort_by before s) → Any P s
    Any-of_sort_by [] a = a
    Any-of_sort_by (x ∷ s) a = elim (Any-of_insert_by x (sort_by before s) a) [
      | inl p ↦ inl p
      | inr later ↦ inr (Any-of_sort_by s later)
    ]

  pub Any-rearranged : {xs ys : List A} → Permᴰ xs ys → Any P xs → Any P ys
  Any-rearranged Permᴰ.nil a = a
  Any-rearranged (Permᴰ.cons e d) (inl p) = inl (subst P e p)
  Any-rearranged (Permᴰ.cons e d) (inr a) = inr (Any-rearranged d a)
  Any-rearranged (Permᴰ.swap e₁ e₂) (inl p) = inr (inl (subst P e₁ p))
  Any-rearranged (Permᴰ.swap e₁ e₂) (inr (inl p)) = inl (subst P e₂ p)
  Any-rearranged (Permᴰ.swap e₁ e₂) (inr (inr a)) = inr (inr a)
  Any-rearranged (Permᴰ.trans d₁ d₂) a = Any-rearranged d₂ (Any-rearranged d₁ a)

-- A passing test, read as a proposition on the element that passes.
pub any_Any :
    {A : Type 0} (p : A → Bool) (P : A → Type 0)
    → ((x : A) → p x ≡ true → P x)
    → (xs : List A) → any p xs ≡ true
    → Any P xs
any_Any p P f [] h = cc
any_Any p P f (x ∷ xs) h = elim (Bool-cases (p x)) [
  | inl e ↦ inl (f x e)
  | inr e ↦ inr (any_Any p P f xs (ground (arith, h)))
]
