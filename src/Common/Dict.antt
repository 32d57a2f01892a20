-- ===== src/Common/Dict.antt =====
-- A Python `dict` as an association list in insertion order.
use pikol_backend.Common.{
  ◌≡◌, ◌≢◌, sym, ap, ◌∙◌, Bool, true, false, ◌||◌, Bool-cases, inl, inr, Option, none, some, List,
  [], ◌∷◌, arith, Eq, ◌==◌, is_some, if◌then◌else◌,
}
use mathlib.Core.Path.{subst}
use mathlib.Core.Bool.{false≢true}

abbrev pub Dict {ℓ κ} : Type ℓ → Type κ → Type (ℓ ⊔ κ)
Dict K V = List (K × V)

pub not_same {ℓ} : {K : Type ℓ} ⦃e : Eq K⦄ (k j : K) → (k == j) ≡ false → k ≢ j
not_same ⦃e⦄ k j q same =
    let equal : (k == j) ≡ true = (e.equals_iff k j).1 same in false≢true (sym q ∙ equal)

module _ {ℓ κ} {K : Type ℓ} {V : Type κ} ⦃e : Eq K⦄ where
  -- `d.get(k)`
  abbrev pub lookup : K → Dict K V → Option V
  lookup k [] = none
  lookup k ((j, v) ∷ d) = if j == k then some v else lookup k d

  -- `k in d`
  abbrev pub contains : K → Dict K V → Bool
  contains k d = is_some (lookup k d)

  -- `d[k] = v`
  abbrev pub insert : K → V → Dict K V → Dict K V
  insert k v [] = (k, v) ∷ []
  insert k v ((j, w) ∷ d) = if j == k then (j, v) ∷ d else (j, w) ∷ insert k v d

  pub lookup-insert_self : (k : K) (v : V) (d : Dict K V) → lookup k (insert k v d) ≡ some v
  lookup-insert_self k v [] = ground (arith, e.equals_iff k k)
  lookup-insert_self k v ((j, w) ∷ d) = ground (arith, e.equals_iff j k, lookup-insert_self k v d)

  pub lookup-insert_ne :
      (k j : K) (v : V) (d : Dict K V) → k ≢ j → lookup j (insert k v d) ≡ lookup j d
  lookup-insert_ne k j v [] h = ground (arith, e.equals_iff k j)
  lookup-insert_ne k j v ((i, w) ∷ d) h =
      ground (arith, e.equals_iff i k, e.equals_iff i j, lookup-insert_ne k j v d h)

  pub contains-insert :
      (k j : K) (v : V) (d : Dict K V) → contains j (insert k v d) ≡ (k == j || contains j d)
  contains-insert k j v d = elim (Bool-cases (k == j)) [
    | inl q ↦
        let same = (e.equals_iff k j).0 q in
        rw q (
          ap is_some
            (subst (λ i. lookup i (insert k v d) ≡ some v) same (lookup-insert_self k v d)))
    | inr q ↦
        let apart = λ (same : k ≡ j). not_same k j q same in
        rw q (ap is_some (lookup-insert_ne k j v d apart))
  ]
