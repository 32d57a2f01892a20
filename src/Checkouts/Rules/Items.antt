-- ===== src/Checkouts/Rules/Items.antt =====
-- `check_items` (checkouts/domain/rules.py) against a description of the picks.
use mathlib.Core.Path.{fun_ext}
use pikol_backend.Common.{
  ℕ, ◌≡◌, ◌≢◌, ◌↔◌, ◌≤◌, refl, sym, ◌∙◌, false, inl, inr, List, [], ◌∷◌, ◌++◌, map, arith, All,
  All-of, Bool-cases, nat_eq, pair_eq, pair_beq_iff, if◌then◌else◌,
}
use pikol_backend.Errors.{Result, Result-cases, ok, err, ◌>>=◌, invalid_error, overlapping_items}
use pikol_backend.Time.{Instant}
use pikol_backend.Bookings.Rules.{slot_starts, check_on_the_hour}
use pikol_backend.Checkouts.Rules.{
  CheckoutItem, member, add_hours, add_items, check_all_on_the_hour, check_items, total_hours,
}

-- The court-hours that the items pick, in order.
abbrev pub item_hours : CheckoutItem → List (ℕ × Instant)
item_hours i = map (λ t. (i.court_id, t)) (slot_starts i.starts_at.instant i.hours)

abbrev pub court_hours : List CheckoutItem → List (ℕ × Instant)
court_hours [] = []
court_hours (i ∷ items) = item_hours i ++ court_hours items

-- No element stands twice.
abbrev pub Distinct : List (ℕ × Instant) → Type 0
Distinct [] = Unit
Distinct (x ∷ xs) = All (λ y. x ≢ y) xs × Distinct xs

-- The two loops as one over the picked court-hours.
add_all : List (ℕ × Instant) → List (ℕ × Instant) → Result (List (ℕ × Instant))
add_all [] seen = ok seen
add_all (x ∷ xs) seen =
    if member x seen then err (invalid_error overlapping_items) else add_all xs (x ∷ seen)

add_all-append :
    (xs ys seen : List (ℕ × Instant)) → add_all (xs ++ ys) seen ≡ (add_all xs seen >>= add_all ys)
unfolding add_all
add_all-append [] ys seen = refl
add_all-append (x ∷ xs) ys seen = ground (arith, add_all-append xs ys (x ∷ seen))

add_hours-eq-add_all :
    (court : ℕ) (starts : List Instant) (seen : List (ℕ × Instant))
    → add_hours court starts seen ≡ add_all (map (λ t. (court, t)) starts) seen
unfolding add_hours add_all
add_hours-eq-add_all court [] seen = refl
add_hours-eq-add_all court (t ∷ starts) seen =
    ground (arith, add_hours-eq-add_all court starts ((court, t) ∷ seen))

add_items-eq-add_all :
    (items : List CheckoutItem) (seen : List (ℕ × Instant))
    → add_items items seen ≡ add_all (court_hours items) seen
unfolding add_items add_all
add_items-eq-add_all [] seen = refl
add_items-eq-add_all (i ∷ items) seen =
    simp (add_all-append, add_hours-eq-add_all, fun_ext (add_items-eq-add_all items))

fresh-cons :
    (x : ℕ × Instant) (seen xs : List (ℕ × Instant))
    → All (λ y. member y (x ∷ seen) ≡ false) xs
    → All (λ y. member y seen ≡ false) xs × All (λ y. x ≢ y) xs
fresh-cons x seen [] h = (tt, tt)
fresh-cons x seen (y ∷ xs) h =
    let (old, ne) = fresh-cons x seen xs h.1 in
    ((ground arith, old), (ground (arith, pair_beq_iff x y), ne))

cons-fresh :
    (x : ℕ × Instant) (seen xs : List (ℕ × Instant))
    → All (λ y. member y seen ≡ false) xs
    → All (λ y. x ≢ y) xs
    → All (λ y. member y (x ∷ seen) ≡ false) xs
cons-fresh x seen [] old ne = tt
cons-fresh x seen (y ∷ xs) old ne =
    (ground (arith, pair_beq_iff x y), cons-fresh x seen xs old.1 ne.1)

abbrev IsFresh : List (ℕ × Instant) → List (ℕ × Instant) → Type 0
IsFresh seen xs = All (λ y. member y seen ≡ false) xs × Distinct xs

add_all-IsFresh : (xs seen s : List (ℕ × Instant)) → add_all xs seen ≡ ok s → IsFresh seen xs
unfolding add_all
add_all-IsFresh [] seen s h = (tt, tt)
add_all-IsFresh (x ∷ xs) seen s h = elim (Bool-cases (member x seen)) [
  | inl old ↦ ground arith
  | inr new ↦
      let (fresh, distinct) = add_all-IsFresh xs (x ∷ seen) s (rw new at h) in
      let (old, ne) = fresh-cons x seen xs fresh in ((new, old), (ne, distinct))
]

IsFresh-add_all :
    (xs seen : List (ℕ × Instant))
    → IsFresh seen xs
    → (s : List (ℕ × Instant)) × (add_all xs seen ≡ ok s)
unfolding add_all
IsFresh-add_all [] seen h = (seen, refl)
IsFresh-add_all (x ∷ xs) seen h =
    rw h.0.0 (IsFresh-add_all xs (x ∷ seen) (cons-fresh x seen xs h.0.1 h.1.0, h.1.1))

check_all_on_the_hour_iff :
    (items : List CheckoutItem)
    → (check_all_on_the_hour items ≡ ok tt) ↔ All (λ i. check_on_the_hour i.starts_at ≡ ok tt) items
unfolding check_all_on_the_hour
check_all_on_the_hour_iff [] = (λ h. tt, λ h. refl)
check_all_on_the_hour_iff (i ∷ items) = ground (arith, check_all_on_the_hour_iff items)

add_items_iff :
    (items : List CheckoutItem)
    → ((s : List (ℕ × Instant)) × (add_items items [] ≡ ok s)) ↔ Distinct (court_hours items)
add_items_iff items = (
  λ (s, e). (add_all-IsFresh (court_hours items) [] s (sym (add_items-eq-add_all items []) ∙ e)).1,
  λ d.
      let (s, e) =
        IsFresh-add_all (court_hours items) [] (All-of (λ y. refl) (court_hours items), d) in
      (s, add_items-eq-add_all items [] ∙ e),
)

check_items_split :
    (items : List CheckoutItem)
    → (check_items items ≡ ok tt) ↔ (
        (items ≢ [])
        × (check_all_on_the_hour items ≡ ok tt)
        × (total_hours items ≤ 24)
        × ((s : List (ℕ × Instant)) × (add_items items [] ≡ ok s)))
unfolding check_items
check_items_split [] = ground arith
check_items_split (i ∷ items) = elim (Result-cases (add_items (i ∷ items) [])) [
  | inl (s, e) ↦ (λ h. (λ n. cc, ground arith, ground arith, (s, e)), λ h. ground arith)
  | inr (e, bad) ↦ (λ h. ground arith, λ h. ground arith)
]

-- The picks pass exactly if there is at least one, each starts on the hour of its own clock, they
-- hold at most 24 hours together, and no court-hour is picked twice.
pub check_items_iff :
    (items : List CheckoutItem)
    → (check_items items ≡ ok tt) ↔ (
        (items ≢ [])
        × All (λ i. check_on_the_hour i.starts_at ≡ ok tt) items
        × (total_hours items ≤ 24)
        × Distinct (court_hours items))
check_items_iff items =
    let (out, back) = check_items_split items in
    (
      λ h.
          let (some_item, starts, few, added) = out h in
          (
            some_item,
            (check_all_on_the_hour_iff items).0 starts,
            few,
            (add_items_iff items).0 added,
          ),
      λ (some_item, starts, few, distinct). back (
        some_item,
        (check_all_on_the_hour_iff items).1 starts,
        few,
        (add_items_iff items).1 distinct,
      ),
    )
