-- ===== src/Bookings/Integrity/Insert.antt =====
-- `insert` (bookings/persistence/repository.py), and the integrity of the booking tables.

use mathlib.Core.Path.{subst}
use pikol_backend.Common.{
  ℕ, zero, suc, ◌≡◌, refl, sym, ap, ◌∙◌, eqb_iff, inl, inr, Option, none, some, List, [], ◌∷◌, map,
  arith, All, All-append, All-mono, Bool-cases, ◌==◌, nat_eq, is_some, if◌then◌else◌,
}
use pikol_backend.Time.{Instant}
use pikol_backend.Errors.{
  Result, Result-cases, ok, err, integrity_error, slot_constraint, reference_constraint,
}
use pikol_backend.Bookings.Enums.{pending, status_eq}
use pikol_backend.Bookings.Models.{BookingGroup, BookingSlot, GroupFields, new_group}
use pikol_backend.Bookings.Repository.{
  slot_unavailable_error, insert, insert_loop, insert_attempt, after_flush, flush_group, flush_rows,
  reference_taken, add_slot_rows, new_slot, with_group,
}
use pikol_backend.Bookings.Integrity.{IsConsistent, Mirrors, MirrorsGroup, HasDeadline, IsKeyed}
use pikol_backend.Bookings.Integrity.Slots.{Added, add_slot_rows-Added}
use pikol_backend.Database.{Tables, Session, ◌>>=◌, attempt, savepoint, roll_back, put_row}
use pikol_backend.Database.Keeps.{
  Keeps, Keeps-pure, Keeps-raise, After, After-attempt, Keeps-bind, keeps_rules,
}

-- `ck_pending_has_expiry`, as the fields of a new group meet it.
abbrev pub HasFields : GroupFields → Type 0
HasFields f = is_some f.expires_at ≡ (f.booking_status == pending)

module _ (g : BookingGroup) (slot_prices : List (Instant × ℕ)) where
  -- The rows that the group had before keep their groups, since its key was free.
  old_kept :
      (t : Tables)
      → t.booking_groups g.id ≡ none
      → (s : BookingSlot) → Mirrors t.booking_groups s
      → Mirrors (put_row g.id g t.booking_groups) s
  old_kept t free s m = elim (Bool-cases (g.id == s.booking_group_id)) [
    | inr other ↦ rw other m
    | inl same ↦
        let here : t.booking_groups s.booking_group_id ≡ none =
          ap t.booking_groups (sym ((eqb_iff g.id s.booking_group_id).0 same)) ∙ free in
        absurd (subst (λ o. MirrorsGroup o s) here m)
  ]

  put_deadline :
      (i : ℕ) (found : Option BookingGroup)
      → HasDeadline (some g)
      → HasDeadline found
      → HasDeadline (if g.id == i then some g else found)
  put_deadline i found d h = elim (Bool-cases (g.id == i)) [ inl e ↦ rw e d | inr e ↦ rw e h ]

  put-IsKeyed :
      (i : ℕ) (found : Option BookingGroup)
      → IsKeyed i found
      → IsKeyed i (if g.id == i then some g else found)
  put-IsKeyed i found h = elim (Bool-cases (g.id == i)) [
    | inl e ↦ rw e ((eqb_iff g.id i).0 e)
    | inr e ↦ rw e h
  ]

  new_kept :
      (t : Tables) (l : List (Instant × ℕ))
      → All (Mirrors (put_row g.id g t.booking_groups)) (map (new_slot g) l)
  new_kept t [] = tt
  new_kept t ((at, price) ∷ l) = (ground arith, new_kept t l)

  pub with_group-IsConsistent :
      (t : Tables) (slots : List BookingSlot)
      → g.id ≡ t.next_group_id
      → HasDeadline (some g)
      → Added (map (new_slot g) slot_prices) t.booking_slots slots
      → IsConsistent t
      → IsConsistent (with_group g slots t)
  with_group-IsConsistent t slots e d added c = record {
    mirrored = rw added.appended (
        All-append _ t.booking_slots (map (new_slot g) slot_prices)
          (All-mono (old_kept t (c.fresh g.id (omega arith))) t.booking_slots c.mirrored)
          (new_kept t slot_prices));
    exclusive = added.exclusive c.exclusive;
    deadlines = λ i. put_deadline i (t.booking_groups i) d (c.deadlines i);
    keyed = λ i. put-IsKeyed i (t.booking_groups i) (c.keyed i);
    fresh = λ i h. ground (arith, c.fresh i);
    whole_hours = rw added.appended (
        All-append _ t.booking_slots (map (new_slot g) slot_prices) c.whole_hours
          added.whole_hours);
  }

  -- What the savepoint of `flush_group` runs, at a session where the group's key is the next one.
  flush_After :
      (s : Session)
      → g.id ≡ s.tables.next_group_id
      → HasDeadline (some g)
      → IsConsistent s.tables
      → IsConsistent s.committed
      → After IsConsistent IsConsistent (flush_rows g slot_prices s)
  unfolding flush_rows ◌>>=◌
  flush_After s e d p q =
      elim (Bool-cases
        (reference_taken g.reference_code s.tables.next_group_id s.tables.booking_groups)) [
          | inl taken ↦ rw taken q
          | inr fresh ↦
              elim (Result-cases
                (add_slot_rows (map (new_slot g) slot_prices) s.tables.booking_slots)) [
                  | inr (bad, x) ↦ rw (fresh, x) q
                  | inl (slots, x) ↦
                      rw (fresh, x)
                        (
                          with_group-IsConsistent s.tables slots e d (add_slot_rows-Added _ _ x) p,
                          q,
                        )
                ]
        ]

after_flush-Keeps :
    (g : BookingGroup) (r : Result (Unit {0})) → Keeps IsConsistent (after_flush g r)
unfolding after_flush
after_flush-Keeps g (ok _) = Keeps-pure (some g)
after_flush-Keeps g (err (integrity_error slot_constraint)) = Keeps-raise slot_unavailable_error
after_flush-Keeps g (err (integrity_error reference_constraint)) = Keeps-pure none
after_flush-Keeps g (err e) = Keeps-raise e

insert_attempt-Keeps :
    (fields : GroupFields) (slot_prices : List (Instant × ℕ))
    → HasFields fields
    → Keeps IsConsistent (insert_attempt fields slot_prices)
unfolding insert_attempt flush_group ◌>>=◌ attempt savepoint
insert_attempt-Keeps fields slot_prices d = record {
  at = λ s p q.
      let g = new_group s.tables.next_group_id (s.reference_codes s.drawn) fields in
      let s' : Session = record s { drawn = suc s.drawn } in
      let m = flush_rows g slot_prices s' in
      let ended = roll_back s.tables m.0 m.1 in
      let (p', q') =
        After-attempt IsConsistent IsConsistent s.tables m.0 m.1 p
          (flush_After g slot_prices s' refl d p q) in
      (after_flush-Keeps g ended.0).at ended.1 p' q';
}

insert_loop-Keeps :
    (n : ℕ) (fields : GroupFields) (slot_prices : List (Instant × ℕ))
    → HasFields fields
    → Keeps IsConsistent (insert_loop n fields slot_prices)
unfolding insert_loop
insert_loop-Keeps zero fields slot_prices d = search keeps_rules
insert_loop-Keeps (suc n) fields slot_prices d =
    Keeps-bind _ _ (insert_attempt-Keeps fields slot_prices d)
      (elim [ some g ↦ Keeps-pure g | none ↦ insert_loop-Keeps n fields slot_prices d ])

-- Inserting a group with its slots keeps the integrity of the tables: a slot that is taken is refused.
pub insert-Keeps :
    (fields : GroupFields) (slot_prices : List (Instant × ℕ))
    → HasFields fields
    → Keeps IsConsistent (insert fields slot_prices)
unfolding insert
insert-Keeps fields slot_prices d = insert_loop-Keeps 5 fields slot_prices d
