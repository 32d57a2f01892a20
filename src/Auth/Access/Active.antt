-- ===== src/Auth/Access/Active.antt =====
-- `get_venue_access` of auth/access.py: the venue that a request acts at, and the codes that it has
-- there.
use Prim.Native.String.{String}
use pikol_backend.Common.{
  ℕ, ◌≡◌, ◌↔◌, refl, sym, ap, Bool, true, false, not, ◌&&◌, ◌||◌, Option, none, some, List, [], ◌∷◌,
  any, arith, ◌==◌, nat_eq, option_eq, string_eq, elem, eqb_iff, is_none, is_empty, Bool-cases,
  Option-cases, inl, inr, ◌∙◌,
}
use mathlib.Core.Path.{subst}
use pikol_backend.Errors.{Result, ok, err}
use pikol_backend.Auth.Access.{active_venue, the_only}
use pikol_backend.Database.{Session, ◌>>=◌}
use pikol_backend.Database.Runs.{Returns}

-- The header chooses one of the caller's venues; without a header the caller has no other.
abbrev pub is_active_venue : Option ℕ → List ℕ → ℕ → Bool
is_active_venue header venues v =
    elem v venues && (header == some v || is_none header && not (any (λ w. not (w == v)) venues))

-- The value of a run that returns.
value :
    {s s' : Session} (default a b : ℕ) → ◌≡◌ {A = Result ℕ × Session} (ok a, s) (ok b, s') → a ≡ b
value default a b h =
    ap (λ (r : Result ℕ × Session). elim r.0 as (λ _. ℕ) [ ok x ↦ x | err e ↦ default ]) h

only_one :
    (w : ℕ) (ws : List ℕ)
    → any (λ x. not (x == w)) ws ≡ false
    → is_active_venue none (w ∷ ws) w ≡ true
only_one w ws h = ground (arith, eqb_iff w w)

first_one :
    (w : ℕ) (ws : List ℕ) (v : ℕ)
    → is_active_venue none (w ∷ ws) v ≡ true
    → ((w == v) ≡ true) × (any (λ x. not (x == v)) ws ≡ false)
first_one w ws v h = ground arith

the_only_iff :
    (venues : List ℕ) (v : ℕ) → (the_only venues ≡ some v) ↔ (is_active_venue none venues v ≡ true)
the_only_iff [] v = (λ h. cc, λ h. cc)
the_only_iff (w ∷ ws) v = (
  λ h. elim (Bool-cases (any (λ x. not (x == w)) ws)) [
    | inl e ↦ ground arith
    | inr e ↦
        let same : w ≡ v = ground arith in
        subst (λ x. is_active_venue none (w ∷ ws) x ≡ true) same (only_one w ws e)
  ],
  λ h.
      let (e, others) = first_one w ws v h in
      let same = (eqb_iff w v).0 e in
      rw (subst (λ y. any (λ x. not (x == y)) ws ≡ false) (sym same) others) (ap some same),
)

header_iff :
    (x : ℕ) (venues : List ℕ) (v : ℕ) (s : Session)
    → Returns (active_venue (some x) venues) s v s ↔ (is_active_venue (some x) venues v ≡ true)
unfolding active_venue ◌>>=◌
header_iff x venues v s = elim (Bool-cases (elem x venues)) [
  | inl e ↦ (
    λ h.
        let same = value x x v (rw e at h) in
        subst (λ y. is_active_venue (some x) venues y ≡ true) same (ground (arith, eqb_iff x x)),
    λ h. let same : x ≡ v = ground (arith, eqb_iff x v) in rw e (ap (λ y. (ok y, s)) same),
  )
  | inr e ↦ (
    λ h. let refused = rw e at h in cc,
    λ h.
        let same : x ≡ v = ground (arith, eqb_iff x v) in
        let absent = subst (λ y. elem y venues ≡ false) same e in
        let bad : true ≡ false = ground arith in cc,
  )
]

no_header_iff :
    (venues : List ℕ) (v : ℕ) (s : Session)
    → Returns (active_venue none venues) s v s ↔ (is_active_venue none venues v ≡ true)
unfolding active_venue ◌>>=◌
no_header_iff venues v s = elim (Option-cases (the_only venues)) [
  | inl e ↦ (
    λ h.
        let refused = rw (active_venue, e) at h in
        elim (Bool-cases (is_empty venues)) [
          | inl f ↦ let failed = rw f at refused in cc
          | inr f ↦ let failed = rw f at refused in cc
        ],
    λ h. let found = (the_only_iff venues v).1 h in let bad : none ≡ some v = sym e ∙ found in cc,
  )
  | inr (w, e) ↦ (
    λ h. (the_only_iff venues v).0 (e ∙ ap some (value w w v (rw (active_venue, e) at h))),
    λ h. rw (active_venue, (the_only_iff venues v).1 h) refl,
  )
]

-- Which venue a request of a member of staff acts at: the one in the header if it is one of theirs,
-- and without a header the only one that they have; otherwise the request is refused.
pub active_venue_iff :
    (header : Option ℕ) (venues : List ℕ) (v : ℕ) (s : Session)
    → Returns (active_venue header venues) s v s ↔ (is_active_venue header venues v ≡ true)
active_venue_iff none venues v s = no_header_iff venues v s
active_venue_iff (some x) venues v s = header_iff x venues v s
