-- ===== src/Auth/Service/Rotation.antt =====
-- `refresh` of auth/service.py: the rotation of refresh tokens, and the answer to a replay.

use pikol_backend.Common.{
  ℕ, ◌≤◌, ◌≡◌, refl, ap, ◌∙◌, Bool, true, false, some, List, [], ◌∷◌, ◌++◌, map, any, count,
  count-pos, find?, arith, ◌==◌, nat_eq, find?-any, Bool-cases, inl, inr, if◌then◌else◌,
}
use pikol_backend.Time.{Instant}
use pikol_backend.Auth.Models.{RefreshToken}
use pikol_backend.Auth.Service.{has_jti, is_current, is_live_of}

-- A row after the conditional UPDATE.
abbrev pub rotated : ℕ → Instant → RefreshToken → RefreshToken
rotated jti now r = if is_current jti now r then record r { revoked_at = some now } else r

rotated_jti : (jti : ℕ) (now : Instant) (r : RefreshToken) → (rotated jti now r).jti ≡ r.jti
rotated_jti jti now r = elim (Bool-cases (is_current jti now r)) [
  | inl e ↦ rw e refl
  | inr e ↦ rw e refl
]

-- A row that is rotated is not current any more, at no later clock.
rotated_over :
    (jti : ℕ) (now now' : Instant) (r : RefreshToken)
    → now ≤ now'
    → is_current jti now' (rotated jti now r) ≡ false
rotated_over jti now now' r h = elim (Bool-cases (is_current jti now r)) [
  | inl e ↦ rw e (ground (arith))
  | inr e ↦ rw e (ground (arith))
]

pub none_current :
    (jti : ℕ) (now now' : Instant) (rows : List RefreshToken)
    → now ≤ now'
    → any (is_current jti now') (map (rotated jti now) rows) ≡ false
none_current jti now now' [] h = refl
none_current jti now now' (r ∷ rows) h =
    ground (arith, rotated_over jti now now' r h, none_current jti now now' rows h)

current_jti :
    (jti : ℕ) (now : Instant) (r : RefreshToken)
    → is_current jti now r ≡ true
    → has_jti jti r ≡ true
current_jti jti now r h = ground arith

-- Where keys are unique, a current row is the first with its key.
the_first :
    (jti : ℕ) (now : Instant) (x : RefreshToken) (rows : List RefreshToken) (r : RefreshToken)
    → count (has_jti jti) (x ∷ rows) ≤ 1
    → find? (is_current jti now) (x ∷ rows) ≡ some r
    → has_jti jti x ≡ true
    → x ≡ r
the_first jti now x rows r u h e = elim (Bool-cases (is_current jti now x)) [
  | inl f ↦ let found : some x ≡ some r = rw f at h in cc
  | inr f ↦
      let later : find? (is_current jti now) rows ≡ some r = rw f at h in
      let twice =
        count-pos (is_current jti now) (has_jti jti) (current_jti jti now) rows
          (find?-any (is_current jti now) rows r later) in
      let bad : true ≡ false = ground (arith, twice) in cc
]

not_current :
    (jti : ℕ) (now : Instant) (x : RefreshToken)
    → has_jti jti x ≡ false
    → is_current jti now x ≡ false
not_current jti now x h = ground arith

-- The row with that key is the one that was rotated, where keys are unique.
pub first_rotated :
    (jti : ℕ) (now : Instant) (rows more : List RefreshToken) (r : RefreshToken)
    → count (has_jti jti) rows ≤ 1
    → find? (is_current jti now) rows ≡ some r
    → find? (has_jti jti) (map (rotated jti now) rows ++ more) ≡ some (rotated jti now r)
first_rotated jti now [] more r u h = cc
first_rotated jti now (x ∷ rows) more r u h =
    let same : has_jti jti (rotated jti now x) ≡ has_jti jti x =
      ap (λ j. j == jti) (rotated_jti jti now x) in
    elim (Bool-cases (has_jti jti x)) [
      | inl e ↦
          rw (same ∙ e) (ap (λ y. some (rotated jti now y)) (the_first jti now x rows r u h e))
      | inr e ↦
          let later : find? (is_current jti now) rows ≡ some r =
            rw (not_current jti now x e) at h in
          rw (same ∙ e) (first_rotated jti now rows more r (ground (arith)) later)
    ]

pub none_live :
    (user : ℕ) (now : Instant) (rows : List RefreshToken)
    → any
        (is_live_of user)
        (map (λ r. if is_live_of user r then record r { revoked_at = some now } else r) rows)
      ≡ false
none_live user now [] = refl
none_live user now (r ∷ rows) = elim (Bool-cases (is_live_of user r)) [
  | inl e ↦ rw e (ground (arith, none_live user now rows))
  | inr e ↦ rw e (ground (arith, none_live user now rows))
]

-- An update whose condition no row meets.
pub nothing_revoked :
    (p : RefreshToken → Bool) (now : Instant) (rows : List RefreshToken)
    → any p rows ≡ false
    → map (λ r. if p r then record r { revoked_at = some now } else r) rows ≡ rows
nothing_revoked p now [] h = refl
nothing_revoked p now (r ∷ rows) h =
    let here : p r ≡ false = ground arith in
    rw here (ap (λ rs. r ∷ rs) (nothing_revoked p now rows (ground (arith))))
