-- ===== src/Auth/Service/Verification.antt =====
-- `resend_verification` and `verify_email` of auth/service.py, one after the other.
use Prim.Native.String.{String}
use pikol_backend.Common.{
  ℕ, ◌+◌, ◌<◌, ◌≡◌, refl, sym, ◌∙◌, Bool, true, false, ◌&&◌, none, some, List, [], ◌∷◌, map, any,
  find?, arith, ◌==◌, nat_eq, string_eq, eqb_iff, find?-holds, find?-absent, find?-sound,
  and-true_split, Bool-cases, Option-cases, inl, inr, if◌then◌else◌,
}
use mathlib.Core.Path.{subst}
use pikol_backend.Time.{Instant}
use pikol_backend.Auth.Models.{email_verification}
use pikol_backend.Auth.Security.{Crypto}
use pikol_backend.Users.Models.{UserRow}
use pikol_backend.Users.Repository.{get_by_email, get_by_id, is_live_account, assign_user}
use pikol_backend.Auth.Service.{
  verification_ttl, resend_verification, mail_token, verify_email, consume_token,
}
use pikol_backend.Auth.Service.Links.{
  is_fresh, issued, with_tokens, issue_token-Returns, consume_issued, consumed,
}
use pikol_backend.Database.{Accounts, Session, ◌>>=◌}
use pikol_backend.Database.Runs.{Returns}
use pikol_backend.Database.Ends.{wrote, made_durable}

abbrev pub activated : Instant → UserRow → UserRow
activated now u = record u { email_verified_at = some now; is_active = true }

abbrev pub is_active_account : ℕ → UserRow → Bool
is_active_account id v = v.id == id && v.is_active

assigned_active :
    (id : ℕ) (now : Instant) (users : List UserRow)
    → any (λ v. v.id == id) users ≡ true
    → any (is_active_account id) (map (λ u. if u.id == id then activated now u else u) users) ≡ true
assigned_active id now [] h = h
assigned_active id now (u ∷ users) h = elim (Bool-cases (u.id == id)) [
  | inl e ↦ rw e (ground (arith))
  | inr e ↦ rw e (ground (arith, assigned_active id now users))
]

-- An account that is found by its email is found by its key, as some row with that key.
by_id_of_email :
    (lower : String → String) (email : String) (a : Accounts) (u : UserRow)
    → get_by_email lower email a ≡ some u
    → (w : UserRow) × (get_by_id u.id a ≡ some w) × (w.id ≡ u.id)
by_id_of_email lower email a u h =
    let found = find?-sound (λ v. lower v.email == lower email && is_live_account v) a.users u h in
    let live : (u.id == u.id && is_live_account u) ≡ true = ground (arith, eqb_iff u.id u.id) in
    let there =
      find?-holds (λ v. lower v.email == lower email && is_live_account v)
        (λ v. v.id == u.id && is_live_account v) a.users u h live in
    elim (Option-cases (get_by_id u.id a)) [
      | inl e ↦
          let absent = find?-absent (λ v. v.id == u.id && is_live_account v) a.users e in
          let bad : true ≡ false = sym there ∙ absent in cc
      | inr (w, e) ↦
          (w, e, (eqb_iff w.id u.id).0 (and-true_split _ _ (find?-sound _ a.users w e)).0)
    ]

id_there :
    (id : ℕ) (users : List UserRow) (w : UserRow)
    → find? (λ v. v.id == id && is_live_account v) users ≡ some w
    → any (λ v. v.id == id) users ≡ true
id_there id users w h =
    find?-holds (λ v. v.id == id && is_live_account v) (λ v. v.id == id) users w h
      (and-true_split _ _ (find?-sound (λ v. v.id == id && is_live_account v) users w h)).0

resend-Returns :
    (c : Crypto) (email raw : String) (now : Instant) (u : UserRow) (s : Session)
    → get_by_email c.lower email s.tables.accounts ≡ some u
    → u.email_verified_at ≡ none
    → is_fresh c raw s.tables.accounts ≡ true
    → Returns (resend_verification c email raw now) s (some (u, raw)) (
        made_durable
          (wrote (with_tokens (issued c u.id email_verification verification_ttl raw now)) s))
unfolding resend_verification mail_token ◌>>=◌
resend-Returns c email raw now u s h n fresh = rw h (
    rw n (rw (issue_token-Returns c u.id email_verification verification_ttl raw now s fresh) refl))

verify-Returns :
    (c : Crypto) (raw : String) (at : Instant) (w : UserRow) (s : Session)
    → Returns (consume_token c raw email_verification at) s w (consumed c raw at s)
    → Returns (verify_email c raw at) s tt (
        made_durable (
          wrote
            (λ t. record t { accounts = assign_user w.id (activated at) t.accounts })
            (consumed c raw at s)))
unfolding verify_email ◌>>=◌
verify-Returns c raw at w s h = rw h refl

-- An account that has not verified its email, deactivated or not, becomes active by itself: a
-- verification can be asked for anew, and its link, opened within 24 hours, makes the account active.
pub resend_then_verify :
    (c : Crypto) (email raw : String) (now at : Instant) (u : UserRow) (s : Session)
    → get_by_email c.lower email s.tables.accounts ≡ some u
    → u.email_verified_at ≡ none
    → is_fresh c raw s.tables.accounts ≡ true
    → at < now + verification_ttl
    → (s' : Session) × (s'' : Session) × Returns
        (resend_verification c email raw now)
        s
        (some (u, raw))
        s'
      × Returns (verify_email c raw at) s' tt s''
      × (any (is_active_account u.id) s''.committed.accounts.users ≡ true)
resend_then_verify c email raw now at u s h n fresh le =
    let a = s.tables.accounts in
    let (w, found, same) = by_id_of_email c.lower email a u h in
    let s' =
      made_durable
        (wrote (with_tokens (issued c u.id email_verification verification_ttl raw now)) s) in
    (
      s',
      _,
      resend-Returns c email raw now u s h n fresh,
      verify-Returns c raw at w s' (
          consume_issued c u.id email_verification verification_ttl raw now at w a.user_tokens s'
            refl (ground (arith)) found le),
      subst
          (λ i.
            any (is_active_account i)
              (map (λ v. if v.id == w.id then activated at v else v) a.users)
            ≡ true)
          same
          (assigned_active w.id at a.users (
            subst (λ i. any (λ v. v.id == i) a.users ≡ true) (sym same)
              (id_there u.id a.users w found))),
    )
