-- ===== src/Users/Service/Password.antt =====
-- `change_password` of users/service.py, and the sign-ins after it.
use Prim.Native.String.{String}
use pikol_backend.Common.{
  ℕ, ◌≡◌, ◌↔◌, refl, sym, ap, ◌∙◌, Bool, true, false, some, List, [], ◌∷◌, find?, map, not, select,
  any, is_none, arith, ◌==◌, nat_eq, eqb_iff, Bool-cases, inl, inr, if◌then◌else◌, ◌&&◌, string_eq,
}
use mathlib.Core.Path.{subst}
use pikol_backend.Time.{Instant}
use pikol_backend.Auth.Models.{RefreshToken}
use pikol_backend.Auth.Security.{Crypto, verify_password}
use pikol_backend.Auth.Service.{authenticate, is_live_of, revoke_all, revoke_where}
use pikol_backend.Auth.Service.Rotation.{none_live}
use pikol_backend.Auth.Service.SignIn.{authenticate_iff, MaySignIn}
use pikol_backend.Users.Models.{UserRow}
use pikol_backend.Users.Repository.{get_by_email, assign_user, is_live_account}
use pikol_backend.Users.Service.{change_password}
use pikol_backend.Users.Service.Deactivation.{next_session}
use pikol_backend.Database.{Accounts, Session, ◌>>=◌}
use pikol_backend.Database.Runs.{Returns}

abbrev pub with_hash : String → UserRow → UserRow
with_hash hash u = record u { password_hash = some hash }

and_true : (b : Bool) → (b && true) ≡ b
and_true true = refl
and_true false = refl

module _ {A : Type 0} where
  find?-map :
      (p : A → Bool) (f : A → A) (xs : List A) (x : A)
      → ((y : A) → p (f y) ≡ p y)
      → find? p xs ≡ some x
      → find? p (map f xs) ≡ some (f x)
  find?-map p f [] x k h = cc
  find?-map p f (y ∷ xs) x k h = elim (Bool-cases (p y)) [
    | inl e ↦ let first : some y ≡ some x = rw e at h in rw (k y) (rw e (ground (arith)))
    | inr e ↦
        let later : find? p xs ≡ some x = rw e at h in rw (k y) (rw e (find?-map p f xs x k later))
  ]

  -- A map that changes only what a selection leaves out.
  select-map :
      (q : A → Bool) (f : A → A)
      → ((x : A) → q (f x) ≡ q x)
      → ((x : A) → q x ≡ true → f x ≡ x)
      → (xs : List A) → select q (map f xs) ≡ select q xs
  select-map q f k same [] = refl
  select-map q f k same (x ∷ xs) = elim (Bool-cases (q x)) [
    | inl e ↦ rw (k x, e, same x e, select-map q f k same xs) refl
    | inr e ↦ rw (k x, e, select-map q f k same xs) refl
  ]

abbrev pub is_other : ℕ → UserRow → Bool
is_other id v = not (v.id == id)

abbrev pub is_of_other : ℕ → RefreshToken → Bool
is_of_other id r = not (r.user_id == id)

other_accounts :
    (id : ℕ) (hash : String) (users : List UserRow)
    → select (is_other id) (map (λ v. if v.id == id then with_hash hash v else v) users)
      ≡ select (is_other id) users
other_accounts id hash =
    select-map (is_other id) (λ v. if v.id == id then with_hash hash v else v)
      (λ v. elim (Bool-cases (v.id == id)) [ inl e ↦ rw e (ap not e) | inr e ↦ rw e (ap not e) ])
      (λ v h. elim (Bool-cases (v.id == id)) [
        | inl e ↦ let bad : false ≡ true = rw e at h in cc
        | inr e ↦ rw e refl
      ])

other_tokens :
    (id : ℕ) (now : Instant) (rows : List RefreshToken)
    → select
        (is_of_other id)
        (map (λ r. if is_live_of id r then record r { revoked_at = some now } else r) rows)
      ≡ select (is_of_other id) rows
other_tokens id now =
    select-map (is_of_other id)
      (λ r. if is_live_of id r then record r { revoked_at = some now } else r)
      (λ r. elim (Bool-cases (is_live_of id r)) [ inl e ↦ rw e refl | inr e ↦ rw e refl ])
      (λ r h. elim (Bool-cases (r.user_id == id)) [
        | inl e ↦ let bad : false ≡ true = rw e at h in cc
        | inr e ↦ rw e refl
      ])

same_email :
    (lower : String → String) (email hash : String) (id : ℕ) (u : UserRow)
    → (let v = if u.id == id then with_hash hash u else u in
        lower v.email == lower email && is_live_account v)
      ≡ (lower u.email == lower email && is_live_account u)
same_email lower email hash id u = elim (Bool-cases (u.id == id)) [
  | inl e ↦ rw e refl
  | inr e ↦ rw e refl
]

found_with_hash :
    (lower : String → String) (email hash : String) (u : UserRow) (a : Accounts)
    → get_by_email lower email a ≡ some u
    → get_by_email lower email (assign_user u.id (with_hash hash) a) ≡ some (with_hash hash u)
found_with_hash lower email hash u a h =
    let there =
      find?-map (λ v. lower v.email == lower email && is_live_account v)
        (λ v. if v.id == u.id then with_hash hash v else v) a.users u
        (same_email lower email hash u.id) h in
    let own : (u.id == u.id) ≡ true = (eqb_iff u.id u.id).1 refl in rw own at there

-- A hash that is not the empty string is not replaced by the one that stands in for none.
verify_hash :
    (c : Crypto) (p hash : String)
    → (hash == "") ≡ false
    → verify_password c p (some hash) ≡ c.check_hash hash p
unfolding verify_password
verify_hash c p hash n = rw n (and_true (c.check_hash hash p))

signs_in_with :
    (c : Crypto) (email hash p : String) (u v : UserRow) (s : Session)
    → (hash == "") ≡ false
    → get_by_email c.lower email s.tables.accounts ≡ some (with_hash hash u)
    → Returns (authenticate c email p) s v s
      ↔ (v ≡ with_hash hash u)
        × (c.check_hash hash p ≡ true)
        × (is_none u.email_verified_at ≡ false)
        × (u.is_active ≡ true)
signs_in_with c email hash p u v s n h = (
  λ r.
      let (found, may) = (authenticate_iff c email p v s).0 r in
      let same : v ≡ with_hash hash u = ground (arith, found, h) in
      let (right, verified, active) = subst (MaySignIn c p) same may in
      (same, sym (verify_hash c p hash n) ∙ right, verified, active),
  λ (same, right, verified, active). (authenticate_iff c email p v s).1 (
    h ∙ (λ i. some (sym same i)),
    subst (MaySignIn c p) (sym same) (verify_hash c p hash n ∙ right, verified, active),
  ),
)

-- When an account gives its password rightly (the hash of the new one not being empty) and changes
-- it, the change returns, and from the commit on a password signs the account in exactly if it
-- matches the hash of the new one (the email being verified and the account active), and no refresh
-- token of the account is live, while no other account and no token of another has changed.
pub changed_password_signs_in :
    (c : Crypto) (email current fresh : String) (now : Instant) (u : UserRow) (s : Session)
    → get_by_email c.lower email s.tables.accounts ≡ some u
    → verify_password c current u.password_hash ≡ true
    → (c.hash_password fresh == "") ≡ false
    → (s' : Session) × Returns (change_password c u current fresh now) s tt s'
      × ((p : String) (v : UserRow)
          → Returns (authenticate c email p) (next_session s') v (next_session s')
            ↔ (v ≡ with_hash (c.hash_password fresh) u)
              × (c.check_hash (c.hash_password fresh) p ≡ true)
              × (is_none u.email_verified_at ≡ false)
              × (u.is_active ≡ true))
      × (any (is_live_of u.id) s'.committed.accounts.refresh_tokens ≡ false)
      × (select (is_other u.id) s'.committed.accounts.users
          ≡ select (is_other u.id) s.tables.accounts.users)
      × (select (is_of_other u.id) s'.committed.accounts.refresh_tokens
          ≡ select (is_of_other u.id) s.tables.accounts.refresh_tokens)
unfolding change_password revoke_all ◌>>=◌
changed_password_signs_in c email current fresh now u s found right n =
    let stored = with_hash (c.hash_password fresh) in
    let t = record s.tables {
      accounts = revoke_where (is_live_of u.id) now (assign_user u.id stored s.tables.accounts);
    } in
    let changed = found_with_hash c.lower email (c.hash_password fresh) u s.tables.accounts found in
    (
      record s { tables = t; committed = t },
      rw right refl,
      λ p v. signs_in_with c email (c.hash_password fresh) p u v _ n changed,
      none_live u.id now s.tables.accounts.refresh_tokens,
      other_accounts u.id (c.hash_password fresh) s.tables.accounts.users,
      other_tokens u.id now s.tables.accounts.refresh_tokens,
    )
