-- ===== src/Auth/Service/Links.antt =====
-- `issue_token` and `consume_token` of auth/service.py: the links that are mailed.
use Prim.Native.String.{String}
use pikol_backend.Common.{
  ℕ, ◌+◌, ◌<◌, ◌≡◌, refl, sym, ◌∙◌, Bool, true, false, not, Option, none, some, List, [], ◌∷◌, ◌++◌,
  map, any, select, find?, arith, ◌==◌, nat_eq, string_eq, eqb_iff, ltb_iff, find?-none,
  find?-sound, find?-append, find?-select, any-select-false, and-true_split, Bool-cases, inl, inr,
  if◌then◌else◌,
}
use mathlib.Core.Path.{subst}
use pikol_backend.Time.{Instant}
use pikol_backend.Errors.{Error, ok, err}
use pikol_backend.Auth.Models.{TokenPurpose, UserToken, purpose_eq, purpose_index_iff}
use pikol_backend.Auth.Security.{Crypto}
use pikol_backend.Users.Models.{UserRow}
use pikol_backend.Users.Repository.{get_by_id}
use pikol_backend.Auth.Service.{
  is_unused, is_open, new_token, issue_token, use_token, consume_token, link_error,
}
use pikol_backend.Database.{Accounts, Tables, Session, or_raise, ◌>>=◌}
use pikol_backend.Database.Runs.{Returns, IsQuery-or_raise}
use pikol_backend.Database.Ends.{Ends, Ends-gets, Ends-query, Ends-modify, Ends-pure, wrote}

-- The tokens that `issue_token` leaves: without the earlier unused ones, and with the new one.
abbrev pub issued :
    Crypto → ℕ → TokenPurpose → ℕ → String → Instant → List UserToken → List UserToken
issued c user purpose ttl raw now rows =
    select (λ t. not (is_unused user purpose t)) rows
    ++ new_token user purpose (c.sha256 raw) (now + ttl) ∷ []

abbrev pub with_tokens : (List UserToken → List UserToken) → Tables → Tables
with_tokens f t = record t {
  accounts = record t.accounts { user_tokens = f t.accounts.user_tokens };
}

-- The drawn token is not known yet.
abbrev pub is_fresh : Crypto → String → Accounts → Bool
is_fresh c raw a = not (any (λ t. t.token_hash == c.sha256 raw) a.user_tokens)

pub issue_token-Returns :
    (c : Crypto) (user : ℕ) (purpose : TokenPurpose) (ttl : ℕ) (raw : String) (now : Instant)
    (s : Session)
    → is_fresh c raw s.tables.accounts ≡ true
    → Returns
        (issue_token c user purpose ttl raw now)
        s
        raw
        (wrote (with_tokens (issued c user purpose ttl raw now)) s)
unfolding issue_token ◌>>=◌
issue_token-Returns c user purpose ttl raw now s h =
    let unknown =
      any-select-false (λ t. t.token_hash == c.sha256 raw) (λ t. not (is_unused user purpose t))
        s.tables.accounts.user_tokens (ground (arith)) in
    rw unknown refl

-- An open token is one with that hash.
not_open :
    (hash : String) (purpose : TokenPurpose) (now : Instant) (t : UserToken)
    → is_open hash purpose now t ≡ true
    → (t.token_hash == hash) ≡ true
not_open hash purpose now t h = ground arith

no_open :
    (hash : String) (purpose : TokenPurpose) (now : Instant) (rows : List UserToken)
    → any (λ t. t.token_hash == hash) rows ≡ false
    → any (is_open hash purpose now) rows ≡ false
no_open hash purpose now [] h = refl
no_open hash purpose now (t ∷ rows) h =
    ground (arith, not_open hash purpose now t, no_open hash purpose now rows)

new_is_open :
    (c : Crypto) (user : ℕ) (purpose : TokenPurpose) (ttl : ℕ) (raw : String) (now at : Instant)
    → at < now + ttl
    → is_open (c.sha256 raw) purpose at (new_token user purpose (c.sha256 raw) (now + ttl)) ≡ true
new_is_open c user purpose ttl raw now at h = ground (
  arith,
  string_eq.equals_iff (c.sha256 raw) (c.sha256 raw),
  purpose_index_iff purpose purpose,
  ltb_iff at (now + ttl),
)

abbrev pub consumed : Crypto → String → Instant → Session → Session
consumed c raw at s = wrote (λ t. record t { accounts = use_token (c.sha256 raw) at t.accounts }) s

-- Opening the link whose token was issued last.
pub consume_issued :
    (c : Crypto) (user : ℕ) (purpose : TokenPurpose) (ttl : ℕ) (raw : String) (now at : Instant)
    (u : UserRow) (rows : List UserToken) (s : Session)
    → s.tables.accounts.user_tokens ≡ issued c user purpose ttl raw now rows
    → any (λ t. t.token_hash == c.sha256 raw) rows ≡ false
    → get_by_id user s.tables.accounts ≡ some u
    → at < now + ttl
    → Returns (consume_token c raw purpose at) s u (consumed c raw at s)
unfolding consume_token ◌>>=◌
consume_issued c user purpose ttl raw now at u rows s e fresh account h =
    let kept = select (λ t. not (is_unused user purpose t)) rows in
    let fresh_token = new_token user purpose (c.sha256 raw) (now + ttl) in
    let unknown =
      any-select-false (λ t. t.token_hash == c.sha256 raw) (λ t. not (is_unused user purpose t))
        rows fresh in
    let opens = new_is_open c user purpose ttl raw now at h in
    let found : find? (is_open (c.sha256 raw) purpose at) (kept ++ fresh_token ∷ [])
        ≡ some fresh_token =
      find?-append _ kept (fresh_token ∷ []) (no_open (c.sha256 raw) purpose at kept unknown)
      ∙ rw opens refl in
    let first : find? (is_open (c.sha256 raw) purpose at) s.tables.accounts.user_tokens
        ≡ some fresh_token =
      subst (λ r. find? (is_open (c.sha256 raw) purpose at) r ≡ some fresh_token) (sym e) found in
    rw first (rw account refl)

-- A link works: once it is mailed, opening it before it expires gives the account that it was mailed to,
-- where that account is live and the drawn token was new.
pub issue_then_consume :
    (c : Crypto) (user : ℕ) (purpose : TokenPurpose) (ttl : ℕ) (raw : String) (now at : Instant)
    (u : UserRow) (s : Session)
    → is_fresh c raw s.tables.accounts ≡ true
    → get_by_id user s.tables.accounts ≡ some u
    → at < now + ttl
    → (s' : Session) × (s'' : Session) × Returns (issue_token c user purpose ttl raw now) s raw s'
      × Returns (consume_token c raw purpose at) s' u s''
issue_then_consume c user purpose ttl raw now at u s fresh account h =
    let s' = wrote (with_tokens (issued c user purpose ttl raw now)) s in
    (
      s',
      consumed c raw at s',
      issue_token-Returns c user purpose ttl raw now s fresh,
      consume_issued c user purpose ttl raw now at u s.tables.accounts.user_tokens s' refl
          (ground (arith)) account h,
    )

-- What a `consume_token` that returns has found and done.
pub record IsConsumed (hash : String) (purpose : TokenPurpose) (now : Instant) (u : UserRow)
    (s s' : Session) : Type 0 where
  pub token : UserToken
  pub found : find? (is_open hash purpose now) s.tables.accounts.user_tokens ≡ some token
  pub account : get_by_id token.user_id s.tables.accounts ≡ some u
  pub used : s' ≡ wrote (λ t. record t { accounts = use_token token.token_hash now t.accounts }) s

pub or_raise-some :
    {A : Type 0} (o : Option A) (e : Error) (s : Session) (a : A)
    → (or_raise o e s).0 ≡ ok a
    → o ≡ some a
unfolding ◌>>=◌
or_raise-some none e s a h = cc
or_raise-some (some b) e s a h = cc

pub consume_token-Ends :
    (c : Crypto) (raw : String) (purpose : TokenPurpose) (now : Instant) (s : Session)
    → Ends
        (λ u s'. IsConsumed (c.sha256 raw) purpose now u s s')
        (consume_token c raw purpose now)
        s
unfolding consume_token
consume_token-Ends c raw purpose now s =
    let a = s.tables.accounts in
    Ends-gets _ _ (
      Ends-query _ _ (IsQuery-or_raise _ _) (λ token f. Ends-gets _ _ (
        Ends-query _ _ (IsQuery-or_raise _ _) (λ u g. Ends-modify _ _ (
          Ends-pure _ (record {
            token = token;
            found =
                or_raise-some (find? (is_open (c.sha256 raw) purpose now) a.user_tokens) _ s token
                  f;
            account = or_raise-some (get_by_id token.user_id a) _ s u g;
            used = refl;
          }))))))

abbrev marked : String → Instant → List UserToken → List UserToken
marked hash now rows =
    map (λ t. if t.token_hash == hash then record t { used_at = some now } else t) rows

used_hash :
    (hash : String) (now : Instant) (purpose : TokenPurpose) (now' : Instant)
    (rows : List UserToken)
    → any (is_open hash purpose now') (marked hash now rows) ≡ false
used_hash hash now purpose now' [] = refl
used_hash hash now purpose now' (t ∷ rows) = elim (Bool-cases (t.token_hash == hash)) [
  | inl e ↦ rw e (ground (arith, used_hash hash now purpose now' rows))
  | inr e ↦ rw e (ground (arith, used_hash hash now purpose now' rows))
]

pub shut_after_use :
    (hash : String) (now : Instant) (purpose : TokenPurpose) (now' : Instant)
    (rows : List UserToken)
    → find? (is_open hash purpose now') (marked hash now rows) ≡ none
shut_after_use hash now purpose now' rows =
    find?-none (is_open hash purpose now') (marked hash now rows)
      (used_hash hash now purpose now' rows)

-- A link works once. When a link has been opened, opening it again, for any purpose and at any clock,
-- is refused and changes nothing.
pub consume_once :
    (c : Crypto) (raw : String) (purpose purpose' : TokenPurpose) (now now' : Instant) (u : UserRow)
    (s s' : Session)
    → Returns (consume_token c raw purpose now) s u s'
    → consume_token c raw purpose' now' s' ≡ (err link_error, s')
unfolding consume_token ◌>>=◌
consume_once c raw purpose purpose' now now' u s s' h =
    let k = (consume_token-Ends c raw purpose now s).shown u s' h in
    let hash = c.sha256 raw in
    let same : k.token.token_hash ≡ hash = (string_eq.equals_iff k.token.token_hash hash).0 (
      not_open hash purpose now k.token
        (find?-sound _ s.tables.accounts.user_tokens k.token k.found)) in
    let shut : find? (is_open hash purpose' now') s'.tables.accounts.user_tokens ≡ none =
      rw k.used (rw same (shut_after_use hash now purpose' now' s.tables.accounts.user_tokens)) in
    rw shut refl

open_is_unused :
    (user : ℕ) (hash : String) (purpose : TokenPurpose) (now : Instant) (t : UserToken)
    → is_open hash purpose now t ≡ true
    → not (is_unused user purpose t) ≡ true
    → (t.user_id == user) ≡ false
open_is_unused user hash purpose now t h k = ground arith

other_link :
    (hash old : String) (user : ℕ) (purpose purpose' : TokenPurpose) (expires at : Instant)
    → (hash == old) ≡ false
    → any (is_open old purpose' at) (new_token user purpose hash expires ∷ []) ≡ false
other_link hash old user purpose purpose' expires at h = ground arith

-- Only the latest link works. Once a new link is mailed to an account, no other link for the same purpose
-- opens that account, at any clock.
pub only_latest_link :
    (c : Crypto) (user : ℕ) (purpose : TokenPurpose) (ttl : ℕ) (raw old : String) (now at : Instant)
    (s : Session)
    → is_fresh c raw s.tables.accounts ≡ true
    → (c.sha256 raw == c.sha256 old) ≡ false
    → (s' : Session) × Returns (issue_token c user purpose ttl raw now) s raw s'
      × Ends (λ u _. (u.id == user) ≡ false) (consume_token c old purpose at) s'
only_latest_link c user purpose ttl raw old now at s fresh apart =
    let s' = wrote (with_tokens (issued c user purpose ttl raw now)) s in
    let rows = s.tables.accounts.user_tokens in
    (
      s',
      issue_token-Returns c user purpose ttl raw now s fresh,
      record {
        shown = λ u s'' h.
            let k = (consume_token-Ends c old purpose at s').shown u s'' h in
            let opened =
              find?-sound (is_open (c.sha256 old) purpose at)
                (issued c user purpose ttl raw now rows) k.token k.found in
            let owner =
              (eqb_iff u.id k.token.user_id).0
                (and-true_split _ _ (find?-sound _ s.tables.accounts.users u k.account)).0 in
            elim (find?-select (is_open (c.sha256 old) purpose at)
              (λ t. not (is_unused user purpose t)) rows _ k.token k.found) [
                | inl kept ↦
                    subst (λ i. (i == user) ≡ false) (sym owner)
                      (open_is_unused user (c.sha256 old) purpose at k.token opened kept)
                | inr last ↦
                    let shut =
                      find?-none (is_open (c.sha256 old) purpose at)
                        (new_token user purpose (c.sha256 raw) (now + ttl) ∷ [])
                        (other_link (c.sha256 raw) (c.sha256 old) user purpose purpose (now + ttl)
                          at apart) in
                    let bad : none ≡ some k.token = sym shut ∙ last in cc
              ];
      },
    )
