-- ===== src/Auth/Service/Replay.antt =====
-- `refresh` of auth/service.py run twice with one token.
use Prim.Native.String.{String}
use pikol_backend.Common.{
  ℕ, ◌≤◌, ◌≡◌, refl, sym, true, false, not, ◌&&◌, Option, none, some, List, [], ◌∷◌, ◌++◌, map, any,
  count, find?, arith, ◌==◌, nat_eq, eqb_iff, find?-none, find?-any, find?-sound, any-append,
  Bool-cases, and-true_split, Option-cases, inl, inr,
}
use mathlib.Core.Path.{subst}
use pikol_backend.Time.{Instant}
use pikol_backend.Errors.{Result, ok, err}
use pikol_backend.Auth.Models.{RefreshToken}
use pikol_backend.Auth.Security.{
  Crypto, Settings, Claims, decode, invalid_token_error, refresh_expiry,
}
use pikol_backend.Users.Models.{UserRow}
use pikol_backend.Users.Repository.{get_by_id}
use pikol_backend.Auth.Service.{
  TokenPair, has_jti, is_current, is_live_of, owner_of, issue_pair, reissue, rotate, after_rotation,
  refuse_replay, revoke_family, revoke_all, refresh,
}
use pikol_backend.Auth.Service.Rotation.{
  rotated, none_current, first_rotated, none_live, nothing_revoked,
}
use pikol_backend.Database.{Accounts, Session, lift, or_raise, commit, ◌>>=◌}
use pikol_backend.Database.Runs.{Returns, IsQuery-lift, IsQuery-or_raise}
use pikol_backend.Database.Ends.{
  Ends, Ends-gets, Ends-query, Ends-raise_if, Ends-modify, Ends-commit, Ends-pure, Ends-bind,
  Ends-if, Ends-then_raise,
}

abbrev pub new_refresh_token : Settings → ℕ → ℕ → Instant → RefreshToken
new_refresh_token settings user jti now = record {
  user_id = user;
  jti = jti;
  expires_at = refresh_expiry settings now;
  revoked_at = none;
}

-- The rows that a rotation leaves: the old ones, of which one is revoked, and a new one.
pub record IsRotated (settings : Settings) (new_jti : ℕ) (now : Instant) (row : RefreshToken)
    (jti : ℕ) (old : List RefreshToken) (s' : Session) : Type 0 where
  pub found : find? (is_current jti now) old ≡ some row
  pub fresh : any (has_jti new_jti) (map (rotated jti now) old) ≡ false
  pub rows :
      s'.tables.accounts.refresh_tokens
      ≡ map (rotated jti now) old ++ new_refresh_token settings row.user_id new_jti now ∷ []
  pub durable : s'.committed ≡ s'.tables

module _ (c : Crypto) (settings : Settings) (jti new_jti : ℕ) (now : Instant)
    (old : List RefreshToken) where
  -- The account is the one that the row names.
  abbrev Named : Option UserRow → RefreshToken → Type 0
  Named none row = Unit {0}
  Named (some u) row = u.id ≡ row.user_id

  reissue-Ends :
      (account : Option UserRow) (row : RefreshToken) (s : Session)
      → Named account row
      → find? (is_current jti now) old ≡ some row
      → s.tables.accounts.refresh_tokens ≡ map (rotated jti now) old
      → Ends
          (λ _ s'. IsRotated settings new_jti now row jti old s')
          (reissue c settings account new_jti now)
          s
  unfolding reissue issue_pair
  reissue-Ends none row s n f e = Ends-then_raise commit _
  reissue-Ends (some u) row s n f e =
      Ends-if (not u.is_active) _ _ (λ _. Ends-then_raise commit _)
        (λ _. Ends-bind _ _ (
          Ends-gets _ _ (
            Ends-raise_if _ _ _ (λ unknown. Ends-modify _ _ (
              Ends-pure _ (
                Ends-commit _ (
                  Ends-pure _ (record {
                    found = f;
                    fresh = subst (λ rows. any (has_jti new_jti) rows ≡ false) e unknown;
                    rows = λ i. e i ++ new_refresh_token settings (n i) new_jti now ∷ [];
                    durable = refl;
                  }))))))))

  account-Named : (row : RefreshToken) (a : Accounts) → Named (get_by_id row.user_id a) row
  account-Named row a = elim (Option-cases (get_by_id row.user_id a)) [
    | inl e ↦ subst (λ o. Named o row) (sym e) tt
    | inr (u, e) ↦
        subst (λ o. Named o row) (sym e)
          ((eqb_iff u.id row.user_id).0 (and-true_split _ _ (find?-sound _ a.users u e)).0)
  ]

  after_rotation-Ends :
      (found : Option RefreshToken) (s : Session)
      → find? (is_current jti now) old ≡ found
      → s.tables.accounts.refresh_tokens ≡ map (rotated jti now) old
      → Ends
          (λ _ s'. (row : RefreshToken) × IsRotated settings new_jti now row jti old s')
          (after_rotation c settings jti (owner_of found) new_jti now)
          s
  unfolding after_rotation refuse_replay
  after_rotation-Ends none s f e = Ends-gets _ _ (Ends-then_raise (revoke_family _ now) _)
  after_rotation-Ends (some row) s f e = Ends-gets _ _ (record {
    shown = λ pair s' h. (
      row,
      (reissue-Ends (get_by_id row.user_id s.tables.accounts) row s
            (account-Named row s.tables.accounts) f e).shown
          pair s' h,
    );
  })

-- What a `refresh` that returns has found and done.
pub record IsRefreshed (c : Crypto) (settings : Settings) (raw : String) (new_jti : ℕ)
    (now : Instant) (old : List RefreshToken) (s' : Session) : Type 0 where
  pub claims : Claims
  pub jti : ℕ
  pub row : RefreshToken
  pub decoded : decode c raw "refresh" now ≡ ok claims
  pub named : claims.jti ≡ some jti
  pub rotation : IsRotated settings new_jti now row jti old s'

or_raise_ok :
    (o : Option ℕ) (s : Session) (a : ℕ) → (or_raise o invalid_token_error s).0 ≡ ok a → o ≡ some a
unfolding ◌>>=◌
or_raise_ok none s a h = cc
or_raise_ok (some b) s a h = cc

pub refresh-Ends :
    (c : Crypto) (settings : Settings) (raw : String) (new_jti : ℕ) (now : Instant) (s : Session)
    → Ends
        (λ _ s'. IsRefreshed c settings raw new_jti now s.tables.accounts.refresh_tokens s')
        (refresh c settings raw new_jti now)
        s
unfolding refresh rotate lift
refresh-Ends c settings raw new_jti now s =
    let old = s.tables.accounts.refresh_tokens in
    Ends-query _ _ (IsQuery-lift _) (λ claims d.
      Ends-query _ _ (IsQuery-or_raise claims.jti _) (λ jti n. Ends-bind _ _ (
        Ends-gets _ _ (
          Ends-modify _ _ (
            Ends-pure _ (record {
              shown = λ pair s' h.
                  let (row, rotation) =
                    (after_rotation-Ends c settings jti new_jti now old
                        (find? (is_current jti now) old) _ refl refl).shown
                      pair s' h in
                  record {
                    claims = claims;
                    jti = jti;
                    row = row;
                    decoded = d;
                    named = or_raise_ok claims.jti s jti n;
                    rotation = rotation;
                  };
            }))))))

-- The answer to a token that is revoked already: its user's tokens are all revoked, for good.
abbrev pub IsShut : ℕ → Result TokenPair × Session → Type 0
IsShut user run =
    (run.0 ≡ err invalid_token_error)
    × (any (is_live_of user) run.1.committed.accounts.refresh_tokens ≡ false)

refuse_replay_shuts :
    (jti : ℕ) (row : RefreshToken) (now at : Instant) (s : Session)
    → find? (has_jti jti) s.tables.accounts.refresh_tokens ≡ some row
    → row.revoked_at ≡ some at
    → IsShut row.user_id (refuse_replay jti now s)
unfolding refuse_replay revoke_family revoke_all ◌>>=◌
refuse_replay_shuts jti row now at s f r =
    rw f (rw r (refl, none_live row.user_id now s.tables.accounts.refresh_tokens))

rotated_revoked :
    (jti : ℕ) (now : Instant) (r : RefreshToken)
    → is_current jti now r ≡ true
    → ((rotated jti now r).revoked_at ≡ some now) × ((rotated jti now r).user_id ≡ r.user_id)
rotated_revoked jti now r h = rw h (refl, refl)

no_rotation :
    (jti : ℕ) (now : Instant) (s : Session)
    → any (is_current jti now) s.tables.accounts.refresh_tokens ≡ false
    → Returns (rotate jti now) s none s
unfolding rotate ◌>>=◌
no_rotation jti now s h =
    let rows = s.tables.accounts.refresh_tokens in
    λ i. (
      ok (owner_of (find?-none (is_current jti now) rows h i)),
      record s {
        tables = record s.tables {
          accounts = record s.tables.accounts {
            refresh_tokens = nothing_revoked (is_current jti now) now rows h i;
          };
        };
      },
    )

-- A refresh with a token whose row is revoked.
second_refresh :
    (c : Crypto) (settings : Settings) (raw : String) (claims : Claims) (jti new_jti : ℕ)
    (now at : Instant) (row : RefreshToken) (s : Session)
    → decode c raw "refresh" now ≡ ok claims
    → claims.jti ≡ some jti
    → any (is_current jti now) s.tables.accounts.refresh_tokens ≡ false
    → find? (has_jti jti) s.tables.accounts.refresh_tokens ≡ some row
    → row.revoked_at ≡ some at
    → IsShut row.user_id (refresh c settings raw new_jti now s)
unfolding refresh after_rotation ◌>>=◌
second_refresh c settings raw claims jti new_jti now at row s d n e f r =
    rw d (rw n (rw (no_rotation jti now s e) (refuse_replay_shuts jti row now at s f r)))

new_not_current :
    (settings : Settings) (user new_jti jti : ℕ) (now now' : Instant)
    → (new_jti == jti) ≡ false
    → is_current jti now' (new_refresh_token settings user new_jti now) ≡ false
new_not_current settings user new_jti jti now now' h = ground arith

-- The new key is not that of a row which is there.
other_key :
    (jti new_jti : ℕ) (now : Instant) (row : RefreshToken) (rows : List RefreshToken)
    → find? (has_jti jti) rows ≡ some row
    → any (has_jti new_jti) rows ≡ false
    → (new_jti == jti) ≡ false
other_key jti new_jti now row rows f h = elim (Bool-cases (new_jti == jti)) [
  | inr e ↦ e
  | inl e ↦
      let same = (eqb_iff new_jti jti).0 e in
      let there = find?-any (has_jti jti) rows row f in
      let absent = subst (λ j. any (has_jti j) rows ≡ false) same h in ground (arith, there, absent)
]

module _ (settings : Settings) (new_jti : ℕ) (now : Instant) (row : RefreshToken) (jti : ℕ)
    (old : List RefreshToken) (s' : Session) (h : IsRotated settings new_jti now row jti old s')
    (unique : count (has_jti jti) old ≤ 1) where
  first_after : find? (has_jti jti) s'.tables.accounts.refresh_tokens ≡ some (rotated jti now row)
  first_after =
      subst (λ rows. find? (has_jti jti) rows ≡ some (rotated jti now row)) (sym h.rows)
        (first_rotated jti now old _ row unique h.found)

  fresh_key : (new_jti == jti) ≡ false
  fresh_key =
      let first = first_rotated jti now old [] row unique h.found in
      other_key jti new_jti now (rotated jti now row) (map (rotated jti now) old ++ []) first
        (ground (arith, any-append (has_jti new_jti) (map (rotated jti now) old) [], h.fresh))

  none_after :
      (now' : Instant)
      → now ≤ now'
      → any (is_current jti now') s'.tables.accounts.refresh_tokens ≡ false
  none_after now' le =
      subst (λ rows. any (is_current jti now') rows ≡ false) (sym h.rows)
        (ground (
          arith,
          any-append (is_current jti now') (map (rotated jti now) old)
              (new_refresh_token settings row.user_id new_jti now ∷ []),
          none_current jti now now' old le,
          new_not_current settings row.user_id new_jti jti now now' fresh_key,
        ))

  new_is_live :
      any (λ r. is_live_of row.user_id r && has_jti new_jti r) s'.tables.accounts.refresh_tokens
      ≡ true
  new_is_live =
      subst (λ rows. any (λ r. is_live_of row.user_id r && has_jti new_jti r) rows ≡ true)
        (sym h.rows)
        (ground (
          arith,
          any-append (λ r. is_live_of row.user_id r && has_jti new_jti r)
              (map (rotated jti now) old) (new_refresh_token settings row.user_id new_jti now ∷ []),
          eqb_iff row.user_id row.user_id,
          eqb_iff new_jti new_jti,
        ))

  row_current : is_current jti now row ≡ true
  row_current = find?-sound (is_current jti now) old row h.found

-- A refresh token works once. When a refresh has returned a new pair, a refresh with the old token at
-- any later clock at which it is still well signed is INVALID_TOKEN, and revokes for good every token
-- of the account, that of the new pair included; keys being unique in the ledger.
pub refresh_once :
    (c : Crypto) (settings : Settings) (raw : String) (new_jti new_jti' : ℕ) (now now' : Instant)
    (s s' : Session) (pair : TokenPair)
    → Returns (refresh c settings raw new_jti now) s pair s'
    → now ≤ now'
    → c.jwt_decode raw now' ≡ c.jwt_decode raw now
    → ((jti : ℕ) → count (has_jti jti) s.tables.accounts.refresh_tokens ≤ 1)
    → (user : ℕ) × (any
          (λ r. is_live_of user r && has_jti new_jti r)
          s'.tables.accounts.refresh_tokens
        ≡ true)
      × IsShut user (refresh c settings raw new_jti' now' s')
unfolding decode
refresh_once c settings raw new_jti new_jti' now now' s s' pair h le d unique =
    let r = (refresh-Ends c settings raw new_jti now s).shown pair s' h in
    let old = s.tables.accounts.refresh_tokens in
    let current = row_current settings new_jti now r.row r.jti old s' r.rotation (unique r.jti) in
    let (revoked, owner) = rotated_revoked r.jti now r.row current in
    (
      r.row.user_id,
      new_is_live settings new_jti now r.row r.jti old s' r.rotation (unique r.jti),
      subst (λ u. IsShut u (refresh c settings raw new_jti' now' s')) owner
          (second_refresh c settings raw r.claims r.jti new_jti' now' now (rotated r.jti now r.row)
            s' (rw d r.decoded) r.named
            (none_after settings new_jti now r.row r.jti old s' r.rotation (unique r.jti) now' le)
            (first_after settings new_jti now r.row r.jti old s' r.rotation (unique r.jti))
            revoked),
    )
