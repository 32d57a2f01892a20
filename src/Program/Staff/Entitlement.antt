-- ===== src/Program/Staff/Entitlement.antt =====
-- What a caller has who gets past the dependencies of a staff endpoint (auth/access.py and
-- auth/dependencies.py), said of the tables.
use Prim.Native.String.{String}
use pikol_backend.Common.{
  ℕ, any_Any, ◌≡◌, ◌≢◌, refl, sym, ap, ◌∙◌, Bool, true, false, ◌&&◌, Option, none, some, List, [],
  ◌∷◌, Option-cases, ◌⊎◌, inl, inr, Bool-cases, elem, string_eq, Any, any, find?, find?-sound,
  arith, ◌==◌, nat_eq, option_eq, eqb_iff, and-true_split, is_none,
}
use mathlib.Core.Path.{subst}
use pikol_backend.Common.Dict.{not_same}
use pikol_backend.Auth.Security.{invalid_token_error}
use pikol_backend.Errors.{Error, Result, ok, err}
use pikol_backend.Time.{Instant}
use pikol_backend.Catalog.{VenueScope, everything}
use pikol_backend.Users.Domain.{customer, kind_eq}
use pikol_backend.Users.Models.{UserRow, UserGroup, GroupCode}
use pikol_backend.Users.Repository.{get_by_id}
use pikol_backend.Users.GroupRepository.{staff_codes, is_member}
use pikol_backend.Users.GroupService.Codes.{staff_codes_iff, counted}
use pikol_backend.Users.GroupService.Grants.{is_grant}
use pikol_backend.Auth.Security.{Crypto, Claims, decode, of_type}
use pikol_backend.Auth.Access.{
  VenueAccess, get_current_user, get_venue_access, active_venue, staff_access, forbidden_error,
  owner_access,
}
use pikol_backend.Auth.Service.Links.{or_raise-some}
use pikol_backend.Program.Staff.{StaffRequest, required_code, handle, caller_of, staff_request}
use pikol_backend.Program.Staff.Admission.{staff_request-IsAdmitted, active_venue-IsQuery}
use pikol_backend.Database.{Accounts, Session, ◌>>=◌, lift}
use pikol_backend.Database.Runs.{Returns, IsQuery-or_raise, IsQuery-lift}
use pikol_backend.Database.Ends.{Ends, Ends-gets, Ends-query, Ends-raise_if, Ends-pure, Ends-if}

-- A staff group of the venue has the user among its members, and holds the code.
abbrev pub HoldsAt : ℕ → ℕ → String → Accounts → Type 0
HoldsAt user venue code a =
    Any
      (λ g.
        (g.kind ≢ customer)
        × (g.venue_id ≡ some venue)
        × Any (λ m. (m.group_id ≡ g.id) × (m.user_id ≡ user)) a.members
        × Any (λ r. (r.group_id ≡ g.id) × (r.code ≡ code)) a.group_codes)
      a.user_groups

-- The token was signed for access, has not run out, and is that of an account that is there, not
-- deleted and active.
abbrev pub IsCaller : Crypto → Option String → Instant → Accounts → UserRow → Type 0
IsCaller c token now a u =
    ((raw : String) × (claims : Claims) × (token ≡ some raw)
      × (c.jwt_decode raw now ≡ some claims)
      × (claims.typ ≡ "access")
      × (claims.sub ≡ u.id))
    × Any (λ x. x ≡ u) a.users
    × (u.deleted_at ≡ none)
    × (u.is_active ≡ true)

-- The owner acts everywhere; anyone else at one venue, the one of the header if there is one, where
-- they hold the code.
abbrev pub MayAct : Option ℕ → String → Accounts → UserRow → VenueScope → Type 0
MayAct header code a u scope =
    ((u.system_admin ≡ true) × (scope ≡ everything))
    ⊎ ((venue : ℕ) × (scope ≡ record { all_venues = false; venue_id = some venue })
        × ((header ≡ none) ⊎ (header ≡ some venue))
        × HoldsAt u.id venue code a)

found_there :
    {A : Type 0} (p : A → Bool) (xs : List A) (x : A) → find? p xs ≡ some x → Any (λ y. y ≡ x) xs
found_there p [] x h = cc
found_there p (y ∷ xs) x h = elim (Bool-cases (p y)) [
  | inl e ↦ let here : some y ≡ some x = rw e at h in inl (cc)
  | inr e ↦ let later : find? p xs ≡ some x = rw e at h in inr (found_there p xs x later)
]

-- The columns that the tests of a group compare.
group_facts :
    (user venue j : ℕ) (a : Accounts) (g : UserGroup)
    → counted user (some venue) none a j g ≡ true
    → ((g.id == j) ≡ true)
      × ((g.kind == customer) ≡ false)
      × ((g.venue_id == some venue) ≡ true)
      × (is_member g.id user a ≡ true)
group_facts user venue j a g e = ground arith

row_grants :
    (j : ℕ) (code : String) (r : GroupCode)
    → is_grant j code r ≡ true
    → (r.group_id ≡ j) × (r.code ≡ code)
row_grants j code r e =
    let (same_group, same_code) = and-true_split (r.group_id == j) (r.code == code) e in
    ((eqb_iff r.group_id j).0 same_group, (string_eq.equals_iff r.code code).0 same_code)

counted-HoldsAt :
    (user venue j : ℕ) (code : String) (a : Accounts)
    → any (is_grant j code) a.group_codes ≡ true
    → any (counted user (some venue) none a j) a.user_groups ≡ true
    → HoldsAt user venue code a
counted-HoldsAt user venue j code a granted h =
    any_Any (counted user (some venue) none a j) _
      (λ g e.
        let (at_key, staffed, there, joined_in) = group_facts user venue j a g e in
        let same : g.id ≡ j = (eqb_iff g.id j).0 at_key in
        (
          not_same g.kind customer staffed,
          (option_eq.equals_iff g.venue_id (some venue)).0 there,
          any_Any (λ m. m.group_id == g.id && m.user_id == user) _
              (λ m q.
                let (x, y) = and-true_split (m.group_id == g.id) (m.user_id == user) q in
                ((eqb_iff m.group_id g.id).0 x, (eqb_iff m.user_id user).0 y))
              a.members joined_in,
          subst (λ k. Any (λ r. (r.group_id ≡ k) × (r.code ≡ code)) a.group_codes) (sym same)
              (any_Any (is_grant j code) _ (row_grants j code) a.group_codes granted),
        ))
      a.user_groups h

decoded :
    (c : Crypto) (raw : String) (now : Instant) (claims : Claims)
    → decode c raw "access" now ≡ ok claims
    → (c.jwt_decode raw now ≡ some claims) × (claims.typ ≡ "access")
unfolding decode
decoded c raw now claims h = elim (Option-cases (c.jwt_decode raw now)) [
  | inl e ↦ let bad : err invalid_token_error ≡ ok claims = rw (of_type, e) at h in cc
  | inr (d, e) ↦ elim (Bool-cases (d.typ == "access")) [
    | inl q ↦
        let good : ok d ≡ ok claims = rw (of_type, e, q) at h in
        let same : d ≡ claims = cc in
        (
          e ∙ ap some same,
          subst (λ x. x.typ ≡ "access") same ((string_eq.equals_iff d.typ "access").0 q),
        )
    | inr q ↦ let bad : err invalid_token_error ≡ ok claims = rw (of_type, e, q) at h in cc
  ]
]

lifted : {A : Type 0} (r : Result A) (s : Session) (a : A) → (lift r s).0 ≡ ok a → r ≡ ok a
unfolding lift
lifted r s a h = h

live_row :
    (id : ℕ) (a : Accounts) (u : UserRow)
    → get_by_id id a ≡ some u
    → (id ≡ u.id) × Any (λ x. x ≡ u) a.users × (u.deleted_at ≡ none)
live_row id a u h =
    let fits = find?-sound (λ x. x.id == id && is_none x.deleted_at) a.users u h in
    let (same, live) = and-true_split (u.id == id) (is_none u.deleted_at) fits in
    (sym ((eqb_iff u.id id).0 same), found_there _ a.users u h, ground (arith, live))

IsCaller-Ends :
    (c : Crypto) (token : Option String) (now : Instant) (s : Session)
    → Ends (λ u _. IsCaller c token now s.tables.accounts u) (get_current_user c token now) s
unfolding get_current_user
IsCaller-Ends c token now s = Ends-query _ _ (IsQuery-or_raise _ _) (λ raw f.
    Ends-query _ _ (IsQuery-lift _) (λ claims d. Ends-gets _ _ (
      Ends-query _ _ (IsQuery-or_raise _ _) (λ u g. Ends-raise_if _ _ _ (λ active.
        let (signed, of_access) = decoded c raw now claims (lifted _ s claims d) in
        let (same, there, live) =
          live_row claims.sub s.tables.accounts u (or_raise-some _ _ s u g) in
        Ends-pure u (
          (raw, claims, or_raise-some token _ s raw f, signed, of_access, same),
          there,
          live,
          ground (arith, active),
        ))))))

chosen_header :
    (header : Option ℕ) (venues : List ℕ) (venue : ℕ) (s : Session)
    → (active_venue header venues s).0 ≡ ok venue
    → (header ≡ none) ⊎ (header ≡ some venue)
unfolding active_venue ◌>>=◌
chosen_header none venues venue s h = inl refl
chosen_header (some x) venues venue s h = elim (Bool-cases (elem x venues)) [
  | inl e ↦
      let chosen : ok x ≡ ok venue = rw e at h in let same : x ≡ venue = cc in inr (ap some same)
  | inr e ↦ let bad : err forbidden_error ≡ ok venue = rw e at h in cc
]

-- What an access of a member of staff is made of.
staff-Ends :
    (header : Option ℕ) (user : ℕ) (s : Session)
    → Ends
        (λ access _.
          (venue : ℕ) × (access.scope ≡ record { all_venues = false; venue_id = some venue })
          × ((header ≡ none) ⊎ (header ≡ some venue))
          × (access.permissions ≡ staff_codes user (some venue) none s.tables.accounts))
        (staff_access header user)
        s
unfolding staff_access
staff-Ends header user s = Ends-gets _ _ (
    Ends-query _ _ (active_venue-IsQuery header _) (λ venue f.
      Ends-gets _ _ (Ends-pure _ (venue, refl, chosen_header header _ venue s f, refl))))

access-Ends :
    (header : Option ℕ) (u : UserRow) (s : Session)
    → Ends
        (λ access _.
          ((u.system_admin ≡ true) × (access.scope ≡ everything))
          ⊎ ((venue : ℕ) × (access.scope ≡ record { all_venues = false; venue_id = some venue })
              × ((header ≡ none) ⊎ (header ≡ some venue))
              × (access.permissions ≡ staff_codes u.id (some venue) none s.tables.accounts)))
        (get_venue_access header (caller_of u))
        s
unfolding get_venue_access
access-Ends header u s =
    Ends-if u.system_admin _ _ (λ owner. Ends-pure owner_access (inl (owner, refl)))
      (λ _. record { shown = λ access s' h. inr ((staff-Ends header u.id s).shown access s' h) })

access_may :
    (header : Option ℕ) (code : String) (u : UserRow) (access : VenueAccess) (s : Session)
    → Returns (get_venue_access header (caller_of u)) s access s
    → elem code access.permissions ≡ true
    → MayAct header code s.tables.accounts u access.scope
access_may header code u access s got held = elim ((access-Ends header u s).shown access s got) [
  | inl owner ↦ inl owner
  | inr (venue, at_venue, chosen, codes) ↦
      let (j, granted, joined_in) =
        (staff_codes_iff u.id (some venue) none s.tables.accounts code).0
          (subst (λ l. elem code l ≡ true) codes held) in
      inr (
        venue,
        at_venue,
        chosen,
        counted-HoldsAt u.id venue j code s.tables.accounts granted joined_in,
      )
]

-- A request to an endpoint of staff that is not just refused, without a change, comes from an active
-- account that is not deleted, with its own access token. The account is the owner's, or a staff group
-- of the venue where they act has it as a member and holds the code that the endpoint asks for; that
-- venue is the header's, if there is one. The request is the endpoint's operation, in the scope of that
-- venue alone, or of all venues for the owner.
pub staff_request-IsEntitled :
    (c : Crypto) (now : Instant) (token : Option String) (header : Option ℕ) (r : StaffRequest)
    (s : Session)
    → ((e : Error) → staff_request c now token header r s ≢ (err e, s))
    → (u : UserRow) × (access : VenueAccess) × IsCaller c token now s.tables.accounts u
      × MayAct header (required_code r) s.tables.accounts u access.scope
      × (staff_request c now token header r s ≡ handle c now (caller_of u) access r s)
staff_request-IsEntitled c now token header r s accepted =
    elim (staff_request-IsAdmitted c now token header r s) [
      | inr (e, h) ↦ absurd (accepted e h)
      | inl (u, access, (known, got, held), runs) ↦ (
        u,
        access,
        (IsCaller-Ends c token now s).shown u s known,
        access_may header (required_code r) u access s got held,
        runs,
      )
    ]
