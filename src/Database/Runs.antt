-- ===== src/Database/Runs.antt =====
-- Runs of an action: what a successful run of a chain says of its parts, and queries.
use pikol_backend.Common.{
  ◌≡◌, refl, ap, ◌∙◌, ◌⊎◌, inl, inr, List, [], ◌∷◌, Bool, true, false, All, Option, none, some,
  if◌then◌else◌,
}
use mathlib.Core.Path.{subst}
use pikol_backend.Errors.{Error, Result, ok, err}
use pikol_backend.Database.{
  Tables, Session, Action, pure, raise, lift, gets, raise_if, resume, map_action, for_each,
  or_raise, ◌>>=◌, ◌>>◌,
}

-- The action returns `a` and ends in `s'`.
abbrev pub Returns : {A : Type 0} → Action A → Session → A → Session → Type 0
Returns m s a s' = m s ≡ (ok a, s')

module _ {A B : Type 0} where
  resume-Returns :
      (r : Result A) (f : A → Action B) (s : Session) (b : B) (s'' : Session)
      → resume r f s ≡ (ok b, s'')
      → (a : A) × (r ≡ ok a) × Returns (f a) s b s''
  resume-Returns (ok a) f s b s'' h = (a, refl, h)
  resume-Returns (err e) f s b s'' h = cc

  -- A chain returns only if each part does.
  pub Returns-bind :
      (m : Action A) (f : A → Action B) (s : Session) (b : B) (s'' : Session)
      → Returns (m >>= f) s b s''
      → (a : A) × (s' : Session) × Returns m s a s' × Returns (f a) s' b s''
  unfolding ◌>>=◌
  Returns-bind m f s b s'' h =
      let (a, e, rest) = resume-Returns (m s).0 f (m s).1 b s'' h in
      (a, (m s).1, ap (λ r. (r, (m s).1)) e, rest)

-- The action leaves the session as it is, however it ends.
pub record IsQuery {A : Type 0} (m : Action A) : Type 0 where
  pub at : (s : Session) → (m s).1 ≡ s

module _ {A : Type 0} where
  pub IsQuery-pure : (a : A) → IsQuery (pure a)
  unfolding pure
  IsQuery-pure a = record { at = λ s. refl }

  pub IsQuery-raise : (e : Error) → IsQuery (raise {A = A} e)
  unfolding raise
  IsQuery-raise e = record { at = λ s. refl }

  pub IsQuery-lift : (r : Result A) → IsQuery (lift r)
  unfolding lift
  IsQuery-lift r = record { at = λ s. refl }

  pub IsQuery-gets : (f : Tables → A) → IsQuery (gets f)
  unfolding gets
  IsQuery-gets f = record { at = λ s. refl }

module _ {A : Type 0} where
  pub IsQuery-or_raise : (o : Option A) (e : Error) → IsQuery (or_raise o e)
  IsQuery-or_raise none e = IsQuery-raise e
  IsQuery-or_raise (some a) e = IsQuery-pure a

  pub IsQuery-if :
      (b : Bool) (m n : Action A) → IsQuery m → IsQuery n → IsQuery (if b then m else n)
  IsQuery-if true m n p q = p
  IsQuery-if false m n p q = q

pub IsQuery-raise_if : (b : Bool) (e : Error) → IsQuery (raise_if b e)
unfolding raise_if
IsQuery-raise_if b e = record { at = λ s. refl }

module _ {A B : Type 0} where
  resume_query :
      (r : Result A) (f : A → Action B) (s : Session)
      → ((a : A) → IsQuery (f a))
      → (resume r f s).1 ≡ s
  resume_query (ok a) f s q = (q a).at s
  resume_query (err e) f s q = refl

  pub IsQuery-bind :
      (m : Action A) (f : A → Action B) → IsQuery m → ((a : A) → IsQuery (f a)) → IsQuery (m >>= f)
  unfolding ◌>>=◌
  IsQuery-bind m f q r = record { at = λ s. resume_query (m s).0 f (m s).1 r ∙ q.at s }

module _ {A B : Type 0} where
  pub IsQuery-map_action :
      (f : A → Action B) (l : List A) → ((a : A) → IsQuery (f a)) → IsQuery (map_action f l)
  unfolding map_action
  IsQuery-map_action f [] q = IsQuery-pure []
  IsQuery-map_action f (x ∷ l) q =
      IsQuery-bind _ _ (q x)
        (λ y. IsQuery-bind _ _ (IsQuery-map_action f l q) (λ ys. IsQuery-pure (y ∷ ys)))

module _ {A B : Type 0} where
  split_on :
      (r : Result A) (f : A → Action B) (s s' : Session)
      → s' ≡ s
      → ((a : A) × (◌≡◌ {A = Result A × Session} (r, s') (ok a, s)) × (resume r f s' ≡ f a s))
        ⊎ ((e : Error) × (resume r f s' ≡ (err e, s)))
  split_on (ok a) f s s' h = inl (a, λ i. (ok a, h i), λ i. f a (h i))
  split_on (err e) f s s' h = inr (e, λ i. (err e, h i))

  -- A chain after a query raises and changes nothing, or is its rest on the same session.
  pub query_split :
      (m : Action A) (f : A → Action B) (s : Session)
      → IsQuery m
      → ((a : A) × Returns m s a s × ((m >>= f) s ≡ f a s))
        ⊎ ((e : Error) × ((m >>= f) s ≡ (err e, s)))
  unfolding ◌>>=◌
  query_split m f s q = split_on (m s).0 f s (m s).1 (q.at s)

pub ruleset query_rules = (
  IsQuery-pure, IsQuery-raise, IsQuery-lift, IsQuery-gets, IsQuery-raise_if, IsQuery-bind,
  IsQuery-map_action, IsQuery-or_raise, IsQuery-if,
)

-- What a run that returns shows: `Q` holds if the action returns at all.
pub record OnlyIf {A : Type 0} (Q : Type 0) (m : Action A) (s : Session) : Type 0 where
  pub shown : (a : A) (s' : Session) → Returns m s a s' → Q

module _ {B : Type 0} {Q : Type 0} {s : Session} where
  pub OnlyIf-holds : (m : Action B) → Q → OnlyIf Q m s
  OnlyIf-holds m q = record { shown = λ a s' h. q }

  pub OnlyIf-gets :
      {A : Type 0} (g : Tables → A) (f : A → Action B)
      → OnlyIf Q (f (g s.tables)) s
      → OnlyIf Q (gets g >>= f) s
  unfolding ◌>>=◌
  OnlyIf-gets g f o = record { shown = o.shown }

  resume_only :
      {A : Type 0} (r : Result A) (f : A → Action B) (s' : Session) (b : B) (s'' : Session)
      → s' ≡ s
      → ((a : A) → r ≡ ok a → OnlyIf Q (f a) s)
      → resume r f s' ≡ (ok b, s'')
      → Q
  resume_only (ok a) f s' b s'' e o h =
      (o a refl).shown b s'' (subst (λ x. f a x ≡ (ok b, s'')) e h)
  resume_only (err x) f s' b s'' e o h = cc

  pub OnlyIf-query :
      {A : Type 0} (m : Action A) (f : A → Action B)
      → IsQuery m
      → ((a : A) → (m s).0 ≡ ok a → OnlyIf Q (f a) s)
      → OnlyIf Q (m >>= f) s
  unfolding ◌>>=◌
  OnlyIf-query m f q o = record { shown = λ b s''. resume_only (m s).0 f (m s).1 b s'' (q.at s) o }

  pub OnlyIf-lift :
      {A : Type 0} (r : Result A) (f : A → Action B)
      → ((a : A) → r ≡ ok a → OnlyIf Q (f a) s)
      → OnlyIf Q (lift r >>= f) s
  unfolding ◌>>=◌
  OnlyIf-lift r f o = record { shown = λ b s''. resume_only r f s b s'' refl o }

  pub OnlyIf-raise_if :
      (b : Bool) (e : Error) (k : Action B)
      → (b ≡ false → OnlyIf Q k s)
      → OnlyIf Q (raise_if b e >> k) s
  unfolding ◌>>=◌
  OnlyIf-raise_if true e k o = record { shown = λ b s'' h. cc }
  OnlyIf-raise_if false e k o = o refl

-- A loop whose passes return: `P` holds throughout, and each pass leaves behind what it does for its
-- element, which the later passes keep.
module _ {A : Type 0} (f : A → Action (Unit {0})) (Q : A → Type 0) (P : Session → Type 0)
    (R : A → Session → Type 0) where
  abbrev pub Pass : Session → Session → Type 0
  Pass s s' = P s' × ((b : A) → R b s → R b s')

  abbrev pub Ran : List A → Session → Result (Unit {0}) × Session → Type 0
  Ran l s run = (run.0 ≡ ok tt) × All (λ a. R a run.1) l × Pass s run.1

  first_pass :
      (a : A) (l : List A) (s : Session)
      → (f a s).0 ≡ ok tt
      → for_each l f (f a s).1 ≡ for_each (a ∷ l) f s
  unfolding for_each ◌>>=◌
  first_pass a l s e = rw e refl

  pub for_each_returns :
      ((a : A) (s : Session) → Q a → P s → ((f a s).0 ≡ ok tt) × R a (f a s).1 × Pass s (f a s).1)
      → (l : List A) (s : Session) → All Q l
      → P s
      → Ran l s (for_each l f s)
  unfolding for_each pure
  for_each_returns step [] s q p = (refl, tt, (p, λ b r. r))
  for_each_returns step (a ∷ l) s q p =
      let (e, r, (p', kept)) = step a s q.0 p in
      let (e', rs, (p'', kept')) = for_each_returns step l (f a s).1 q.1 p' in
      subst (Ran (a ∷ l) s) (first_pass a l s e)
        (e', (kept' a r, rs), (p'', λ b x. kept' b (kept b x)))
