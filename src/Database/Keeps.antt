-- ===== src/Database/Keeps.antt =====
-- Properties of the tables that an action keeps, whether it returns or raises: one rule for each way
-- to build an action.

use pikol_backend.Common.{Bool, true, false, ◌≡◌, refl, List, [], ◌∷◌, if◌then◌else◌}
use pikol_backend.Errors.{Error, Result, ok, err}
use pikol_backend.Database.{
  Tables, Session, Action, pure, raise, lift, gets, roll_back, savepoint, attempt, request, ◌>>=◌,
  raise_if, modify, commit, draw, resume, for_each, map_action,
}

-- What holds after an action that keeps `P` of the transaction's tables and `Q` of the committed
-- ones: the latter, and the former unless it raised, when what it wrote is about to be rolled back.
abbrev pub After : {A : Type 0} → (P Q : Tables → Type 0) → Result A × Session → Type 0
After P Q (ok a, s) = P s.tables × Q s.committed
After P Q (err e, s) = Q s.committed

pub record Maintains {A : Type 0} (P Q : Tables → Type 0) (m : Action A) : Type 0 where
  pub at : (s : Session) → P s.tables → Q s.committed → After P Q (m s)

-- The cases of the result, for the rules below and for actions that are treated at a session.
module _ {A : Type 0} (P Q : Tables → Type 0) where
  pub After-lift : (r : Result A) (s : Session) → P s.tables → Q s.committed → After P Q (r, s)
  After-lift (ok a) s p q = (p, q)
  After-lift (err e) s p q = q

  pub After-roll_back :
      (before : Tables) (r : Result A) (s : Session)
      → P before
      → After P Q (r, s)
      → After P Q (roll_back before r s)
  After-roll_back before (ok a) s p h = h
  After-roll_back before (err e) s p h = h

  pub After-attempt :
      (before : Tables) (r : Result A) (s : Session)
      → P before
      → After P Q (r, s)
      → let s' = (roll_back before r s).1 in P s'.tables × Q s'.committed
  After-attempt before (ok a) s p h = h
  After-attempt before (err e) s p h = (p, h)

  pub After-ok :
      {a : A} (r : Result A) (s : Session)
      → r ≡ ok a
      → After P Q (r, s)
      → P s.tables × Q s.committed
  After-ok (ok a) s e h = h
  After-ok (err x) s e h = cc

  pub committed_after : (r : Result A) (s : Session) → After P Q (r, s) → Q s.committed
  committed_after (ok a) s h = h.1
  committed_after (err e) s h = h

abbrev pub Keeps : {A : Type 0} → (Tables → Type 0) → Action A → Type 0
Keeps P m = Maintains P P m

module _ {A : Type 0} {P Q : Tables → Type 0} where
  pub Keeps-pure : (a : A) → Maintains P Q (pure a)
  unfolding pure
  Keeps-pure a = record { at = λ s p q. (p, q) }

  pub Keeps-raise : (e : Error) → Maintains P Q (raise {A = A} e)
  unfolding raise
  Keeps-raise e = record { at = λ s p q. q }

  pub Keeps-lift : (r : Result A) → Maintains P Q (lift r)
  unfolding lift
  Keeps-lift r = record { at = After-lift P Q r }

  pub Keeps-gets : (f : Tables → A) → Maintains P Q (gets f)
  unfolding gets
  Keeps-gets f = record { at = λ s p q. (p, q) }

  pub Keeps-savepoint : (m : Action A) → Maintains P Q m → Maintains P Q (savepoint m)
  unfolding savepoint
  Keeps-savepoint m k = record {
    at = λ s p q. After-roll_back P Q s.tables (m s).0 (m s).1 p (k.at s p q);
  }

  -- A failure is caught outside its savepoint, where the tables are as before.
  pub Keeps-attempt-savepoint :
      (m : Action A) → Maintains P Q m → Maintains P Q (attempt (savepoint m))
  unfolding attempt savepoint
  Keeps-attempt-savepoint m k = record {
    at = λ s p q. After-attempt P Q s.tables (m s).0 (m s).1 p (k.at s p q);
  }

  pub Keeps-if :
      (b : Bool) (m n : Action A)
      → Maintains P Q m
      → Maintains P Q n
      → Maintains P Q (if b then m else n)
  Keeps-if true m n km kn = km
  Keeps-if false m n km kn = kn

  -- A whole request leaves committed tables that satisfy `P`, however it ends.
  pub Keeps-request :
      (m : Action A) (s : Session)
      → Maintains P Q m
      → P s.tables
      → Q s.committed
      → Q (request m s).1
  Keeps-request m s k p q = committed_after P Q (m s).0 (m s).1 (k.at s p q)

module _ {P Q : Tables → Type 0} where
  pub Keeps-raise_if : (b : Bool) (e : Error) → Maintains P Q (raise_if b e)
  unfolding raise_if
  Keeps-raise_if true e = record { at = λ s p q. q }
  Keeps-raise_if false e = record { at = λ s p q. (p, q) }

  pub Keeps-commit : ((t : Tables) → P t → Q t) → Maintains P Q commit
  unfolding commit
  Keeps-commit k = record { at = λ s p q. (p, k s.tables p) }

  pub Keeps-draw : Maintains P Q draw
  unfolding draw
  Keeps-draw = record { at = λ s p q. (p, q) }

  pub Keeps-modify :
      (f : Tables → Tables) → ((t : Tables) → P t → P (f t)) → Maintains P Q (modify f)
  unfolding modify
  Keeps-modify f k = record { at = λ s p q. (k s.tables p, q) }

module _ {A B : Type 0} {P Q : Tables → Type 0} where
  resumed :
      (r : Result A) (f : A → Action B) (s : Session)
      → ((a : A) → r ≡ ok a → Maintains P Q (f a))
      → After P Q (r, s)
      → After P Q (resume r f s)
  resumed (ok a) f s k h = (k a refl).at s h.0 h.1
  resumed (err e) f s k h = h

  pub Keeps-bind :
      (m : Action A) (f : A → Action B)
      → Maintains P Q m
      → ((a : A) → Maintains P Q (f a))
      → Maintains P Q (m >>= f)
  unfolding ◌>>=◌
  Keeps-bind m f km kf = record {
    at = λ s p q. resumed (m s).0 f (m s).1 (λ a _. kf a) (km.at s p q);
  }

  -- The rest may use that a pure result did not raise.
  pub Keeps-bind_lift :
      (r : Result A) (f : A → Action B)
      → ((a : A) → r ≡ ok a → Maintains P Q (f a))
      → Maintains P Q (lift r >>= f)
  unfolding ◌>>=◌
  Keeps-bind_lift r f kf = record { at = λ s p q. resumed r f s kf (After-lift P Q r s p q) }

module _ {A : Type 0} {P Q : Tables → Type 0} where
  pub Keeps-for_each :
      (l : List A) (f : A → Action (Unit {0}))
      → ((a : A) → Maintains P Q (f a))
      → Maintains P Q (for_each l f)
  unfolding for_each
  Keeps-for_each [] f k = Keeps-pure tt
  Keeps-for_each (x ∷ l) f k = Keeps-bind (f x) _ (k x) (λ _. Keeps-for_each l f k)

module _ {A B : Type 0} {P Q : Tables → Type 0} where
  pub Keeps-map_action :
      (f : A → Action B) (l : List A)
      → ((a : A) → Maintains P Q (f a))
      → Maintains P Q (map_action f l)
  unfolding map_action
  Keeps-map_action f [] k = Keeps-pure []
  Keeps-map_action f (x ∷ l) k =
      Keeps-bind (f x) _ (k x)
        (λ y. Keeps-bind _ _ (Keeps-map_action f l k) (λ ys. Keeps-pure (y ∷ ys)))

pub ruleset keeps_rules = (
  Keeps-pure, Keeps-raise, Keeps-lift, Keeps-gets, Keeps-savepoint, Keeps-attempt-savepoint,
  Keeps-if, Keeps-raise_if, Keeps-commit, Keeps-draw, Keeps-bind, Keeps-for_each, Keeps-map_action,
)
