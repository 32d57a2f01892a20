-- ===== src/Database/Ends.antt =====
-- What holds of the value and the session that an action started in one session returns, if it
-- returns: one rule for each way to build an action.
use pikol_backend.Common.{◌≡◌, refl, Bool, true, false, Option, none, some, if◌then◌else◌}
use mathlib.Core.Path.{subst}
use pikol_backend.Errors.{Error, Result, ok, err}
use pikol_backend.Database.{
  Tables, Session, Action, pure, raise, gets, raise_if, modify, commit, resume, or_raise, when,
  ◌>>=◌,
}
use pikol_backend.Database.Runs.{Returns, IsQuery}

pub record Ends {A : Type 0} (Q : A → Session → Type 0) (m : Action A) (s : Session) : Type 0 where
  pub shown : (a : A) (s' : Session) → Returns m s a s' → Q a s'

abbrev pub wrote : (Tables → Tables) → Session → Session
wrote f s = record s { tables = f s.tables }

abbrev pub made_durable : Session → Session
made_durable s = record s { committed = s.tables }

-- The same value and session under another name.
returned :
    {A : Type 0} (Q : A → Session → Type 0) (a b : A) (s s' : Session)
    → Q a s
    → ◌≡◌ {A = Result A × Session} (ok a, s) (ok b, s')
    → Q b s'
returned {A} Q a b s s' q h =
    let outcome =
      λ (r : Result A × Session). elim r.0 as (λ _. Type 0) [ ok x ↦ Q x r.1 | err e ↦ Unit {0} ] in
    subst outcome h q

module _ {A : Type 0} {Q : A → Session → Type 0} {s : Session} where
  pub Ends-pure : (a : A) → Q a s → Ends Q (pure a) s
  unfolding pure
  Ends-pure a q = record { shown = λ b s' h. returned Q a b s s' q h }

  pub Ends-raise : (e : Error) → Ends Q (raise e) s
  unfolding raise
  Ends-raise e = record { shown = λ b s' h. cc }

  pub Ends-if :
      (b : Bool) (m n : Action A)
      → (b ≡ true → Ends Q m s)
      → (b ≡ false → Ends Q n s)
      → Ends Q (if b then m else n) s
  Ends-if true m n p q = p refl
  Ends-if false m n p q = q refl

module _ {B : Type 0} {Q : B → Session → Type 0} where
  run_on :
      {A : Type 0} (r : Result A) (f : A → Action B) (s' : Session) (b : B) (s'' : Session)
      → ((a : A) → r ≡ ok a → Ends Q (f a) s')
      → resume r f s' ≡ (ok b, s'')
      → Q b s''
  run_on (ok a) f s' b s'' k h = (k a refl).shown b s'' h
  run_on (err e) f s' b s'' k h = cc

module _ {B : Type 0} {Q : B → Session → Type 0} {s : Session} where
  pub Ends-gets :
      {A : Type 0} (g : Tables → A) (f : A → Action B)
      → Ends Q (f (g s.tables)) s
      → Ends Q (gets g >>= f) s
  unfolding ◌>>=◌
  Ends-gets g f o = record { shown = o.shown }

  pub Ends-modify :
      (f : Tables → Tables) (k : Unit {0} → Action B)
      → Ends Q (k tt) (wrote f s)
      → Ends Q (modify f >>= k) s
  unfolding ◌>>=◌
  Ends-modify f k o = record { shown = o.shown }

  pub Ends-commit :
      (k : Unit {0} → Action B) → Ends Q (k tt) (made_durable s) → Ends Q (commit >>= k) s
  unfolding ◌>>=◌
  Ends-commit k o = record { shown = o.shown }

  resume_ends :
      {A : Type 0} (r : Result A) (f : A → Action B) (s' : Session) (b : B) (s'' : Session)
      → s' ≡ s
      → ((a : A) → r ≡ ok a → Ends Q (f a) s)
      → resume r f s' ≡ (ok b, s'')
      → Q b s''
  resume_ends (ok a) f s' b s'' e o h =
      (o a refl).shown b s'' (subst (λ x. f a x ≡ (ok b, s'')) e h)
  resume_ends (err x) f s' b s'' e o h = cc

  pub Ends-query :
      {A : Type 0} (m : Action A) (f : A → Action B)
      → IsQuery m
      → ((a : A) → (m s).0 ≡ ok a → Ends Q (f a) s)
      → Ends Q (m >>= f) s
  unfolding ◌>>=◌
  Ends-query m f q o = record { shown = λ b s''. resume_ends (m s).0 f (m s).1 b s'' (q.at s) o }

  -- What the first part shows of its value.
  pub Ends-query_that :
      {A : Type 0} (R : A → Type 0) (m : Action A) (f : A → Action B)
      → IsQuery m
      → Ends (λ a _. R a) m s
      → ((a : A) → R a → Ends Q (f a) s)
      → Ends Q (m >>= f) s
  Ends-query_that R m f q r o =
      Ends-query m f q (λ a e. o a (r.shown a (m s).1 (λ i. (e i, (m s).1))))

  pub Ends-raise_if :
      (b : Bool) (e : Error) (k : Unit {0} → Action B)
      → (b ≡ false → Ends Q (k tt) s)
      → Ends Q (raise_if b e >>= k) s
  unfolding ◌>>=◌
  Ends-raise_if true e k o = record { shown = λ b s'' h. cc }
  Ends-raise_if false e k o = record { shown = (o refl).shown }

  pub Ends-bind :
      {A : Type 0} (m : Action A) (f : A → Action B)
      → Ends (λ a. Ends Q (f a)) m s
      → Ends Q (m >>= f) s
  unfolding ◌>>=◌
  Ends-bind m f o = record {
    shown =
        λ b s''. run_on (m s).0 f (m s).1 b s'' (λ a e. o.shown a (m s).1 (λ i. (e i, (m s).1)));
  }

module _ {A B : Type 0} {Q : B → Session → Type 0} {s : Session} where
  -- Whatever comes before, the action raises.
  pub Ends-then_raise : (m : Action A) (e : Error) → Ends Q (m >>= λ _. raise e) s
  unfolding ◌>>=◌
  Ends-then_raise m e = record {
    shown = λ b s''. run_on {Q = Q} (m s).0 (λ _. raise e) (m s).1 b s'' (λ a h. Ends-raise e);
  }

module _ {A : Type 0} {s : Session} where
  pub Ends-or_raise :
      (Q : A → Session → Type 0) (o : Option A) (e : Error)
      → ((a : A) → o ≡ some a → Q a s)
      → Ends Q (or_raise o e) s
  Ends-or_raise Q none e q = Ends-raise e
  Ends-or_raise Q (some a) e q = Ends-pure a (q a refl)

module _ {s : Session} where
  pub Ends-raise_if_last :
      {Q : Unit {0} → Session → Type 0} (b : Bool) (e : Error)
      → (b ≡ false → Q tt s)
      → Ends Q (raise_if b e) s
  unfolding raise_if
  Ends-raise_if_last true e q = record { shown = λ a s' h. cc }
  Ends-raise_if_last {Q} false e q = record { shown = λ a s' h. returned Q tt a s s' (q refl) h }

  pub Ends-commit_last : {Q : Unit {0} → Session → Type 0} → Q tt (made_durable s) → Ends Q commit s
  unfolding commit
  Ends-commit_last {Q} q = record { shown = λ a s' h. returned Q tt a (made_durable s) s' q h }

  pub Ends-modify_last :
      {Q : Unit {0} → Session → Type 0} (f : Tables → Tables)
      → Q tt (wrote f s)
      → Ends Q (modify f) s
  unfolding modify
  Ends-modify_last {Q} f q = record { shown = λ a s' h. returned Q tt a (wrote f s) s' q h }

  -- `if b: m`
  pub Ends-when :
      {R : Type 0} (b : Bool) (m : Action (Unit {0}))
      → Ends (λ _ _. R) m s
      → Ends (λ _ _. b ≡ true → R) (when b m) s
  Ends-when true m r = record { shown = λ a s' h e. r.shown a s' h }
  Ends-when false m r = record { shown = λ a s' h e. cc }

-- A raise in the first part is a raise of the whole, at the session of the first.
module _ {A B : Type 0} where
  pub raises-bind :
      (m : Action A) (f : A → Action B) (s s' : Session) (e : Error)
      → m s ≡ (err e, s')
      → (m >>= f) s ≡ (err e, s')
  unfolding ◌>>=◌
  raises-bind m f s s' e h = rw h refl
