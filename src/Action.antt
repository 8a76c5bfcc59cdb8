-- ===== src/Action.antt =====
-- Code that works on a state and may throw. What was done to the state before a throw stays done.
use dimebox.Common.{Bool, true, false, Option, none, some}
use dimebox.Exceptions.{SimException}
use dimebox.Outcome.{Outcome, done, thrown, runtime_error, undefined}

abbrev pub Action : Type 0 → Type 0 → Type 0
Action S A = S → Outcome A × S

module _ {S : Type 0} where
  infixl 5 ◌>>=◌ ◌>>◌
  abbrev pub ◌>>=◌ : {A B : Type 0} → Action S A → (A → Action S B) → Action S B
  ◌>>=◌ m f s =
      let (r, t) = m s in
      elim r [
        | done a ↦ f a t
        | thrown e ↦ (thrown e, t)
        | runtime_error ↦ (runtime_error, t)
        | undefined ↦ (undefined, t)
      ]

  abbrev pub ◌>>◌ : {B : Type 0} → Action S (Unit {0}) → Action S B → Action S B
  m >> k = m >>= λ _. k

  abbrev pub pure : {A : Type 0} → A → Action S A
  pure a s = (done a, s)

  abbrev pub throw : {A : Type 0} → SimException → Action S A
  throw e s = (thrown e, s)

  abbrev pub undefined_behaviour : {A : Type 0} → Action S A
  undefined_behaviour s = (undefined, s)

  abbrev pub gets : {A : Type 0} → (S → A) → Action S A
  gets f s = (done (f s), s)

  abbrev pub modify : (S → S) → Action S (Unit {0})
  modify f s = (done tt, f s)

  -- An outcome that leaves the state alone.
  abbrev pub lift : {A : Type 0} → Outcome A → Action S A
  lift r s = (r, s)

  -- The value of a member, which is undefined before it is set.
  abbrev pub member : {A : Type 0} → Option A → Action S A
  member none = undefined_behaviour
  member (some a) = pure a

  abbrev pub when : Bool → Action S (Unit {0}) → Action S (Unit {0})
  when true m = m
  when false m = pure tt
