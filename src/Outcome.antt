-- ===== src/Outcome.antt =====
-- How a call ends: with a value, with a thrown SIM_EXCEPTIONS, with a std::runtime_error, or in
-- what C++ leaves undefined (a shift by 32 or more, a division by zero, an uninitialised member).
use dimebox.Exceptions.{SimException}

pub data Outcome (A : Type 0) : Type 0 where
  done : A → Outcome A
  thrown : SimException → Outcome A
  runtime_error undefined : Outcome A

infixl 5 ◌>>=◌ ◌>>◌
abbrev pub ◌>>=◌ : {A B : Type 0} → Outcome A → (A → Outcome B) → Outcome B
done a >>= f = f a
thrown e >>= f = thrown e
runtime_error >>= f = runtime_error
undefined >>= f = undefined

abbrev pub ◌>>◌ : {B : Type 0} → Outcome (Unit {0}) → Outcome B → Outcome B
m >> k = m >>= λ _. k
