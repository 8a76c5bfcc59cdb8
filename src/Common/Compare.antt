-- ===== src/Common/Compare.antt =====
-- The comparisons of C on native numbers, as Boolean tests, and branching on them.
use Prim.Native.Nat.{ℕ, compare, Ordering, ◌<◌, ◌≤◌}
use mathlib.Core.Path.{◌≡◌, refl}
use mathlib.Core.Logic.{◌⊎◌, inl, inr}
use mathlib.Core.Bool.{Bool, true, false}
use native.Mathlib.Omega.{arith}

abbrev pub ltb : ℕ → ℕ → Bool
ltb a b = elim (compare a b) [ Ordering.lt ↦ true | _ ↦ false ]

abbrev pub leb : ℕ → ℕ → Bool
leb a b = elim (compare a b) [ Ordering.gt ↦ false | _ ↦ true ]

infix 50 ◌==◌ ◌!=◌
abbrev pub ◌==◌ : ℕ → ℕ → Bool
a == b = elim (compare a b) [ Ordering.eq ↦ true | _ ↦ false ]

abbrev pub ◌!=◌ : ℕ → ℕ → Bool
a != b = elim (compare a b) [ Ordering.eq ↦ false | _ ↦ true ]

infix 1 if◌then◌else◌
abbrev pub if◌then◌else◌ {ℓ} : {A : Type ℓ} → Bool → A → A → A
if true then x else _ = x
if false then _ else y = y

pub Bool-cases : (b : Bool) → (b ≡ true) ⊎ (b ≡ false)
Bool-cases true = inl refl
Bool-cases false = inr refl

pub eq_of_== : (a b : ℕ) → (a == b) ≡ true → a ≡ b
eq_of_== a b h = ground arith

pub ltb_of_< : (a b : ℕ) → a < b → ltb a b ≡ true
ltb_of_< a b h = ground arith

pub ltb_of_≥ : (a b : ℕ) → b ≤ a → ltb a b ≡ false
ltb_of_≥ a b h = ground arith

pub <-cases : (a b : ℕ) → (a < b) ⊎ (b ≤ a)
<-cases a b = elim (Bool-cases (ltb a b)) [
  | inl h ↦ inl (ground arith)
  | inr h ↦ inr (ground arith)
]

-- What holds of both branches, each under its outcome of the test, holds of the choice.
pub if-elim {ℓ κ} :
    {A : Type ℓ} (c : Bool) (x y : A) (P : A → Type κ)
    → ((c ≡ true) → P x)
    → ((c ≡ false) → P y)
    → P (if c then x else y)
if-elim true x y P f g = f refl
if-elim false x y P f g = g refl

-- A statement after another: `s |> f` runs `f` on the state `s`.
infixl 2 ◌|>◌
abbrev pub ◌|>◌ {ℓ κ} : {A : Type ℓ} {B : Type κ} → A → (A → B) → B
s |> f = f s
