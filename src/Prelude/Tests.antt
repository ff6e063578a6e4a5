-- ===== src/Prelude/Tests.antt =====
-- Boolean tests on numbers and Booleans, the conditional, and the outcome of kernel code.
use Prim.Native.Nat.{ℕ, ◌≤◌, ◌<◌, compare, Ordering}
use mathlib.Core.Path.{◌≡◌, refl}
use mathlib.Core.Logic.{◌⊎◌, inl, inr}
use mathlib.Core.Bool.{Bool, true, false}
use mathlib.Core.Option.{Option, none, some}
use native.Mathlib.Omega.{arith}

abbrev pub ltb : ℕ → ℕ → Bool
ltb a b = elim (compare a b) [ Ordering.lt ↦ true | _ ↦ false ]

abbrev pub leb : ℕ → ℕ → Bool
leb a b = elim (compare a b) [ Ordering.gt ↦ false | _ ↦ true ]

infix 50 ◌==◌
abbrev pub ◌==◌ : ℕ → ℕ → Bool
a == b = elim (compare a b) [ Ordering.eq ↦ true | _ ↦ false ]

infix 1 if◌then◌else◌
abbrev pub if◌then◌else◌ {ℓ} : {A : Type ℓ} → Bool → A → A → A
if true then x else y = x
if false then x else y = y

-- `a == b` of two `bool` values.
abbrev pub same : Bool → Bool → Bool
same true b = b
same false true = false
same false false = true

pub ltb→lt : (a b : ℕ) → ltb a b ≡ true → a < b
ltb→lt a b h = ground arith

pub lt→ltb : (a b : ℕ) → a < b → ltb a b ≡ true
lt→ltb a b h = ground arith

pub leb→le : (a b : ℕ) → leb a b ≡ true → a ≤ b
leb→le a b h = ground arith

pub eq→== : (a b : ℕ) → a ≡ b → (a == b) ≡ true
eq→== a b h = ground arith

pub ne→== : (a b : ℕ) → (a == b) ≡ false → ¬ (a ≡ b)
ne→== a b h = ground arith

pub ne→false : (a b : ℕ) → ¬ (a ≡ b) → (a == b) ≡ false
ne→false a b h = ground arith

pub ruleset tests = (arith, ltb→lt, lt→ltb, leb→le)

pub Bool-cases : (b : Bool) → (b ≡ true) ⊎ (b ≡ false)
Bool-cases true = inl refl
Bool-cases false = inr refl

pub Option-cases {ℓ} : {A : Type ℓ} (o : Option A) → (o ≡ none) ⊎ ((a : A) × (o ≡ some a))
Option-cases none = inl refl
Option-cases (some a) = inr (a, refl)

-- `panic`: a failed ASSERT, a call of PANIC or a fault, after which the kernel stops.
-- `hang`: a loop that is not over when its rounds are.
pub data Result {ℓ} (A : Type ℓ) : Type ℓ where
  ok : A → Result A
  panic : Result A
  hang : Result A

-- What follows a step of the kernel runs only if the step returns.
infixl 5 ◌>>=◌
abbrev pub ◌>>=◌ {ℓ κ} :
    {A : Type ℓ} {B : Type κ} (step : Result A) (next : A → Result B) → Result B
hang >>= next = hang
panic >>= next = panic
ok value >>= next = next value

infixl 5 ◌>>◌
abbrev pub ◌>>◌ {κ} : {B : Type κ} (step : Result (Unit {0})) (next : Result B) → Result B
step >> next = step >>= λ _. next

-- `ASSERT (b)`.
abbrev pub assert : Bool → Result (Unit {0})
assert true = ok tt
assert false = panic

-- A step that is followed by another depends on what follows only through its values.
module _ {ℓ κ} {A : Type ℓ} {B : Type κ} where
  pub bind-ext :
      (step : Result A) (next other : A → Result B)
      → ((value : A) → next value ≡ other value)
      → (step >>= next) ≡ (step >>= other)
  bind-ext (ok value) next other same_next = same_next value
  bind-ext panic next other same_next = refl
  bind-ext hang next other same_next = refl

  pub bind_assoc {μ} :
      {C : Type μ} (step : Result A) (next : A → Result B) (last : B → Result C)
      → (step >>= next >>= last) ≡ (step >>= λ value. next value >>= last)
  bind_assoc (ok value) next last = refl
  bind_assoc panic next last = refl
  bind_assoc hang next last = refl

-- A chain that returns: its first step returned, and so did what follows.
pub bind-ok {ℓ κ} :
    {A : Type ℓ} {B : Type κ} (step : Result A) (next : A → Result B) (b : B)
    → (step >>= next) ≡ ok b
    → (a : A) × (step ≡ ok a) × (next a ≡ ok b)
bind-ok (ok a) next b h = (a, refl, h)
bind-ok panic next b h = absurd cc
bind-ok hang next b h = absurd cc

pub assert-ok {κ} :
    {B : Type κ} (test : Bool) (rest : Result B) (b : B)
    → (assert test >> rest) ≡ ok b
    → (test ≡ true) × (rest ≡ ok b)
assert-ok true rest b h = (refl, h)
assert-ok false rest b h = absurd cc

pub ok-inj {ℓ} : {A : Type ℓ} (a b : A) → ok a ≡ ok b → a ≡ b
ok-inj a b h = cc
