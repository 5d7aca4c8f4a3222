-- ===== src/Prelude/Halting.antt =====
-- What a call comes to where assertions are enabled: `assert_func` loops for ever, so a failed
-- A_ASSERT is a halt, from which no later statement runs.
use mathlib.Core.Bool.{Bool, true, false}

pub data Outcome {ℓ} (A : Type ℓ) : Type ℓ where
  ran : A → Outcome A
  halted : Outcome A

infixl 5 ◌>>=◌ ◌>>◌
abbrev pub ◌>>=◌ {ℓ κ} : {A : Type ℓ} {B : Type κ} → Outcome A → (A → Outcome B) → Outcome B
ran a >>= f = f a
halted >>= f = halted

abbrev pub ◌>>◌ {ℓ} : {B : Type ℓ} → Outcome (Unit {0}) → Outcome B → Outcome B
m >> k = m >>= λ _. k

abbrev pub assert : Bool → Outcome (Unit {0})
assert true = ran tt
assert false = halted

-- The call returns, and its result satisfies `P`.
abbrev pub Returns {ℓ} : {A : Type ℓ} → (A → Type 0) → Outcome A → Type 0
Returns P (ran a) = P a
Returns P halted = ⊥

-- A weaker postcondition, and a postcondition of a sequence.
pub Returns-mono {ℓ} :
    {A : Type ℓ} {P : A → Type 0} (Q : A → Type 0) (o : Outcome A)
    → Returns P o
    → ((a : A) → P a → Returns Q (ran a))
    → Returns Q o
Returns-mono Q (ran a) h f = f a h
Returns-mono Q halted h f = h

pub Returns-bind {ℓ κ} :
    {A : Type ℓ} {B : Type κ} (P : A → Type 0) (Q : B → Type 0) (o : Outcome A) (k : A → Outcome B)
    → Returns P o
    → ((a : A) → P a → Returns Q (k a))
    → Returns Q (o >>= k)
Returns-bind P Q (ran a) k h f = f a h
Returns-bind P Q halted k h f = absurd h

-- A sequence that returns has run its first part.
pub Returns-first {ℓ κ} :
    {A : Type ℓ} {B : Type κ} (o : Outcome A) (k : A → Outcome B)
    → Returns (λ _. Unit) (o >>= k)
    → (a : A) × Returns (λ _. Unit) (k a)
Returns-first (ran a) k h = (a, h)
Returns-first halted k h = absurd h

-- If the call returns, its result satisfies `P`.
abbrev pub IfReturns {ℓ} : {A : Type ℓ} → (A → Type 0) → Outcome A → Type 0
IfReturns P (ran a) = P a
IfReturns P halted = Unit

pub IfReturns-bind {ℓ κ} :
    {A : Type ℓ} {B : Type κ} (P : A → Type 0) (Q : B → Type 0) (o : Outcome A) (k : A → Outcome B)
    → IfReturns P o
    → ((a : A) → P a → IfReturns Q (k a))
    → IfReturns Q (o >>= k)
IfReturns-bind P Q (ran a) k h f = f a h
IfReturns-bind P Q halted k h f = tt

pub IfReturns-mono {ℓ} :
    {A : Type ℓ} (P Q : A → Type 0) (o : Outcome A)
    → IfReturns P o
    → ((a : A) → P a → Q a)
    → IfReturns Q o
IfReturns-mono P Q (ran a) h f = f a h
IfReturns-mono P Q halted h f = tt

pub Returns→IfReturns {ℓ} :
    {A : Type ℓ} (P : A → Type 0) (o : Outcome A) → Returns P o → IfReturns P o
Returns→IfReturns P (ran a) h = h
Returns→IfReturns P halted h = tt

-- If the call does not return, `P`.
abbrev pub IfHalts {ℓ} : {A : Type ℓ} → Type 0 → Outcome A → Type 0
IfHalts P (ran a) = Unit
IfHalts P halted = P

pub IfHalts-bind {ℓ κ} :
    {A : Type ℓ} {B : Type κ} (P : Type 0) (o : Outcome A) (k : A → Outcome B)
    → IfHalts P o
    → ((a : A) → IfHalts P (k a))
    → IfHalts P (o >>= k)
IfHalts-bind P (ran a) k h f = f a
IfHalts-bind P halted k h f = h

pub Returns→IfHalts {ℓ} :
    {A : Type ℓ} (Q : A → Type 0) (P : Type 0) (o : Outcome A) → Returns Q o → IfHalts P o
Returns→IfHalts Q P (ran a) h = tt
Returns→IfHalts Q P halted h = absurd h
