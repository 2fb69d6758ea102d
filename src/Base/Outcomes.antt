-- ===== src/Base/Outcomes.antt =====
-- How a run of C code ends: with a value, in undefined behaviour, or in `abort`.
use mathlib.Core.Path.{◌≡◌, refl}

pub data Outcome {ℓ} (A : Type ℓ) : Type ℓ where
  ok : A → Outcome A
  fault : Outcome A
  abort : Outcome A

infixl 5 ◌>>=◌
abbrev pub ◌>>=◌ {ℓ κ} : {A : Type ℓ} {B : Type κ} → Outcome A → (A → Outcome B) → Outcome B
ok a >>= f = f a
fault >>= f = fault
abort >>= f = abort

-- What a function that returns an `int` tells its caller: 0 or -1.
pub data Status : Type 0 where
  done failed : Status

-- The run ends with a value, and the value satisfies `P`.
abbrev pub Ends {ℓ} : {A : Type ℓ} → Outcome A → (A → Type 0) → Type 0
Ends (ok a) P = P a
Ends fault P = ⊥
Ends abort P = ⊥

-- A run that ends well goes on.
pub Ends-bind {ℓ κ} :
    {A : Type ℓ} {B : Type κ} (P : A → Type 0) (Q : B → Type 0) (r : Outcome A) (f : A → Outcome B)
    → Ends r P
    → ((a : A) → P a → Ends (f a) Q)
    → Ends (r >>= f) Q
Ends-bind P Q (ok a) f h next = next a h
Ends-bind P Q fault f h next = h
Ends-bind P Q abort f h next = h

pub Ends-mono {ℓ} :
    {A : Type ℓ} (P Q : A → Type 0) (r : Outcome A) → Ends r P → ((a : A) → P a → Q a) → Ends r Q
Ends-mono P Q (ok a) h weaken = weaken a h
Ends-mono P Q fault h weaken = h
Ends-mono P Q abort h weaken = h

pub Ends-ok {ℓ} :
    {A : Type ℓ} (P : A → Type 0) (r : Outcome A) → Ends r P → (a : A) × (r ≡ ok a) × P a
Ends-ok P (ok a) h = (a, refl, h)
Ends-ok P fault h = absurd h
Ends-ok P abort h = absurd h

-- The value is the run's own.
pub Ends-self :
    {A : Type 0} (P : A → Type 0) (r : Outcome A) → Ends r P → Ends r (λ a. P a × (r ≡ ok a))
Ends-self P (ok a) h = (h, refl)
Ends-self P fault h = h
Ends-self P abort h = h

-- What a run that ends with a value went through.
pub >>=-eq-ok {ℓ κ} :
    {A : Type ℓ} {B : Type κ} (r : Outcome A) (f : A → Outcome B) (b : B)
    → (r >>= f) ≡ ok b
    → (a : A) × (r ≡ ok a) × (f a ≡ ok b)
>>=-eq-ok (ok a) f b e = (a, refl, e)
>>=-eq-ok fault f b e = absurd (cc e)
>>=-eq-ok abort f b e = absurd (cc e)
