-- ===== src/Base/Fault.antt =====
-- Code that can stop: `none` is a failed `assert`, or an access outside of an object.
use mathlib.Core.Path.{◌≡◌, refl}
use mathlib.Core.Bool.{Bool, true, false}
use mathlib.Core.Option.{Option, none, some}
use c_fs_subscriber.Base.Tests.{if◌then◌else◌}

infixl 5 ◌>>=◌ ◌>>◌
abbrev pub ◌>>=◌ {ℓ κ} : {A : Type ℓ} {B : Type κ} → Option A → (A → Option B) → Option B
none >>= f = none
some a >>= f = f a

abbrev pub ◌>>◌ {ℓ} : {B : Type ℓ} → Option (Unit {0}) → Option B → Option B
m >> k = m >>= λ _. k

-- `assert(b)`
abbrev pub assert : Bool → Option (Unit {0})
assert true = some tt
assert false = none

-- Inversion of a run of two steps that does not stop.
pub >>=-eq-some {ℓ κ} :
    {A : Type ℓ} {B : Type κ} (m : Option A) (f : A → Option B) {b : B}
    → (m >>= f) ≡ some b
    → (a : A) × (m ≡ some a) × (f a ≡ some b)
>>=-eq-some none f h = cc
>>=-eq-some (some a) f h = (a, refl, h)

-- What holds of the result, if there is one.
abbrev pub Each {ℓ κ} : {A : Type ℓ} → (A → Type κ) → Option A → Type κ
Each P none = Unit
Each P (some a) = P a

pub Each-bind {ℓ κ μ ν} :
    {A : Type ℓ} {B : Type κ} (P : A → Type μ) (Q : B → Type ν) (o : Option A) (k : A → Option B)
    → Each P o
    → ((a : A) → P a → Each Q (k a))
    → Each Q (o >>= k)
Each-bind P Q none k h f = tt
Each-bind P Q (some a) k h f = f a h

pub Each-if {ℓ κ} :
    {A : Type ℓ} (P : A → Type κ) (b : Bool) (x y : Option A)
    → Each P x
    → Each P y
    → Each P (if b then x else y)
Each-if P true x y h k = h
Each-if P false x y h k = k

-- Where it does not matter what came before.
pub Each-any {ℓ} : {A : Type ℓ} (o : Option A) → Each (λ _. Unit {0}) o
Each-any none = tt
Each-any (some a) = tt

pub Each-map {ℓ κ μ} :
    {A : Type ℓ} (P : A → Type κ) (Q : A → Type μ) (o : Option A)
    → ((a : A) → P a → Q a)
    → Each P o
    → Each Q o
Each-map P Q none f h = tt
Each-map P Q (some a) f h = f a h
