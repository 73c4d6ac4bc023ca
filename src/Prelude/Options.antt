-- ===== src/Prelude/Options.antt =====
-- A chain of steps that may fail without saying why.
use mathlib.Core.Option.{Option, none, some}
use mathlib.Core.Logic.{◌↔◌}
use mathlib.Core.Path.{◌≡◌, refl}

infixl 5 ◌>>=◌
abbrev pub ◌>>=◌ {ℓ κ} : {A : Type ℓ} {B : Type κ} → Option A → (A → Option B) → Option B
none >>= f = none
some a >>= f = f a

pub >>=-eq-some {ℓ κ} :
    {A : Type ℓ} {B : Type κ} (m : Option A) (f : A → Option B) {b : B}
    → (m >>= f) ≡ some b
    → (a : A) × (m ≡ some a) × (f a ≡ some b)
>>=-eq-some none f h = cc
>>=-eq-some (some a) f h = (a, refl, h)

-- The first error of two checks
unfoldable pub first_of {ℓ} : {E : Type ℓ} → Option E → Option E → Option E
first_of none next = next
first_of (some e) next = some e

pub first_of-none_iff {ℓ} :
    {E : Type ℓ} (a b : Option E) → (first_of a b ≡ none) ↔ ((a ≡ none) × (b ≡ none))
unfolding first_of
first_of-none_iff none b = (λ h. (refl, h), λ h. h.1)
first_of-none_iff (some e) b = (λ h. cc, λ h. cc)
