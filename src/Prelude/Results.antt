-- ===== src/Prelude/Results.antt =====
-- What a fallible function of Go returns: an error, which ends the chain of calls, or a value.
use egress_gateway.Prelude.{
  ◌≡◌, ◌⊎◌, inl, inr, refl, ap, arith, Bool, true, false, Option, none, some,
}

pub data Result {ℓ} (E : Type 0) (A : Type ℓ) : Type ℓ where
  err : E → Result E A
  ok : A → Result E A

infixl 5 ◌>>=◌ ◌>>◌
unfoldable pub ◌>>=◌ {ℓ κ} :
    {E : Type 0} {A : Type ℓ} {B : Type κ} → Result E A → (A → Result E B) → Result E B
err e >>= next = err e
ok a >>= next = next a

unfoldable pub ◌>>◌ {ℓ} : {E : Type 0} {B : Type ℓ} → Result E (Unit {0}) → Result E B → Result E B
unfolding ◌>>=◌
check >> next = check >>= (λ done. next)

-- `if bad { return err }`
unfoldable pub refuse_if : {E : Type 0} → Bool → E → Result E (Unit {0})
refuse_if true e = err e
refuse_if false e = ok tt

-- A call that failed, without its value, as this error
unfoldable pub or_fail {ℓ} : {E : Type 0} {A : Type ℓ} → Option A → E → Result E A
or_fail none e = err e
or_fail (some a) e = ok a

-- What a chain that succeeds says of its steps.
module _ {E : Type 0} where
  pub >>=-ok {ℓ κ} :
      {A : Type ℓ} {B : Type κ} {b : B} (first : Result E A) (next : A → Result E B)
      → (first >>= next) ≡ ok b
      → (value : A) × (first ≡ ok value) × (next value ≡ ok b)
  unfolding ◌>>=◌
  >>=-ok (err e) next h = cc
  >>=-ok (ok a) next h = (a, refl, h)

  pub >>-ok {ℓ} :
      {B : Type ℓ} {b : B} (check : Result E (Unit {0})) (next : Result E B)
      → (check >> next) ≡ ok b
      → (check ≡ ok tt) × (next ≡ ok b)
  unfolding ◌>>◌ ◌>>=◌
  >>-ok (err e) next h = cc
  >>-ok (ok tt) next h = (refl, h)

  pub refuse_if-ok {ℓ} :
      {B : Type ℓ} {b : B} (bad : Bool) (e : E) (next : Result E B)
      → (refuse_if bad e >> next) ≡ ok b
      → (bad ≡ false) × (next ≡ ok b)
  unfolding refuse_if ◌>>◌ ◌>>=◌
  refuse_if-ok true e next h = cc
  refuse_if-ok false e next h = (refl, h)

  pub or_fail-ok {ℓ} : {A : Type ℓ} {a : A} (o : Option A) (e : E) → or_fail o e ≡ ok a → o ≡ some a
  unfolding or_fail
  or_fail-ok none e h = cc
  or_fail-ok (some a) e h = ground arith

  pub ok-injective {ℓ} : {A : Type ℓ} {a b : A} → ◌≡◌ {A = Result E A} (ok a) (ok b) → a ≡ b
  ok-injective h = ground arith

  err-injective {ℓ} : {A : Type ℓ} {c d : E} → ◌≡◌ {A = Result E A} (err c) (err d) → c ≡ d
  err-injective h = ground arith

  -- And what a chain that fails says of them.
  pub >>=-err {ℓ κ} :
      {A : Type ℓ} {B : Type κ} (first : Result E A) (next : A → Result E B) {e : E}
      → (first >>= next) ≡ err e
      → (first ≡ err e) ⊎ ((value : A) × (first ≡ ok value) × (next value ≡ err e))
  unfolding ◌>>=◌
  >>=-err (err e) next h = inl (ap err (err-injective h))
  >>=-err (ok a) next h = inr (a, refl, h)

  pub refuse_if-err {ℓ} :
      {B : Type ℓ} (bad : Bool) (e : E) (next : Result E B) {d : E}
      → (refuse_if bad e >> next) ≡ err d
      → (e ≡ d) ⊎ (next ≡ err d)
  unfolding refuse_if ◌>>◌ ◌>>=◌
  refuse_if-err true e next h = inl (ground arith)
  refuse_if-err false e next h = inr h

  pub or_fail-err {ℓ} : {A : Type ℓ} (o : Option A) (e : E) {d : E} → or_fail o e ≡ err d → e ≡ d
  unfolding or_fail
  or_fail-err none e h = ground arith
  or_fail-err (some a) e h = cc
