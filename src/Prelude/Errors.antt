-- ===== src/Prelude/Errors.antt =====
-- What a piece of kernel code ends in: a value, a call of `panic`, or an access that C leaves
-- undefined (a null pointer, an index outside its array).
use mathlib.Core.Path.{◌≡◌, refl}
use mathlib.Core.Option.{Option, none, some}

pub data Outcome {ℓ} (V : Type ℓ) : Type ℓ where
  panic : Outcome V
  fault : Outcome V
  ok : V → Outcome V

infixl 5 ◌>>=◌
abbrev pub ◌>>=◌ {ℓ κ} :
    {V : Type ℓ} {R : Type κ} (first : Outcome V) (next : V → Outcome R) → Outcome R
panic >>= next = panic
fault >>= next = fault
ok v >>= next = next v

-- A pointer that is followed.
abbrev pub deref {ℓ} : {V : Type ℓ} → Option V → Outcome V
deref none = fault
deref (some v) = ok v

-- A chain that ends well: its first part did, with a value from which the rest did.
pub >>=-eq-ok {ℓ κ} :
    {V : Type ℓ} {R : Type κ} (first : Outcome V) (next : V → Outcome R) {r : R}
    → (first >>= next) ≡ ok r
    → (v : V) × (first ≡ ok v) × (next v ≡ ok r)
>>=-eq-ok panic next e = cc
>>=-eq-ok fault next e = cc
>>=-eq-ok (ok v) next e = (v, refl, e)

pub ok-injective {ℓ} : {V : Type ℓ} {v w : V} → ok v ≡ ok w → v ≡ w
ok-injective e = cc
