-- ===== src/Base/Results.antt =====
-- Rust's `Result<A, E>`, with a third case for a panic and a fourth for a loop whose fuel ran out.
use mathlib.Core.Path.{◌≡◌, refl}

pub data Result {ℓ} (E : Type 0) (A : Type ℓ) : Type ℓ where
  timeout : Result E A
  panic : Result E A
  err : E → Result E A
  ok : A → Result E A

module _ {κ ℓ} {Failure : Type 0} {Value : Type κ} {Next : Type ℓ} where
  infixl 5 ◌>>=◌
  abbrev pub ◌>>=◌ : Result Failure Value → (Value → Result Failure Next) → Result Failure Next
  timeout >>= next = timeout
  panic >>= next = panic
  err failure >>= next = err failure
  ok value >>= next = next value

  -- What a chain returns comes from a first step that returned.
  pub >>=-ok :
      (first : Result Failure Value) (next : Value → Result Failure Next) {last : Next}
      → first >>= next ≡ ok last
      → (value : Value) × (first ≡ ok value) × (next value ≡ ok last)
  >>=-ok timeout next returned = cc
  >>=-ok panic next returned = cc
  >>=-ok (err failure) next returned = cc
  >>=-ok (ok value) next returned = (value, refl, returned)

pub ok-injective {ℓ} :
    {Failure : Type 0} {Value : Type ℓ} (v w : Value)
    → ◌≡◌ {A = Result Failure Value} (ok v) (ok w)
    → v ≡ w
ok-injective v w same = cc
