-- ===== src/Prelude/Result.antt =====
-- The result of a call that throws, or that returns an error in place of a value.
use mathlib.Core.Bool.{Bool, true, false}
use mathlib.Core.Option.{Option, none, some}

pub data Result {ℓ} (E : Type 0) (A : Type ℓ) : Type ℓ where
  ok : A → Result E A
  err : E → Result E A

module _ {E : Type 0} where
  infixl 5 ◌>>=◌ ◌>>◌
  abbrev pub ◌>>=◌ {κ ℓ} : {B : Type κ} {C : Type ℓ} → Result E B → (B → Result E C) → Result E C
  err x >>= k = err x
  ok b >>= k = k b

  abbrev pub ◌>>◌ {ℓ} : {C : Type ℓ} → Result E (Unit {0}) → Result E C → Result E C
  check >> next = check >>= λ _. next

  -- An early return.
  abbrev pub refuse_if : Bool → E → Result E (Unit {0})
  refuse_if true x = err x
  refuse_if false x = ok tt

  abbrev pub or_fail {ℓ} : {B : Type ℓ} → Option B → E → Result E B
  or_fail none x = err x
  or_fail (some b) x = ok b
