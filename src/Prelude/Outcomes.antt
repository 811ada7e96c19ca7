-- ===== src/Prelude/Outcomes.antt =====
-- What a call comes to: a value, an exception, or a failed assertion (which stops the program).
pub data Outcome {ℓ} (A : Type ℓ) : Type ℓ where
  done : A → Outcome A
  threw : Outcome A
  aborted : Outcome A

infixl 5 ◌>>=◌
abbrev pub ◌>>=◌ {ℓ κ} : {A : Type ℓ} {B : Type κ} → Outcome A → (A → Outcome B) → Outcome B
done a >>= f = f a
threw >>= f = threw
aborted >>= f = aborted
