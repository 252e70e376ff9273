-- ===== src/Base/Run.antt =====
-- A run of code that asks the system: it may end in undefined behaviour, it may still wait for an
-- answer that has not been given, or it is done.
pub data Run {ℓ} (A : Type ℓ) : Type ℓ where
  fault : Run A
  waiting : Run A
  done : A → Run A

infixl 5 ◌>>=◌
abbrev pub ◌>>=◌ {ℓ κ} : {A : Type ℓ} {B : Type κ} → Run A → (A → Run B) → Run B
fault >>= f = fault
waiting >>= f = waiting
done a >>= f = f a
