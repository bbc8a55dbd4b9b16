-- ===== src/Prelude/Result.antt =====
-- Rust's `Result`, with a panic (a failed `assert!`, `unwrap` or index) as a third outcome.
use mathlib.Core.Path.{◌≡◌, refl}
use mathlib.Core.Logic.{◌⊎◌, inl, inr}

pub data Result {ℓ κ} (E : Type κ) (A : Type ℓ) : Type (ℓ ⊔ κ) where
  ok : A → Result E A
  err : E → Result E A
  panic : Result E A

infixl 5 ◌>>=◌
abbrev pub ◌>>=◌ {ℓ κ μ} :
    {E : Type μ} {A : Type ℓ} {B : Type κ} → Result E A → (A → Result E B) → Result E B
ok a >>= f = f a
err e >>= f = err e
panic >>= f = panic

module _ {ℓ κ μ} {E : Type μ} {A : Type ℓ} {B : Type κ} (f : A → Result E B) {r : B} where
  -- A chain that succeeds has a first part that does.
  pub bind_ok :
      (first : Result E A) → (first >>= f) ≡ ok r → (x : A) × (first ≡ ok x) × (f x ≡ ok r)
  bind_ok panic e = cc
  bind_ok (err _) e = cc
  bind_ok (ok x) e = (x, refl, e)

module _ {ℓ κ μ} {E : Type μ} {A : Type ℓ} {B : Type κ} (f : A → Result E B) where
  -- A chain panics where its first part does, or what follows it.
  pub bind_panic :
      (first : Result E A)
      → (first >>= f) ≡ panic
      → (first ≡ panic) ⊎ ((x : A) × (first ≡ ok x) × (f x ≡ panic))
  bind_panic panic e = inl refl
  bind_panic (err _) e = cc
  bind_panic (ok x) e = inr (x, refl, e)
