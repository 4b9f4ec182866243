-- ===== src/Prelude/Panic.antt =====
-- The result of code that may panic (an index out of range, an explicit `panic`).
use mathlib.Core.Path.{◌≡◌, refl}

pub data Run {ℓ} (A : Type ℓ) : Type ℓ where
  ret : A → Run A
  panic : Run A

infixl 5 ◌>>=◌
abbrev pub ◌>>=◌ {ℓ κ} : {A : Type ℓ} {B : Type κ} → Run A → (A → Run B) → Run B
ret a >>= f = f a
panic >>= f = panic

-- What a run that ends is made of.
pub bind_ret {ℓ κ} :
    {A : Type ℓ} {B : Type κ} (r : Run A) (f : A → Run B) (b : B)
    → (r >>= f) ≡ ret b
    → (a : A) × (r ≡ ret a) × (f a ≡ ret b)
bind_ret (ret a) f b e = (a, refl, e)
bind_ret panic f b e = absurd (cc)
