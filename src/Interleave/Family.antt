-- ===== src/Interleave/Family.antt =====
-- Sums over a family of numbers: the counters of the heap, and the threads.
use gostats.Prelude.{
  ℕ, zero, suc, ◌+◌, ◌<◌, ◌≡◌, refl, ◌==◌, ==_iff, false, Bool-cases, inl, inr, ap, arith,
}

abbrev pub sum_below : (ℕ → ℕ) → ℕ → ℕ
sum_below f zero = 0
sum_below f (suc n) = f n + sum_below f n

pub sum_below-same :
    (f g : ℕ → ℕ) (n : ℕ) → ((j : ℕ) → j < n → g j ≡ f j) → sum_below g n ≡ sum_below f n
sum_below-same f g zero h = refl
sum_below-same f g (suc n) h =
    let rest = sum_below-same f g n (λ j below. h j (let b : j < n = below in omega arith)) in
    omega (arith, h n, rest)

-- One member changes.
pub sum_below-change :
    (f g : ℕ → ℕ) (i n : ℕ)
    → i < n
    → ((j : ℕ) → (i == j) ≡ false → g j ≡ f j)
    → sum_below g n + f i ≡ sum_below f n + g i
sum_below-change f g i zero b h = absurd (omega arith)
sum_below-change f g i (suc n) b h = elim (Bool-cases (i == n)) [
  | inl e ↦
      let same : i ≡ n = (==_iff i n).0 e in
      let rest = sum_below-same f g n (λ j below. h j (let b : j < n = below in ground arith)) in
      let at = ap f same in let at' = ap g same in omega arith
  | inr e ↦
      let rest = sum_below-change f g i n (let b2 : (i == n) ≡ false = e in ground arith) h in
      omega (arith, h n e, rest)
]

pub sum_below-zero : (n : ℕ) → sum_below (λ j. 0) n ≡ 0
sum_below-zero zero = refl
sum_below-zero (suc n) = omega (arith, sum_below-zero n)
