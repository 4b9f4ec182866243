-- ===== src/Settings/Rounding.antt =====
-- The arithmetic of `pruneAfterFlushesFromEnv` in stats.go.
use native.Mathlib.Nat.{div-add-mod, mod-lt, mul-le-mul_left}
use gostats.Prelude.{
  ℕ, zero, suc, ◌+◌, ◌-◌, ◌*◌, ◌/◌, ◌%◌, ◌<◌, ◌≤◌, ◌≡◌, refl, ◌⊎◌, inl, inr, ltb, ltb→lt, lt→ltb,
  Bool-cases, true, arith,
}
use gostats.Store.{u32}
use gostats.Settings.{i64, prune_flushes}

quotient_positive : (sum n q r : ℕ) → n * q + r ≡ sum → r < n → n ≤ sum → 0 < q
quotient_positive sum n zero r e small h = omega arith
quotient_positive sum n (suc q) r e small h = omega arith

-- A number of flushes that waits for at least `idle` seconds, or for the most flushes there can be, and
-- that is no greater than it has to be.
abbrev pub RoundsUp : ℕ → ℕ → ℕ → Type 0
RoundsUp idle interval n =
    (0 < n) × (n < u32) × ((idle ≤ interval * n) ⊎ (n ≡ u32 - 1)) × (interval * n < idle + interval)

-- For a positive number of seconds and a positive interval whose sum is at most the greatest `int64`, the
-- number of flushes is at least 1 and fits `uint32`, the flushes take at least the seconds unless the
-- number is the greatest `uint32`, and one flush less would take fewer seconds than asked.
pub prune_flushes-RoundsUp :
    (idle interval : ℕ)
    → 0 < idle
    → 0 < interval
    → idle + interval ≤ i64
    → RoundsUp idle interval (prune_flushes idle interval)
unfolding prune_flushes
prune_flushes-RoundsUp idle interval hi hf bound =
    let sum = idle + interval - 1 in
    let q = sum / interval in
    let split = div-add-mod sum interval in
    let small = mod-lt sum hf in
    let fits : ltb sum i64 ≡ true = lt→ltb sum i64 (omega arith) in
    let one_more : 0 < q =
      quotient_positive sum interval q (sum % interval) split small (omega arith) in
    rw fits (elim (Bool-cases (ltb (u32 - 1) q)) [
      | inl e ↦
          let over = ltb→lt (u32 - 1) q e in
          let less = mul-le-mul_left {m = u32 - 1} {n = q} interval (omega (arith, over)) in
          rw e (omega arith, omega arith, inr refl, omega (arith, less, split, small))
      | inr e ↦ rw e (
        omega (arith, one_more),
        ground arith,
        inl (omega (arith, split, small)),
        omega (arith, split, small),
      )
    ])
