-- ===== src/Tests/Distinct.antt =====
-- A check that no key occurs twice, for the concrete maps and sets of the runs.
use gostats.Prelude.{
  ◌≤◌, ◌≡◌, ◌∙◌, ap, Bool, true, ◌&&◌, List, [], ◌∷◌, arith, ◌==◌, Bool-cases, inl, inr, tally,
}
use gostats.Bytes.{Bytes, beq, beq→eq}

module _ {A : Type 0} (key : A → Bytes) where
  unfoldable pub distinct : List A → Bool
  distinct [] = true
  distinct (x ∷ xs) = (tally (λ y. beq (key x) (key y)) xs == 0) && distinct xs

  pub distinct_sound :
      (xs : List A) (k : Bytes) → distinct xs ≡ true → tally (λ y. beq k (key y)) xs ≤ 1
  unfolding distinct
  distinct_sound [] k h = omega arith
  distinct_sound (x ∷ xs) k h = elim (Bool-cases (beq k (key x))) [
    | inl e ↦
        let alone : tally (λ y. beq (key x) (key y)) xs ≡ 0 = ground arith in
        rw (e, ap (λ j. tally (λ y. beq j (key y)) xs) (beq→eq k (key x) e) ∙ alone) (omega arith)
    | inr e ↦ rw e (omega (arith, distinct_sound xs k (ground arith)))
  ]
