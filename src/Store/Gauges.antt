-- ===== src/Store/Gauges.antt =====
-- `Add`, `Sub` and `Set` of a gauge.
use gostats.Prelude.{
  ℕ, ◌+◌, ◌-◌, ◌%◌, ◌<◌, ◌≡◌, refl, ◌∙◌, ap, some, List, arith, get_elem?, get_elem?-set_there, set,
  set-set, set_self, Run, ret, ◌>>=◌,
}
use gostats.Store.{u64, Store}
use gostats.Store.Registry.{complement_pred, gauge_add, gauge_sub}

-- The complement of `value - 1` is what `uint64` has for `-value`.
complement_pred-negates :
    (g value : ℕ) → value < u64 → (g + complement_pred value) % u64 ≡ (g + u64 - value) % u64
unfolding complement_pred
complement_pred-negates g value h = omega arith

module _ {F : Type 0} where
  abbrev pub set_gauge : ℕ → ℕ → Store F → Store F
  set_gauge i g s = record s { gauge_heap = set s.gauge_heap i g }

  gauge_add_lem :
      (i value g : ℕ) (s : Store F)
      → get_elem? s.gauge_heap i ≡ some g
      → gauge_add i value s ≡ ret (set_gauge i ((g + value) % u64) s)
  unfolding gauge_add
  gauge_add_lem i value g s e = rw (e, gauge_add) refl

  -- `Sub` of a gauge subtracts in `uint64`, although it adds the complement of `value - 1`.
  pub gauge_sub-subtracts :
      (i value g : ℕ) (s : Store F)
      → get_elem? s.gauge_heap i ≡ some g
      → value < u64
      → gauge_sub i value s ≡ ret (set_gauge i ((g + u64 - value) % u64) s)
  unfolding gauge_sub
  gauge_sub-subtracts i value g s e h =
      gauge_add_lem i (complement_pred value) g s e
      ∙ ap (λ (n : ℕ). ret (set_gauge i n s)) (complement_pred-negates g value h)

  -- For words, `Sub` of a gauge undoes `Add` of the same value.
  pub gauge_sub-gauge_add :
      (i value g : ℕ) (s : Store F)
      → get_elem? s.gauge_heap i ≡ some g
      → g < u64
      → value < u64
      → (gauge_add i value s >>= gauge_sub i value) ≡ ret s
  gauge_sub-gauge_add i value g s e hg h =
      let s1 = set_gauge i ((g + value) % u64) s in
      let there = get_elem?-set_there s.gauge_heap i g ((g + value) % u64) e in
      let back : ((g + value) % u64 + u64 - value) % u64 ≡ g = omega arith in
      ap (λ (r : Run (Store F)). r >>= gauge_sub i value) (gauge_add_lem i value g s e)
      ∙ gauge_sub-subtracts i value ((g + value) % u64) s1 there h
      ∙ ap (λ (k : List ℕ). ret (record s { gauge_heap = k }))
          (set-set s.gauge_heap i ((g + value) % u64) (((g + value) % u64 + u64 - value) % u64)
            ∙ ap (set s.gauge_heap i) back
            ∙ set_self s.gauge_heap i g e)
