-- ===== src/Store/Keeps.antt =====
-- The methods of counters in stats.go, and what they leave alone: the gauges and the timers.
use gostats.Prelude.{
  ℕ, zero, suc, ◌≡◌, refl, subst, ◌==◌, Bool, true, false, Option, none, some, Option-cases, inl,
  inr, List, if◌then◌else◌, Run, ret, panic, ◌>>=◌,
}
use gostats.Names.{lookup}
use gostats.Store.{Timer, Store}
use gostats.Store.Counters.{
  read, write, latch, add_value, must_rejoin, rejoin, rejoin_fuel, maybe_rejoin, add, inc,
  set_value,
}
use gostats.Store.Registry.{new_counter}

module _ {S G : Type 0} (p : S → G) where
  -- A run that ends leaves `g`.
  abbrev pub Keeps : G → Run S → Type 0
  Keeps g panic = Unit
  Keeps g (ret s) = p s ≡ g

  pub Keeps-bind :
      {A : Type 0} (g : G) (r : Run A) (f : A → Run S)
      → ((a : A) → Keeps g (f a))
      → Keeps g (r >>= f)
  Keeps-bind g (ret a) f h = h a
  Keeps-bind g panic f h = tt

  pub Keeps-option :
      (g : G) (o : Option ℕ) (x : Run S) (f : ℕ → Run S)
      → Keeps g x
      → ((j : ℕ) → Keeps g (f j))
      → Keeps g (elim o [ none ↦ x | some j ↦ f j ])
  Keeps-option g none x f hx hf = hx
  Keeps-option g (some j) x f hx hf = hf j

  pub Keeps-bool :
      (g : G) (b : Bool) (x y : Run S)
      → Keeps g x
      → Keeps g y
      → Keeps g (elim b [ true ↦ x | false ↦ y ])
  Keeps-bool g true x y hx hy = hx
  Keeps-bool g false x y hx hy = hy

  pub Keeps-if :
      (g : G) (b : Bool) (x y : Run S) → Keeps g x → Keeps g y → Keeps g (if b then x else y)
  Keeps-if g true x y hx hy = hx
  Keeps-if g false x y hx hy = hy

  pub Keeps-ret : (g : G) (r : Run S) (s : S) → r ≡ ret s → Keeps g r → p s ≡ g
  Keeps-ret g r s e h = subst (Keeps g) e h

-- One run after another.
pub Keeps-chain :
    {S T G : Type 0} (p : S → G) (q : T → G) (g : G) (r : Run S) (f : S → Run T)
    → Keeps p g r
    → ((s : S) → p s ≡ g → Keeps q g (f s))
    → Keeps q g (r >>= f)
Keeps-chain p q g (ret s) f h hf = hf s h
Keeps-chain p q g panic f h hf = tt

module _ {F : Type 0} where
  abbrev pub other_heaps : Store F → List ℕ × List Timer
  other_heaps s = (s.gauge_heap, s.timer_heap)

  rejoin-Keeps : (fuel i : ℕ) (s : Store F) → Keeps other_heaps (other_heaps s) (rejoin fuel i s)
  unfolding rejoin
  rejoin-Keeps zero i s = tt
  rejoin-Keeps (suc fuel) i s =
      let g = other_heaps s in
      Keeps-bind other_heaps g (read i s) _ (λ c.
        Keeps-option other_heaps g (lookup c.name s.counters) _ _ refl (λ j.
          Keeps-bool other_heaps g (j == i) _ _ refl (
            Keeps-bind other_heaps g (read j (write i (latch c).1 s)) _ (λ other.
              Keeps-bool other_heaps g (must_rejoin other) _ _
                (rejoin-Keeps fuel j
                  (write j (add_value (latch c).0 other) (write i (latch c).1 s)))
                refl))))

  maybe_rejoin-Keeps : (i : ℕ) (s : Store F) → Keeps other_heaps (other_heaps s) (maybe_rejoin i s)
  unfolding maybe_rejoin
  maybe_rejoin-Keeps i s =
      let g = other_heaps s in
      Keeps-bind other_heaps g (read i s) _
        (λ c. Keeps-if other_heaps g (must_rejoin c) _ _ (rejoin-Keeps rejoin_fuel i s) refl)

  pub set_value-Keeps :
      (i value : ℕ) (s : Store F) → Keeps other_heaps (other_heaps s) (set_value i value s)
  unfolding set_value
  set_value-Keeps i value s =
      Keeps-bind other_heaps (other_heaps s) (read i s) _
        (λ c. maybe_rejoin-Keeps i (write i (record c { current_value = value }) s))

  pub inc-Keeps : (i : ℕ) (s : Store F) → Keeps other_heaps (other_heaps s) (inc i s)
  unfolding inc add
  inc-Keeps i s =
      Keeps-bind other_heaps (other_heaps s) (read i s) _
        (λ c. maybe_rejoin-Keeps i (write i (add_value 1 c) s))

  pub new_counter-other_heaps :
      (name : List ℕ) (s : Store F) → other_heaps (new_counter name s).1 ≡ other_heaps s
  unfolding new_counter
  new_counter-other_heaps name s = elim (Option-cases (lookup name s.counters)) [
    | inl e ↦ rw (e, new_counter) refl
    | inr (i, e) ↦ rw (e, new_counter) refl
  ]
