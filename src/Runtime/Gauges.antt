-- ===== src/Runtime/Gauges.antt =====
-- What the statements of `GenerateStats` of runtime.go need, and what they leave in the gauges.
use gostats.Prelude.{
  ◌<◌, some, length, length-set, get_elem?-some, get_elem?-set_there, All, ℕ, ◌≡◌, refl, ◌∙◌, ◌==◌,
  List, [], ◌∷◌, false, get_elem?, get_elem?-set_ne, set, arith,
}
use gostats.Store.{u64}
use gostats.Bytes.{Bytes}
use gostats.Runtime.{RuntimeStats, MemStats, Statement, set_gauge, set_counter}

abbrev pub gauges_after : List Statement → List ℕ → List ℕ
gauges_after [] h = h
gauges_after (set_gauge i value ∷ rest) h = gauges_after rest (set h i value)
gauges_after (set_counter i value ∷ rest) h = gauges_after rest h

-- No statement sets the gauge at `j`.
abbrev pub Skips : ℕ → List Statement → Type 0
Skips j [] = Unit
Skips j (set_gauge i value ∷ rest) = ((i == j) ≡ false) × Skips j rest
Skips j (set_counter i value ∷ rest) = Skips j rest

pub get_elem?-gauges_after :
    (j : ℕ) (ws : List Statement) (h : List ℕ)
    → Skips j ws
    → get_elem? (gauges_after ws h) j ≡ get_elem? h j
get_elem?-gauges_after j [] h k = refl
get_elem?-gauges_after j (set_gauge i value ∷ rest) h (other, k) =
    get_elem?-gauges_after j rest (set h i value) k
    ∙ get_elem?-set_ne h i j value (λ e. ground (arith, other, e))
get_elem?-gauges_after j (set_counter i value ∷ rest) h k = get_elem?-gauges_after j rest h k

pub gauges_after-cons :
    (w : Statement) (ws : List Statement) (h : List ℕ)
    → gauges_after ws (gauges_after (w ∷ []) h) ≡ gauges_after (w ∷ ws) h
gauges_after-cons (set_gauge i value) ws h = refl
gauges_after-cons (set_counter i value) ws h = refl

-- The gauges that some statements set, with what each is set to, where the last word counts.
abbrev Shows : List Statement → List ℕ → Type 0
Shows [] h = Unit
Shows (set_gauge i value ∷ ws) h = (get_elem? h i ≡ some value) × Shows ws h
Shows (set_counter i value ∷ ws) h = Shows ws h

abbrev Apart : List Statement → Type 0
Apart [] = Unit
Apart (set_gauge i value ∷ ws) = Skips i ws × Apart ws
Apart (set_counter i value ∷ ws) = Apart ws

abbrev AreThere : List Statement → List ℕ → Type 0
AreThere [] h = Unit
AreThere (set_gauge i value ∷ ws) h = (i < length h) × AreThere ws h
AreThere (set_counter i value ∷ ws) h = AreThere ws h

AreThere-length :
    (ws : List Statement) (h h' : List ℕ) → length h' ≡ length h → AreThere ws h → AreThere ws h'
AreThere-length [] h h' e t = tt
AreThere-length (set_gauge i value ∷ ws) h h' e (hi, t) =
    (omega (arith, e, hi), AreThere-length ws h h' e t)
AreThere-length (set_counter i value ∷ ws) h h' e t = AreThere-length ws h h' e t

-- Gauges that are set once each show what they were set to.
pub gauges_after-Shows :
    (ws : List Statement) (h : List ℕ) → Apart ws → AreThere ws h → Shows ws (gauges_after ws h)
gauges_after-Shows [] h a t = tt
gauges_after-Shows (set_gauge i value ∷ ws) h (skips, a) (hi, t) =
    let (old, there) = get_elem?-some h i hi in
    (
      get_elem?-gauges_after i ws (set h i value) skips ∙ get_elem?-set_there h i old value there,
      gauges_after-Shows ws (set h i value) a
          (AreThere-length ws h (set h i value) (length-set h i value) t),
    )
gauges_after-Shows (set_counter i value ∷ ws) h a t = gauges_after-Shows ws h a t

-- Each of the places is other than those before it.
abbrev pub AreDifferent : List ℕ → Type 0
AreDifferent [] = Unit
AreDifferent (i ∷ is) = All (λ j. (j == i) ≡ false) is × AreDifferent is

abbrev pub IsLabelled : List Bytes → ℕ → Type 0
IsLabelled labels i = (l : Bytes) × (get_elem? labels i ≡ some l)

-- The gauges, sys first, and the counters that have a number.
abbrev pub gauge_places : RuntimeStats → List ℕ
gauge_places r =
    r.sys ∷ r.alloc ∷ r.heap_alloc ∷ r.heap_sys ∷ r.heap_idle ∷ r.heap_inuse ∷ r.heap_released
    ∷ r.heap_objects ∷ r.next_gc ∷ r.last_gc ∷ r.gc_cpu_percent ∷ r.num_goroutine ∷ []

abbrev pub counter_places : RuntimeStats → List ℕ
counter_places r = r.total_alloc ∷ r.mallocs ∷ r.frees ∷ r.pause_total_ns ∷ r.num_gc ∷ []

-- What each gauge is to show.
abbrev pub readings : {F : Type 0} → (F → ℕ) → RuntimeStats → MemStats F → List (ℕ × ℕ)
readings percent r m =
    (r.alloc, m.alloc)
    ∷ (r.heap_alloc, m.heap_alloc)
    ∷ (r.heap_sys, m.heap_sys)
    ∷ (r.heap_idle, m.heap_idle)
    ∷ (r.heap_inuse, m.heap_inuse)
    ∷ (r.heap_released, m.heap_released)
    ∷ (r.heap_objects, m.heap_objects)
    ∷ (r.next_gc, m.next_gc)
    ∷ (r.last_gc, m.last_gc)
    ∷ (r.gc_cpu_percent, percent m.gc_cpu_fraction)
    ∷ (r.num_goroutine, m.goroutines)
    ∷ []

-- What the statements need: the gauges are there, the counters are registered, and the numbers that the
-- counters are set to are of 64 bits.
abbrev pub Runs : List Bytes → ℕ → List Statement → Type 0
Runs labels n [] = Unit
Runs labels n (set_gauge i value ∷ ws) = (i < n) × Runs labels n ws
Runs labels n (set_counter i value ∷ ws) = IsLabelled labels i × (value < u64) × Runs labels n ws
