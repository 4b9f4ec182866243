-- ===== src/Runtime.antt =====
-- runtime.go. What `runtime.ReadMemStats` and `runtime.NumGoroutine` give is an argument; `percent` is the
-- conversion of `GCCPUFraction * 100` to a `uint64`.
pub mod Gauges
pub mod Sets
use gostats.Prelude.{ℕ, List, [], ◌∷◌, Run, ret, panic, ◌>>=◌}
use gostats.Bytes.{codes}
use gostats.Scopes.Interface.{Scope, scope_counter, scope_gauge}
use gostats.Store.{Store}
use gostats.Store.Counters.{set_value}
use gostats.Store.Registry.{gauge_set}

-- The gauges and counters, by their places in the store.
pub record RuntimeStats : Type 0 where
  pub alloc : ℕ
  pub total_alloc : ℕ
  pub sys : ℕ
  pub lookups : ℕ
  pub mallocs : ℕ
  pub frees : ℕ
  pub heap_alloc : ℕ
  pub heap_sys : ℕ
  pub heap_idle : ℕ
  pub heap_inuse : ℕ
  pub heap_released : ℕ
  pub heap_objects : ℕ
  pub next_gc : ℕ
  pub last_gc : ℕ
  pub pause_total_ns : ℕ
  pub num_gc : ℕ
  pub gc_cpu_percent : ℕ
  pub num_goroutine : ℕ

-- The fields of `runtime.MemStats` that are read, and the number of goroutines.
pub record MemStats (F : Type 0) : Type 0 where
  pub alloc : ℕ
  pub total_alloc : ℕ
  pub mallocs : ℕ
  pub frees : ℕ
  pub heap_alloc : ℕ
  pub heap_sys : ℕ
  pub heap_idle : ℕ
  pub heap_inuse : ℕ
  pub heap_released : ℕ
  pub heap_objects : ℕ
  pub next_gc : ℕ
  pub last_gc : ℕ
  pub pause_total_ns : ℕ
  pub num_gc : ℕ
  pub gc_cpu_fraction : F
  pub goroutines : ℕ

-- A statement of `GenerateStats`.
pub data Statement : Type 0 where
  set_gauge : ℕ → ℕ → Statement
  set_counter : ℕ → ℕ → Statement

module _ {F : Type 0} where
  unfoldable pub new_runtime_stats : Scope → Store F → Run (RuntimeStats × Store F)
  unfolding scope_counter scope_gauge
  new_runtime_stats scope s0 = do
    (alloc, s1) ← scope_gauge scope (codes "alloc") s0
    (total_alloc, s2) ← scope_counter scope (codes "totalAlloc") s1
    (sys, s3) ← scope_gauge scope (codes "sys") s2
    (lookups, s4) ← scope_counter scope (codes "lookups") s3
    (mallocs, s5) ← scope_counter scope (codes "mallocs") s4
    (frees, s6) ← scope_counter scope (codes "frees") s5
    (heap_alloc, s7) ← scope_gauge scope (codes "heapAlloc") s6
    (heap_sys, s8) ← scope_gauge scope (codes "heapSys") s7
    (heap_idle, s9) ← scope_gauge scope (codes "heapIdle") s8
    (heap_inuse, s10) ← scope_gauge scope (codes "heapInuse") s9
    (heap_released, s11) ← scope_gauge scope (codes "heapReleased") s10
    (heap_objects, s12) ← scope_gauge scope (codes "heapObjects") s11
    (next_gc, s13) ← scope_gauge scope (codes "nextGC") s12
    (last_gc, s14) ← scope_gauge scope (codes "lastGC") s13
    (pause_total_ns, s15) ← scope_counter scope (codes "pauseTotalNs") s14
    (num_gc, s16) ← scope_counter scope (codes "numGC") s15
    (gc_cpu_percent, s17) ← scope_gauge scope (codes "gcCPUPercent") s16
    (num_goroutine, s18) ← scope_gauge scope (codes "numGoroutine") s17
    ret (
      record {
        alloc = alloc;
        total_alloc = total_alloc;
        sys = sys;
        lookups = lookups;
        mallocs = mallocs;
        frees = frees;
        heap_alloc = heap_alloc;
        heap_sys = heap_sys;
        heap_idle = heap_idle;
        heap_inuse = heap_inuse;
        heap_released = heap_released;
        heap_objects = heap_objects;
        next_gc = next_gc;
        last_gc = last_gc;
        pause_total_ns = pause_total_ns;
        num_gc = num_gc;
        gc_cpu_percent = gc_cpu_percent;
        num_goroutine = num_goroutine;
      },
      s18,
    )

  -- The statements of `GenerateStats`, in order.
  abbrev pub statements : (F → ℕ) → RuntimeStats → MemStats F → List Statement
  statements percent r m =
      set_gauge r.alloc m.alloc
      ∷ set_counter r.total_alloc m.total_alloc
      ∷ set_counter r.mallocs m.mallocs
      ∷ set_counter r.frees m.frees
      ∷ set_gauge r.heap_alloc m.heap_alloc
      ∷ set_gauge r.heap_sys m.heap_sys
      ∷ set_gauge r.heap_idle m.heap_idle
      ∷ set_gauge r.heap_inuse m.heap_inuse
      ∷ set_gauge r.heap_released m.heap_released
      ∷ set_gauge r.heap_objects m.heap_objects
      ∷ set_gauge r.next_gc m.next_gc
      ∷ set_gauge r.last_gc m.last_gc
      ∷ set_counter r.pause_total_ns m.pause_total_ns
      ∷ set_counter r.num_gc m.num_gc
      ∷ set_gauge r.gc_cpu_percent (percent m.gc_cpu_fraction)
      ∷ set_gauge r.num_goroutine m.goroutines
      ∷ []

  unfoldable pub execute : Statement → Store F → Run (Store F)
  unfolding set_value gauge_set
  execute (set_gauge i value) s = gauge_set i value s
  execute (set_counter i value) s = set_value i value s

  unfoldable pub execute_all : List Statement → Store F → Run (Store F)
  unfolding execute
  execute_all [] s = ret s
  execute_all (x ∷ rest) s = do s' ← execute x s; execute_all rest s'

  unfoldable pub generate_runtime_stats :
      (F → ℕ) → RuntimeStats → MemStats F → Store F → Run (Store F)
  unfolding execute_all
  generate_runtime_stats percent r m s = execute_all (statements percent r m) s
