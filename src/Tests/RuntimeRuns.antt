-- ===== src/Tests/RuntimeRuns.antt =====
-- An instance for runtime.go.
use gostats.Prelude.{All, arith, ℕ, ◌≡◌, refl, false, some, List, [], get_elem?, replicate, ret}
use gostats.Bytes.{Bytes, codes}
use gostats.Store.{Counter, Store}
use gostats.Store.Labels.{IsValid}
use gostats.Runtime.{RuntimeStats, MemStats, generate_runtime_stats}
use gostats.Runtime.Gauges.{AreDifferent, gauge_places, readings}
use gostats.Runtime.Sets.{generate_runtime_stats-Shows}
use gostats.Store.Labels.{IsCounter}
use gostats.Tests.StoreRuns.{store}

abbrev plain_counter : Counter
plain_counter = record {
  current_value = 0;
  last_sent_value = 0;
  idle_flushes = 0;
  detached = false;
  has_store = false;
  name = [];
}

abbrev runtime_store : Store ℕ
runtime_store = record store {
  counter_heap = replicate 6 plain_counter;
  counters = [];
  gauge_heap = replicate 12 0;
  gauges = [];
  timer_heap = [];
  timers = [];
}

abbrev places : RuntimeStats
places = record {
  alloc = 0;
  total_alloc = 0;
  sys = 1;
  lookups = 1;
  mallocs = 2;
  frees = 3;
  heap_alloc = 2;
  heap_sys = 3;
  heap_idle = 4;
  heap_inuse = 5;
  heap_released = 6;
  heap_objects = 7;
  next_gc = 8;
  last_gc = 9;
  pause_total_ns = 4;
  num_gc = 5;
  gc_cpu_percent = 10;
  num_goroutine = 11;
}

abbrev mem_stats : MemStats ℕ
mem_stats = record {
  alloc = 10;
  total_alloc = 20;
  mallocs = 30;
  frees = 40;
  heap_alloc = 50;
  heap_sys = 60;
  heap_idle = 70;
  heap_inuse = 80;
  heap_released = 90;
  heap_objects = 100;
  next_gc = 110;
  last_gc = 120;
  pause_total_ns = 130;
  num_gc = 140;
  gc_cpu_fraction = 2;
  goroutines = 3;
}

abbrev runtime_labels : List Bytes
runtime_labels = replicate 6 (codes "c")

runtime_store-IsValid : IsValid runtime_labels runtime_store
runtime_store-IsValid =
    let plain : IsCounter (codes "c") plain_counter =
      (omega arith, omega arith, λ h. absurd (cc)) in
    record {
      heap = (plain, (plain, (plain, (plain, (plain, (plain, tt))))));
      entries = tt;
      unique = tt;
      gauges = tt;
      timers = tt;
    }

places-AreDifferent : AreDifferent (gauge_places places)
places-AreDifferent = (
  (refl, (refl, (refl, (refl, (refl, (refl, (refl, (refl, (refl, (refl, (refl, tt))))))))))),
  (
    (refl, (refl, (refl, (refl, (refl, (refl, (refl, (refl, (refl, (refl, tt)))))))))),
    (
      (refl, (refl, (refl, (refl, (refl, (refl, (refl, (refl, (refl, tt))))))))),
      (
        (refl, (refl, (refl, (refl, (refl, (refl, (refl, (refl, tt)))))))),
        (
          (refl, (refl, (refl, (refl, (refl, (refl, (refl, tt))))))),
          (
            (refl, (refl, (refl, (refl, (refl, (refl, tt)))))),
            (
              (refl, (refl, (refl, (refl, (refl, tt))))),
              (
                (refl, (refl, (refl, (refl, tt)))),
                ((refl, (refl, (refl, tt))), ((refl, (refl, tt)), ((refl, tt), (tt, tt)))),
              ),
            ),
          ),
        ),
      ),
    ),
  ),
)

generate_runtime_stats-Shows_example :
    (s' : Store ℕ) × (generate_runtime_stats (λ n. n) places mem_stats runtime_store ≡ ret s')
    × IsValid runtime_labels s'
    × (s'.calls ≡ [])
    × All (λ e. get_elem? s'.gauge_heap e.0 ≡ some e.1) (readings (λ n. n) places mem_stats)
    × (get_elem? s'.gauge_heap 1 ≡ some 0)
generate_runtime_stats-Shows_example =
    generate_runtime_stats-Shows runtime_labels (λ n. n) places mem_stats runtime_store
      runtime_store-IsValid places-AreDifferent
      (
        omega arith,
        (
          omega arith,
          (
            omega arith,
            (
              omega arith,
              (
                omega arith,
                (
                  omega arith,
                  (
                    omega arith,
                    (omega arith, (omega arith, (omega arith, (omega arith, (omega arith, tt))))),
                  ),
                ),
              ),
            ),
          ),
        ),
      )
      (
        (codes "c", refl),
        ((codes "c", refl), ((codes "c", refl), ((codes "c", refl), ((codes "c", refl), tt)))),
      )
      (omega arith, (omega arith, (omega arith, (omega arith, (omega arith, tt)))))
