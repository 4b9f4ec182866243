-- ===== src/Tests/StoreRuns.antt =====
-- Runs and instances for stats.go.
use gostats.Prelude.{ℕ, ◌≡◌, refl, true, false, some, List, [], ◌∷◌, arith, Run, ret, panic, ◌>>=◌}
use gostats.Bytes.{Bytes, beq, codes}
use gostats.Names.{lookup, delete}
use gostats.Store.{Timer, Counter, Call, Store}
use gostats.Store.Counters.{write, latch, add, set_value}
use gostats.Store.Gauges.{gauge_sub-gauge_add}
use gostats.Store.Registry.{add_timer_value, gauge_add, gauge_sub, new_counter}
use gostats.Store.Flush.{
  write_timer, visit_timer, flush, visit_counters, prune_counter, visit_timers, visit_gauges,
  generate_stats,
}
use gostats.Store.Labels.{IsValid}
use gostats.Store.Flush.Quiet.{IsQuiet}
use gostats.Store.Flush.Conserve.{Conserved}
use gostats.Store.Flush.Ends.{flush-Conserves}
use gostats.Store.Flush.TimerUse.{rested, recorded, visit_timer-add_timer_value}
use gostats.Store.Flush.Pruning.{
  visits, pruned, idle_for, visits-survives, entry_visits, entry_visits-prunes,
}
use gostats.Store.Rejoin.{Counts}
use gostats.Store.Writes.{add-Counts, set_value-Counts}
use gostats.Store.Fresh.{IsRegistered, new_counter-Registers}

-- A store of three counters: `a` has five to send, `b` is about to be pruned, and an older `a` was pruned.
abbrev pub labels : List Bytes
labels = codes "a" ∷ codes "b" ∷ codes "a" ∷ []

abbrev counter_a : Counter
counter_a = record {
  current_value = 7;
  last_sent_value = 2;
  idle_flushes = 0;
  detached = false;
  has_store = true;
  name = codes "a";
}

abbrev counter_b : Counter
counter_b = record {
  current_value = 3;
  last_sent_value = 3;
  idle_flushes = 1;
  detached = false;
  has_store = true;
  name = codes "b";
}

abbrev pruned_a : Counter
pruned_a = record {
  current_value = 9;
  last_sent_value = 9;
  idle_flushes = 2;
  detached = true;
  has_store = true;
  name = codes "a";
}

abbrev idle_timer : Timer
idle_timer = record { base = 1000; name = codes "t"; active = false; idle_flushes = 1 }

abbrev pub store : Store ℕ
store = record {
  counter_heap = counter_a ∷ counter_b ∷ pruned_a ∷ [];
  counters = (codes "a", 0) ∷ (codes "b", 1) ∷ [];
  gauge_heap = 4 ∷ [];
  gauges = (codes "g", 0) ∷ [];
  timer_heap = idle_timer ∷ [];
  timers = (codes "t", 0) ∷ [];
  prune_after_flushes = 2;
  flushable = true;
  calls = [];
}

pub store-IsValid : IsValid labels store
unfolding beq
store-IsValid = record {
  heap = (
    (omega arith, omega arith, λ e. refl),
    ((omega arith, omega arith, λ e. refl), ((omega arith, omega arith, λ e. refl), tt)),
  );
  entries = (refl, (refl, tt));
  unique = (refl, (refl, tt));
  gauges = (omega arith, tt);
  timers = (omega arith, tt);
}

abbrev calls_of : Run (Store ℕ) → List (Call ℕ)
calls_of panic = []
calls_of (ret s) = s.calls

abbrev counters_of : Run (Store ℕ) → List (Bytes × ℕ)
counters_of panic = []
counters_of (ret s) = s.counters

flush-calls :
    calls_of (flush [] store)
    ≡ Call.flush_counter (codes "a") 5 ∷ Call.flush_gauge (codes "g") 4 ∷ Call.flush_all ∷ []
unfolding flush visit_counters latch prune_counter visit_timers visit_gauges generate_stats beq
flush-calls = refl

-- `b` is pruned.
flush-counters : counters_of (flush [] store) ≡ (codes "a", 0) ∷ []
unfolding flush visit_counters latch prune_counter visit_timers visit_gauges generate_stats beq
flush-counters = refl

-- A write to the pruned `a` arrives at the registered one.
add-forwarded :
    calls_of (add 2 6 store >>= flush [])
    ≡ Call.flush_counter (codes "a") 11 ∷ Call.flush_gauge (codes "g") 4 ∷ Call.flush_all ∷ []
unfolding add flush visit_counters latch prune_counter visit_timers visit_gauges generate_stats beq
add-forwarded = refl

flush-Conserves_example :
    (s' : Store ℕ) × (flush [] store ≡ ret s')
    × Conserved labels store s'
    × ((k : Bytes) (j : ℕ) → lookup k s'.counters ≡ some j → IsQuiet s'.counter_heap j)
unfolding generate_stats
flush-Conserves_example = flush-Conserves labels [] store store refl store-IsValid

add-Counts_example : Counts labels (codes "a") 6 store (add 2 6 store)
add-Counts_example = add-Counts labels 2 (codes "a") 6 store store-IsValid refl

set_value-Counts_example : Counts labels (codes "b") 17 store (set_value 1 20 store)
set_value-Counts_example =
    set_value-Counts labels 1 (codes "b") 20 counter_b store store-IsValid refl refl (omega arith)

new_counter-Registers_example :
    (labels' : List Bytes) × IsRegistered labels
      (codes "c")
      store
      store-IsValid
      labels'
      (new_counter (codes "c") store)
new_counter-Registers_example = new_counter-Registers labels (codes "c") store store-IsValid

-- The store with another number of flushes after which it prunes.
abbrev waiting : ℕ → Store ℕ
waiting prune = record store { prune_after_flushes = prune }

visits-survives_example :
    visits 3 (codes "b") 1 (waiting 5) ≡ ret (write 1 (idle_for 3 counter_b) (waiting 5))
visits-survives_example =
    visits-survives 3 (codes "b") 1 counter_b (waiting 5) refl (refl, omega arith) (omega arith)
      (omega arith)

entry_visits-prunes_example :
    entry_visits 6 (codes "b") (waiting 5)
    ≡ ret (record (write 1 (pruned 4 counter_b) (waiting 5)) {
      counters = delete (codes "b") store.counters;
    })
unfolding beq
entry_visits-prunes_example =
    entry_visits-prunes 3 2 (codes "b") 1 counter_b (waiting 5) refl refl (refl, omega arith) refl
      (omega arith)

gauge_sub-gauge_add_example :
    (gauge_add 0 18446744073709551613 store >>= gauge_sub 0 18446744073709551613) ≡ ret store
gauge_sub-gauge_add_example =
    gauge_sub-gauge_add 0 18446744073709551613 4 store refl (omega arith) (omega arith)

visit_timer-add_timer_value_example :
    (add_timer_value 0 250 store >>= visit_timer (codes "t") 0)
    ≡ ret (write_timer 0 (rested idle_timer) (recorded (codes "t") 250 store))
visit_timer-add_timer_value_example =
    visit_timer-add_timer_value (codes "t") 0 250 idle_timer store refl
