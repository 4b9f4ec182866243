-- ===== src/Store/Registry.antt =====
-- `newCounter`, `newGauge` and `newTimer` of stats.go, and the methods of gauges and timers.
use gostats.Prelude.{
  ℕ, ◌+◌, ◌-◌, ◌%◌, true, false, none, some, [], ◌∷◌, ◌++◌, ltb, if◌then◌else◌, length, get_elem?,
  set, Run, ret, panic,
}
use gostats.Bytes.{Bytes}
use gostats.Names.{lookup, add_entry}
use gostats.Store.{u64, Counter, Call, Store}

-- A fresh counter: it points to the store and has its name only if idle counters are pruned.
unfoldable pub fresh_counter : ℕ → Bytes → Counter
fresh_counter prune name =
    let pruned = ltb 0 prune in
    record {
      current_value = 0;
      last_sent_value = 0;
      idle_flushes = 0;
      detached = false;
      has_store = pruned;
      name = (if pruned then name else []);
    }

-- `^(value - 1)` in `uint64`
unfoldable pub complement_pred : ℕ → ℕ
complement_pred value = u64 - 1 - (value + u64 - 1) % u64

module _ {F : Type 0} where
  unfoldable pub new_counter : Bytes → Store F → ℕ × Store F
  unfolding fresh_counter
  new_counter name s = elim (lookup name s.counters) [
    | some i ↦ (i, s)
    | none ↦ (
      length s.counter_heap,
      record s {
        counter_heap = s.counter_heap ++ fresh_counter s.prune_after_flushes name ∷ [];
        counters = add_entry name (length s.counter_heap) s.counters;
      },
    )
  ]

  unfoldable pub new_gauge : Bytes → Store F → ℕ × Store F
  new_gauge name s = elim (lookup name s.gauges) [
    | some i ↦ (i, s)
    | none ↦ (
      length s.gauge_heap,
      record s {
        gauge_heap = s.gauge_heap ++ 0 ∷ [];
        gauges = add_entry name (length s.gauge_heap) s.gauges;
      },
    )
  ]

  unfoldable pub new_timer : Bytes → ℕ → Store F → ℕ × Store F
  new_timer name base s = elim (lookup name s.timers) [
    | some i ↦ (i, s)
    | none ↦ (
      length s.timer_heap,
      record s {
        timer_heap =
            s.timer_heap
            ++ record { base = base; name = name; active = false; idle_flushes = 0 } ∷ [];
        timers = add_entry name (length s.timer_heap) s.timers;
      },
    )
  ]

  -- `gauge.Add` and `gauge.Sub`, which adds the complement of `value - 1`; `gauge.Set`.
  unfoldable pub gauge_add : ℕ → ℕ → Store F → Run (Store F)
  gauge_add i value s = elim (get_elem? s.gauge_heap i) [
    | none ↦ panic
    | some g ↦ ret (record s { gauge_heap = set s.gauge_heap i ((g + value) % u64) })
  ]

  unfoldable pub gauge_sub : ℕ → ℕ → Store F → Run (Store F)
  unfolding gauge_add complement_pred
  gauge_sub i value s = gauge_add i (complement_pred value) s

  unfoldable pub gauge_set : ℕ → ℕ → Store F → Run (Store F)
  gauge_set i value s = elim (get_elem? s.gauge_heap i) [
    | none ↦ panic
    | some g ↦ ret (record s { gauge_heap = set s.gauge_heap i value })
  ]

  -- `timer.AddValue`
  unfoldable pub add_timer_value : ℕ → F → Store F → Run (Store F)
  add_timer_value i value s = elim (get_elem? s.timer_heap i) [
    | none ↦ panic
    | some t ↦ ret (record s {
      timer_heap = set s.timer_heap i (record t { active = true });
      calls = s.calls ++ Call.flush_timer t.name value ∷ [];
    })
  ]
