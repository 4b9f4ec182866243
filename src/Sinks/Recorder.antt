-- ===== src/Sinks/Recorder.antt =====
-- `Sink` of mock/sink.go, the sink for tests. `add_bits` adds a `float64` to one that is given by its bits, as
-- `atomicAddFloat64` does, and `from_bits` is `math.Float64frombits`. The counts are of type `int64`; they are
-- kept in 64 bits.
use gostats.Prelude.{ℕ, ◌+◌, ◌%◌, Option, List, [], map}
use gostats.Bytes.{Bytes}
use gostats.Names.{lookup, modify, value_or, along}
use gostats.Store.{u64, Call}

pub record Entry : Type 0 where
  pub val : ℕ
  pub count : ℕ

-- `new(entry)`
abbrev pub new_entry : Entry
new_entry = record { val = 0; count = 0 }

pub record Recorder : Type 0 where
  pub counters : List (Bytes × Entry)
  pub timers : List (Bytes × Entry)
  pub gauges : List (Bytes × Entry)

unfoldable pub new_sink : Recorder
new_sink = record { counters = []; timers = []; gauges = [] }

unfoldable pub reset : Recorder → Recorder
unfolding new_sink
reset s = new_sink

-- `atomic.AddInt64(&p.count, 1)`
abbrev pub counted_call : Entry → Entry
counted_call p = record p { count = (p.count + 1) % u64 }

abbrev pub added : ℕ → Entry → Entry
added val p = counted_call (record p { val = (p.val + val) % u64 })

abbrev pub stored : ℕ → Entry → Entry
stored val p = counted_call (record p { val = val })

unfoldable pub sink_flush_counter : Bytes → ℕ → Recorder → Recorder
sink_flush_counter name val s = record s { counters = modify new_entry (added val) name s.counters }

unfoldable pub sink_flush_gauge : Bytes → ℕ → Recorder → Recorder
sink_flush_gauge name val s = record s { gauges = modify new_entry (stored val) name s.gauges }

abbrev pub loaded : Option Entry → Option ℕ
loaded o = along (λ (p : Entry). p.val) o

-- The names of a map.
abbrev pub keys : List (Bytes × Entry) → List Bytes
keys m = map (λ e. e.0) m

abbrev pub values : List (Bytes × Entry) → List (Bytes × ℕ)
values m = map (λ e. (e.0, e.1.val)) m

-- `none` is the pair of 0 and false.
unfoldable pub load_counter : Recorder → Bytes → Option ℕ
load_counter s name = loaded (lookup name s.counters)

unfoldable pub load_gauge : Recorder → Bytes → Option ℕ
load_gauge s name = loaded (lookup name s.gauges)

unfoldable pub list_counters : Recorder → List Bytes
list_counters s = keys s.counters

unfoldable pub list_gauges : Recorder → List Bytes
list_gauges s = keys s.gauges

unfoldable pub list_timers : Recorder → List Bytes
list_timers s = keys s.timers

unfoldable pub all_counters : Recorder → List (Bytes × ℕ)
all_counters s = values s.counters

unfoldable pub all_gauges : Recorder → List (Bytes × ℕ)
all_gauges s = values s.gauges

unfoldable pub counter : Recorder → Bytes → ℕ
unfolding load_counter
counter s name = value_or 0 (load_counter s name)

unfoldable pub gauge : Recorder → Bytes → ℕ
unfolding load_gauge
gauge s name = value_or 0 (load_gauge s name)

unfoldable pub counter_call_count : Recorder → Bytes → ℕ
counter_call_count s name = (value_or new_entry (lookup name s.counters)).count

unfoldable pub gauge_call_count : Recorder → Bytes → ℕ
gauge_call_count s name = (value_or new_entry (lookup name s.gauges)).count

unfoldable pub timer_call_count : Recorder → Bytes → ℕ
timer_call_count s name = (value_or new_entry (lookup name s.timers)).count

module _ {F : Type 0} (add_bits : ℕ → F → ℕ) where
  unfoldable pub sink_flush_timer : Bytes → F → Recorder → Recorder
  sink_flush_timer name val s = record s {
    timers = modify new_entry (λ p. stored (add_bits p.val val) p) name s.timers;
  }

  -- The calls of a store.
  unfoldable pub sink_receive : Call F → Recorder → Recorder
  unfolding sink_flush_counter sink_flush_gauge sink_flush_timer
  sink_receive (Call.flush_counter name val) s = sink_flush_counter name val s
  sink_receive (Call.flush_gauge name val) s = sink_flush_gauge name val s
  sink_receive (Call.flush_timer name val) s = sink_flush_timer name val s
  sink_receive Call.flush_all s = s

module _ {F : Type 0} (from_bits : ℕ → F) where
  unfoldable pub load_timer : Recorder → Bytes → Option F
  load_timer s name = along (λ (p : Entry). from_bits p.val) (lookup name s.timers)

  unfoldable pub all_timers : Recorder → List (Bytes × F)
  all_timers s = map (λ e. (e.0, from_bits e.1)) (values s.timers)

  -- The shorthand for `LoadTimer`; `from_bits 0` is the number 0.
  unfoldable pub timer : Recorder → Bytes → F
  unfolding load_timer
  timer s name = value_or (from_bits 0) (load_timer s name)
