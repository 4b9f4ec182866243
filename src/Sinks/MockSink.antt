-- ===== src/Sinks/MockSink.antt =====
-- `MockSink` of mock_sink.go. Its maps are Go maps, where a name that is missing has the value 0.
use gostats.Prelude.{ℕ, ◌+◌, ◌%◌, List, []}
use gostats.Bytes.{Bytes}
use gostats.Names.{modify}
use gostats.Store.{u64, Call}

pub record MockSink : Type 0 where
  pub counters : List (Bytes × ℕ)
  pub timers : List (Bytes × ℕ)
  pub gauges : List (Bytes × ℕ)

unfoldable pub new_mock_sink : MockSink
new_mock_sink = record { counters = []; timers = []; gauges = [] }

unfoldable pub mock_flush_counter : Bytes → ℕ → MockSink → MockSink
mock_flush_counter name value m = record m {
  counters = modify 0 (λ old. (old + value) % u64) name m.counters;
}

unfoldable pub mock_flush_gauge : Bytes → ℕ → MockSink → MockSink
mock_flush_gauge name value m = record m { gauges = modify 0 (λ old. value) name m.gauges }

unfoldable pub mock_flush_timer : {F : Type 0} → Bytes → F → MockSink → MockSink
mock_flush_timer name value m = record m {
  timers = modify 0 (λ old. (old + 1) % u64) name m.timers;
}

-- The calls of a store. `MockSink` has no `Flush`, and the store does not call it.
unfoldable pub mock_receive : {F : Type 0} → Call F → MockSink → MockSink
unfolding mock_flush_counter mock_flush_gauge mock_flush_timer
mock_receive (Call.flush_counter name value) m = mock_flush_counter name value m
mock_receive (Call.flush_gauge name value) m = mock_flush_gauge name value m
mock_receive (Call.flush_timer name value) m = mock_flush_timer name value m
mock_receive Call.flush_all m = m
