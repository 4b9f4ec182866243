-- ===== src/Sinks.antt =====
-- The sinks that send nothing over the network: null_sink.go, mock_sink.go, logging_sink.go and
-- mock/sink.go. A call of a store to its sink is a `Call`; `F` is `float64`.
pub mod MockSink
pub mod Recorder
pub mod Agreement
pub mod Verdicts
pub mod Flushed
pub mod LoggingSink
use gostats.Prelude.{List, [], ◌∷◌}
use gostats.Store.{Call}

-- A sink that takes all calls, one by one.
abbrev pub fold_calls : {F S : Type 0} → (Call F → S → S) → List (Call F) → S → S
fold_calls receive [] s = s
fold_calls receive (c ∷ calls) s = fold_calls receive calls (receive c s)

-- `nullSink` has no state.
pub data NullSink : Type 0 where
  null_sink : NullSink

unfoldable pub null_receive : {F : Type 0} → Call F → NullSink → NullSink
null_receive (Call.flush_counter name value) s = s
null_receive (Call.flush_gauge name value) s = s
null_receive (Call.flush_timer name value) s = s
null_receive Call.flush_all s = s
