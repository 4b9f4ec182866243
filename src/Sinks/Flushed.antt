-- ===== src/Sinks/Flushed.antt =====
-- A store of stats.go whose sink is the one for tests, through a `Flush`.
use gostats.Prelude.{ℕ, ◌+◌, ◌%◌, ◌≡◌, List, Run, ret, arith}
use gostats.Bytes.{Bytes}
use gostats.Store.{u64, Store}
use gostats.Store.Flush.{flush, generate_stats}
use gostats.Store.Flush.Ends.{flush-Conserves}
use gostats.Store.Labels.{IsValid, owed, flushed}
use gostats.Sinks.{fold_calls}
use gostats.Sinks.Agreement.{counter-fold_calls}
use gostats.Sinks.Recorder.{new_sink, sink_receive, counter, load_counter}

module _ {F : Type 0} (add_bits : ℕ → F → ℕ) (labels : List Bytes) where
  -- A flush of a store whose generators end in a valid store ends, and what a new mock sink then reports of a
  -- name, given all calls that the store made, is in uint64 what was flushed and owed of that name in the state
  -- in which the generators end, less what the counters of that name still owe.
  pub flush-counter :
      (generators : List (Store F → Run (Store F))) (s0 s : Store F) (n : Bytes)
      → generate_stats generators s0 ≡ ret s
      → IsValid labels s
      → (s' : Store F) × (flush generators s0 ≡ ret s')
        × ((counter (fold_calls (sink_receive add_bits) s'.calls new_sink) n
                + owed n labels s'.counter_heap)
              % u64
            ≡ (flushed n s.calls + owed n labels s.counter_heap) % u64)
  unfolding counter load_counter new_sink
  flush-counter generators s0 s n e v =
      let (s', ends, kept, settled) = flush-Conserves labels generators s0 s e v in
      let reported = counter-fold_calls add_bits n s'.calls new_sink in
      let total = kept.same n in (s', ends, omega (arith, reported, total))
