-- ===== src/Sinks/Agreement.antt =====
-- `MockSink` of mock_sink.go and `Sink` of mock/sink.go, given the same calls.
use gostats.Prelude.{ℕ, ◌+◌, ◌%◌, ◌≡◌, refl, ap, List, [], ◌∷◌, Bool-cases, inl, inr, arith}
use gostats.Bytes.{Bytes, beq, beq→eq}
use gostats.Names.{lookup, along, modify-along, lookup-modify, value_or, value_or-along}
use gostats.Store.{u64, Call}
use gostats.Store.Labels.{flushed, flushed-append}
use gostats.Sinks.{fold_calls}
use gostats.Sinks.MockSink.{
  MockSink, new_mock_sink, mock_flush_counter, mock_flush_gauge, mock_flush_timer, mock_receive,
}
use gostats.Sinks.Recorder.{
  Entry, Recorder, new_entry, added, stored, new_sink, sink_flush_counter, sink_flush_gauge,
  sink_flush_timer, sink_receive, counter, load_counter, load_gauge,
}

-- The two sinks give the same counters and gauges, and the timers of the one are the calls of the other's.
pub record Agree (m : MockSink) (s : Recorder) : Type 0 where
  pub counters : (n : Bytes) → lookup n m.counters ≡ load_counter s n
  pub gauges : (n : Bytes) → lookup n m.gauges ≡ load_gauge s n
  pub timers : (n : Bytes) → lookup n m.timers ≡ along (λ (p : Entry). p.count) (lookup n s.timers)

module _ {F : Type 0} (add_bits : ℕ → F → ℕ) where
  receive-Agree :
      (c : Call F) (m : MockSink) (s : Recorder)
      → Agree m s
      → Agree (mock_receive c m) (sink_receive add_bits c s)
  unfolding mock_receive mock_flush_counter mock_flush_gauge mock_flush_timer sink_receive
      sink_flush_counter sink_flush_gauge sink_flush_timer load_counter load_gauge
  receive-Agree (Call.flush_counter name value) m s a = record {
    counters =
        modify-along (λ (p : Entry). p.val) new_entry (added value) (λ x. (x + value) % u64)
          (λ p. refl) name m.counters s.counters a.counters;
    gauges = a.gauges;
    timers = a.timers;
  }
  receive-Agree (Call.flush_gauge name value) m s a = record {
    counters = a.counters;
    gauges =
        modify-along (λ (p : Entry). p.val) new_entry (stored value) (λ x. value) (λ p. refl) name
          m.gauges s.gauges a.gauges;
    timers = a.timers;
  }
  receive-Agree (Call.flush_timer name value) m s a = record {
    counters = a.counters;
    gauges = a.gauges;
    timers =
        modify-along (λ (p : Entry). p.count) new_entry (λ p. stored (add_bits p.val value) p)
          (λ x. (x + 1) % u64) (λ p. refl) name m.timers s.timers a.timers;
  }
  receive-Agree Call.flush_all m s a = a

  fold-Agree :
      (calls : List (Call F)) (m : MockSink) (s : Recorder)
      → Agree m s
      → Agree (fold_calls mock_receive calls m) (fold_calls (sink_receive add_bits) calls s)
  fold-Agree [] m s a = a
  fold-Agree (c ∷ calls) m s a =
      fold-Agree calls (mock_receive c m) (sink_receive add_bits c s) (receive-Agree c m s a)

  -- The two mock sinks, given the same calls of a store: for every name they report the same counter, the same
  -- gauge, or both none, and the timers of MockSink count the calls that Sink counts.
  pub mock_sinks-Agree :
      (calls : List (Call F))
      → Agree
          (fold_calls mock_receive calls new_mock_sink)
          (fold_calls (sink_receive add_bits) calls new_sink)
  unfolding new_mock_sink new_sink load_counter load_gauge
  mock_sinks-Agree calls =
      fold-Agree calls new_mock_sink new_sink
        (record { counters = λ n. refl; gauges = λ n. refl; timers = λ n. refl })

  -- A call and the counter of a name.
  counter-sink_receive :
      (n : Bytes) (c : Call F) (s : Recorder)
      → counter (sink_receive add_bits c s) n % u64 ≡ (counter s n + flushed n (c ∷ [])) % u64
  unfolding counter load_counter sink_receive sink_flush_counter sink_flush_gauge sink_flush_timer
  counter-sink_receive n (Call.flush_counter name value) s =
      let at = value_or-along (λ (p : Entry). p.val) new_entry (lookup name s.counters) in
      rw (lookup-modify new_entry (added value) n name s.counters) (elim (Bool-cases (beq name n)) [
        | inl e ↦
            let same =
              ap (λ x. value_or 0 (along (λ (p : Entry). p.val) (lookup x s.counters)))
                (beq→eq name n e) in
            rw e (omega (arith, at, same))
        | inr e ↦ rw e (omega arith)
      ])
  counter-sink_receive n (Call.flush_gauge name value) s = omega arith
  counter-sink_receive n (Call.flush_timer name value) s = omega arith
  counter-sink_receive n Call.flush_all s = omega arith

  -- The counters of a sink after the calls of a store: for every name, what the sink had and what the calls
  -- flushed, in uint64.
  pub counter-fold_calls :
      (n : Bytes) (calls : List (Call F)) (s : Recorder)
      → counter (fold_calls (sink_receive add_bits) calls s) n % u64
        ≡ (counter s n + flushed n calls) % u64
  counter-fold_calls n [] s = omega arith
  counter-fold_calls n (c ∷ calls) s =
      let first = counter-sink_receive n c s in
      let rest = counter-fold_calls n calls (sink_receive add_bits c s) in
      let sum = flushed-append n (c ∷ []) calls in omega (arith, first, rest, sum)
