-- ===== src/Store/Spans.antt =====
-- The rest of the methods of counters, gauges and timers in stats.go, and the time spans. `float` is the
-- conversion of an `int64` to `float64`; what `time.Since` gives is an argument.
use gostats.Prelude.{ℕ, suc, ◌/◌, none, some, [], get_elem?, Run, ret, panic, ◌>>=◌}
use gostats.Bytes.{Bytes, decimal}
use gostats.Settings.{ℤ, negate}
use gostats.Store.{Store}
use gostats.Store.Counters.{read}
use gostats.Store.Registry.{gauge_add, gauge_sub, add_timer_value}

-- The quotient of an `int64` and a positive one, which goes towards 0.
abbrev pub quotient : ℤ → ℕ → ℤ
quotient (ℤ.pos n) k = ℤ.pos (n / k)
quotient (ℤ.negsuc n) k = negate (suc n / k)

-- A span of time: its timer and its start.
pub record Timespan : Type 0 where
  pub timer : ℕ
  pub start : ℤ

unfoldable pub allocate_span : ℕ → ℤ → Timespan
allocate_span timer now = record { timer = timer; start = now }

module _ {F : Type 0} where
  -- `Value` and `String` of a counter and of a gauge.
  unfoldable pub counter_value : ℕ → Store F → Run ℕ
  counter_value i s = do c ← read i s; ret c.current_value

  unfoldable pub counter_string : ℕ → Store F → Run Bytes
  unfolding counter_value decimal
  counter_string i s = do v ← counter_value i s; ret (decimal 20 v [])

  unfoldable pub gauge_value : ℕ → Store F → Run ℕ
  gauge_value i s = elim (get_elem? s.gauge_heap i) [ none ↦ panic | some g ↦ ret g ]

  unfoldable pub gauge_string : ℕ → Store F → Run Bytes
  unfolding gauge_value decimal
  gauge_string i s = do v ← gauge_value i s; ret (decimal 20 v [])

  unfoldable pub gauge_inc : ℕ → Store F → Run (Store F)
  unfolding gauge_add
  gauge_inc i s = gauge_add i 1 s

  unfoldable pub gauge_dec : ℕ → Store F → Run (Store F)
  unfolding gauge_sub
  gauge_dec i s = gauge_sub i 1 s

module _ {F : Type 0} (float : ℤ → F) where
  -- A timer's base is its unit in nanoseconds.
  unfoldable pub add_duration : ℕ → ℤ → Store F → Run (Store F)
  unfolding add_timer_value
  add_duration i duration s = elim (get_elem? s.timer_heap i) [
    | none ↦ panic
    | some t ↦ add_timer_value i (float (quotient duration t.base)) s
  ]

  -- `Complete`, where `elapsed` is the time since the start of the span, and what it returns.
  unfoldable pub complete : Timespan → ℤ → Store F → Run (ℤ × Store F)
  unfolding add_duration
  complete span elapsed s = do s' ← add_duration span.timer elapsed s; ret (elapsed, s')

  unfoldable pub complete_with_duration : Timespan → ℤ → Store F → Run (Store F)
  unfolding add_duration
  complete_with_duration span duration s = add_duration span.timer duration s
