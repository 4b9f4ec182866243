-- ===== src/Sinks/Verdicts.antt =====
-- The assertions of mock/sink.go. A method that calls `tb.Errorf` ends with what it reports.
use gostats.Prelude.{
  ℕ, ◌==◌, ==_iff, ◌≡◌, refl, ap, Bool, true, Option, none, some, ◌↔◌, if◌then◌else◌, Bool-cases,
  inl, inr,
}
use gostats.Bytes.{Bytes}
use gostats.Names.{lookup}
use gostats.Sinks.Recorder.{Recorder, Entry, load_counter, load_gauge, load_timer}

pub data Verdict : Type 0 where
  passes : Verdict
  not_found : Verdict
  differs : Verdict
  found : Verdict

-- The value of an entry against what is expected of it.
abbrev pub compared : {A : Type 0} → (A → A → Bool) → Option A → A → Verdict
compared same none exp = not_found
compared same (some u) exp = if same u exp then passes else differs

abbrev pub present : {A : Type 0} → Option A → Verdict
present none = not_found
present (some u) = passes

abbrev pub absent : {A : Type 0} → Option A → Verdict
absent none = passes
absent (some u) = found

-- The count of an entry against what is expected of it.
abbrev pub call_counted : Option Entry → ℕ → Verdict
call_counted none exp = not_found
call_counted (some p) exp = if p.count == exp then passes else differs

unfoldable pub assert_counter_equals : Recorder → Bytes → ℕ → Verdict
unfolding load_counter
assert_counter_equals s name exp = compared ◌==◌ (load_counter s name) exp

unfoldable pub assert_gauge_equals : Recorder → Bytes → ℕ → Verdict
unfolding load_gauge
assert_gauge_equals s name exp = compared ◌==◌ (load_gauge s name) exp

unfoldable pub assert_counter_exists : Recorder → Bytes → Verdict
unfolding load_counter
assert_counter_exists s name = present (load_counter s name)

unfoldable pub assert_gauge_exists : Recorder → Bytes → Verdict
unfolding load_gauge
assert_gauge_exists s name = present (load_gauge s name)

unfoldable pub assert_counter_not_exists : Recorder → Bytes → Verdict
unfolding load_counter
assert_counter_not_exists s name = absent (load_counter s name)

unfoldable pub assert_gauge_not_exists : Recorder → Bytes → Verdict
unfolding load_gauge
assert_gauge_not_exists s name = absent (load_gauge s name)

unfoldable pub assert_counter_call_count : Recorder → Bytes → ℕ → Verdict
assert_counter_call_count s name exp = call_counted (lookup name s.counters) exp

unfoldable pub assert_gauge_call_count : Recorder → Bytes → ℕ → Verdict
assert_gauge_call_count s name exp = call_counted (lookup name s.gauges) exp

unfoldable pub assert_timer_call_count : Recorder → Bytes → ℕ → Verdict
assert_timer_call_count s name exp = call_counted (lookup name s.timers) exp

-- `equal` is the comparison of two numbers of type `float64`.
module _ {F : Type 0} (from_bits : ℕ → F) (equal : F → F → Bool) where
  unfoldable pub assert_timer_equals : Recorder → Bytes → F → Verdict
  unfolding load_timer
  assert_timer_equals s name exp = compared equal (load_timer from_bits s name) exp

module _ {F : Type 0} (from_bits : ℕ → F) where
  unfoldable pub assert_timer_exists : Recorder → Bytes → Verdict
  unfolding load_timer
  assert_timer_exists s name = present (load_timer from_bits s name)

  unfoldable pub assert_timer_not_exists : Recorder → Bytes → Verdict
  unfolding load_timer
  assert_timer_not_exists s name = absent (load_timer from_bits s name)

compared-passes : (o : Option ℕ) (exp : ℕ) → (compared ◌==◌ o exp ≡ passes) ↔ (o ≡ some exp)
compared-passes none exp = (λ h. absurd (cc), λ h. absurd (cc))
compared-passes (some u) exp = (
  λ h. elim (Bool-cases (u == exp)) [
    | inl e ↦ ap some ((==_iff u exp).0 e)
    | inr e ↦ absurd (cc (rw e at h))
  ],
  λ h.
      let same : u ≡ exp = cc in
      let test : (u == exp) ≡ true = (==_iff u exp).1 same in rw test refl,
)

-- The assertion that a counter has a value passes exactly where the sink holds the counter with that value;
-- then the assertion that it exists passes, and the one that it does not reports that it was found.
pub assert_counter_equals-passes :
    (s : Recorder) (name : Bytes) (exp : ℕ)
    → (assert_counter_equals s name exp ≡ passes) ↔ (
        (load_counter s name ≡ some exp)
        × (assert_counter_exists s name ≡ passes)
        × (assert_counter_not_exists s name ≡ found))
unfolding assert_counter_equals assert_counter_exists assert_counter_not_exists
assert_counter_equals-passes s name exp =
    let both = compared-passes (load_counter s name) exp in
    (λ h. let e = both.0 h in (e, ap present e, ap absent e), λ h. both.1 h.0)
