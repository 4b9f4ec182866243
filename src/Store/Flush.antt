-- ===== src/Store/Flush.antt =====
-- `Flush` of stats.go, with nothing else running. A `Range` visits the entries that the map has at its
-- start.
pub mod Quiet
pub mod Conserve
pub mod Ends
pub mod Pruning
pub mod TimerUse
use gostats.Prelude.{
  ℕ, zero, suc, ◌+◌, ◌-◌, ◌%◌, Bool, true, false, not, ◌&&◌, Option, none, some, List, [], ◌∷◌,
  ◌++◌, ◌==◌, ltb, if◌then◌else◌, length, get_elem?, set, Run, ret, panic, ◌>>=◌, ◌≡◌, refl,
}
use gostats.Bytes.{Bytes}
use gostats.Names.{lookup, delete}
use gostats.Store.{u32, Counter, Timer, Call, Store}
use gostats.Store.Counters.{read, write, latch, rejoin, rejoin_fuel}

module _ {F : Type 0} where
  abbrev pub emit : Call F → Store F → Store F
  emit e s = record s { calls = s.calls ++ e ∷ [] }

  -- The end of the counters' callback: the entry is deleted, and what was written since the first latch is
  -- sent and the counter put back.
  unfoldable pub prune_counter : Bytes → ℕ → Counter → Store F → Run (Store F)
  unfolding latch rejoin
  prune_counter key i c s =
      let c1 = record c { detached = true } in
      let s1 = record (write i c1 s) { counters = delete key s.counters } in
      let late = (latch c1).0 in
      let c2 = record ((latch c1).1) { idle_flushes = 0 } in
      if late == 0
      then ret s1
      else rejoin rejoin_fuel i (emit (Call.flush_counter key late) (write i c2 s1))

  -- The callback of `s.counters.Range`, for the counter `c` at `i`.
  unfoldable pub visit_found : Bytes → ℕ → Counter → Store F → Run (Store F)
  unfolding latch prune_counter
  visit_found key i c s =
      let value = (latch c).0 in
      let c1 = (latch c).1 in
      let idle = (c1.idle_flushes + 1) % u32 in
      if not (value == 0)
      then ret (
          emit (Call.flush_counter key value)
            (write i (record c1 { idle_flushes = 0; detached = false }) s))
      else if s.prune_after_flushes == 0
      then ret (write i c1 s)
      else if ltb idle s.prune_after_flushes
      then ret (write i (record c1 { idle_flushes = idle }) s)
      else prune_counter key i (record c1 { idle_flushes = idle }) s

  unfoldable pub visit_counter : Bytes → ℕ → Store F → Run (Store F)
  unfolding visit_found
  visit_counter key i s = do c ← read i s; visit_found key i c s

  unfoldable pub visit_counters : List (Bytes × ℕ) → Store F → Run (Store F)
  unfolding visit_counter
  visit_counters [] s = ret s
  visit_counters ((key, i) ∷ entries) s = do s' ← visit_counter key i s; visit_counters entries s'

  abbrev pub write_timer : ℕ → Timer → Store F → Store F
  write_timer i t s = record s { timer_heap = set s.timer_heap i t }

  -- The callback of `s.timers.Range`: `active` is swapped for 0 first.
  unfoldable pub visit_timer : Bytes → ℕ → Store F → Run (Store F)
  visit_timer key i s = elim (get_elem? s.timer_heap i) [
    | none ↦ panic
    | some t ↦
        let idle = (t.idle_flushes + 1) % u32 in
        let swapped = record t { active = false } in
        let counted = write_timer i (record t { active = false; idle_flushes = idle }) s in
        if t.active
        then ret (write_timer i (record t { active = false; idle_flushes = 0 }) s)
        else if s.prune_after_flushes == 0
        then ret (write_timer i swapped s)
        else if ltb idle s.prune_after_flushes
        then ret counted
        else ret (record counted { timers = delete key s.timers })
  ]

  unfoldable pub visit_timers : List (Bytes × ℕ) → Store F → Run (Store F)
  unfolding visit_timer
  visit_timers [] s = ret s
  visit_timers ((key, i) ∷ entries) s = do s' ← visit_timer key i s; visit_timers entries s'

  -- The callback of `s.gauges.Range`.
  unfoldable pub visit_gauges : List (Bytes × ℕ) → Store F → Run (Store F)
  visit_gauges [] s = ret s
  visit_gauges ((key, i) ∷ entries) s = elim (get_elem? s.gauge_heap i) [
    | none ↦ panic
    | some g ↦ visit_gauges entries (emit (Call.flush_gauge key g) s)
  ]

  -- The `StatGenerator`s of the store are code of its users.
  unfoldable pub generate_stats : List (Store F → Run (Store F)) → Store F → Run (Store F)
  generate_stats [] s = ret s
  generate_stats (g ∷ generators) s = do s' ← g s; generate_stats generators s'

  unfoldable pub flush : List (Store F → Run (Store F)) → Store F → Run (Store F)
  unfolding generate_stats visit_counters visit_timers visit_gauges
  flush generators s0 = do
    s1 ← generate_stats generators s0
    s2 ← visit_counters s1.counters s1
    s3 ← visit_timers s2.timers s2
    s4 ← visit_gauges s3.gauges s3
    ret (if s4.flushable then emit Call.flush_all s4 else s4)
