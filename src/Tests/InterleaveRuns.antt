-- ===== src/Tests/InterleaveRuns.antt =====
-- Schedules of the threads of stats.go, and instances of what holds of every schedule.
use gostats.Prelude.{
  ℕ, zero, suc, ◌%◌, ◌<◌, [], ◌≡◌, refl, Bool, true, Option, none, some, List, ◌∷◌, ◌++◌, replicate,
  take, arith, ◌⊎◌,
}
use gostats.Bytes.{Bytes, codes, beq}
use gostats.Store.{u64}
use gostats.Store.Registry.{fresh_counter}
use gostats.Interleave.{
  Pc, idle, Memory, reading, visit, marking, read_value, latched, forward, move, System, Reach,
  start, init,
}
use gostats.Interleave.Drained.{last_visit-Settles}
use gostats.Interleave.Ledger.{sum_of}
use gostats.Interleave.Schedule.{
  Action, run_thread, begin_add, begin_visit, make_counter, acts, acts-Reached, is_idle,
}
use gostats.Interleave.Invariant.{no_orphan}
use gostats.Interleave.Conserve.{no_lost_write, Balanced}
use gostats.Interleave.Alone.{runs}
use gostats.Interleave.Alone.Bound.{alone_finishes}

abbrev key : Bytes
key = codes "a"

abbrev one_name : ℕ → Bytes
one_name i = key

-- A counter is pruned, another takes its name, and two writers of the first counter latch it at once: one
-- reads the value 5, the other sends 8 before the first goes on.
abbrev latchers : List Action
latchers =
    make_counter ∷ begin_visit key ∷ replicate 9 (run_thread 0)
    ++ make_counter ∷ begin_add 1 0 5 ∷ replicate 4 (run_thread 1)
    ++ begin_add 2 0 3 ∷ replicate 9 (run_thread 2)
    ++ replicate 5 (run_thread 1)

abbrev summary : Option (System one_name 1) → Option (Bool × Bool × Bool × ℕ × ℕ × ℕ × Option ℕ)
summary none = none
summary (some s) = some (
  is_idle (s.pc 0),
  is_idle (s.pc 1),
  is_idle (s.pc 2),
  (s.mem.heap 0).current_value,
  (s.mem.heap 0).last_sent_value,
  (s.mem.heap 1).current_value,
  s.mem.entry key,
)

latchers-summary :
    summary (acts one_name 1 3 (init one_name 1) latchers)
    ≡ some (true, true, true, 8, 5, 5, some 1)
unfolding move fresh_counter beq
latchers-summary = refl

-- Where the schedule ends.
abbrev end : System one_name 1
end = elim (acts one_name 1 3 (init one_name 1) latchers) [ none ↦ init one_name 1 | some s ↦ s ]

end-Reach : Reach one_name 1 3 end
unfolding move fresh_counter beq
end-Reach = acts-Reached one_name 1 3 (init one_name 1) latchers start

no_lost_write_example : Balanced one_name 1 key 3 end
no_lost_write_example = no_lost_write one_name 1 key 3 end end-Reach

no_orphan_example : (end.mem.entry key ≡ some 1) ⊎ (end.pc 0 ≡ marking 1)
unfolding move fresh_counter beq
no_orphan_example = no_orphan one_name 1 3 end end-Reach 1 (omega arith) refl

alone_finishes_example : (runs one_name 1 21 end.mem (end.pc 1)).1 ≡ idle
alone_finishes_example = alone_finishes one_name 1 3 end 1 end-Reach

-- The memory before the first writer of the schedule goes on with the value 5.
abbrev stale : System one_name 1
stale = elim (acts one_name 1 3 (init one_name 1) (take 27 latchers)) [
  | none ↦ init one_name 1
  | some s ↦ s
]

stale-place : stale.pc 1 ≡ read_value 0 5 (forward 1)
unfolding move fresh_counter beq
stale-place = refl

-- The writer takes the 8 that was sent back to 5, and latches 3 less than 2 ^ 64.
abbrev resumed : Memory × Pc
resumed = let (m, p) = move one_name 1 stale.mem (read_value 0 5 (forward 1)) in move one_name 1 m p

resumed-parts :
    ((resumed.0.heap 0).last_sent_value ≡ 5)
    × (resumed.1 ≡ latched 0 18446744073709551613 (forward 1))
unfolding move fresh_counter beq
resumed-parts = (refl, refl)

-- Two writers count at once, with pruning off.
abbrev writers : List Action
writers =
    make_counter
    ∷ begin_add 1 0 5
    ∷ begin_add 2 0 3
    ∷ run_thread 2
    ∷ run_thread 1
    ∷ run_thread 1
    ∷ run_thread 2
    ∷ []

abbrev returned : System one_name 0
returned = elim (acts one_name 0 3 (init one_name 0) writers) [
  | none ↦ init one_name 0
  | some s ↦ s
]

returned-Reach : Reach one_name 0 3 returned
unfolding move fresh_counter beq
returned-Reach = acts-Reached one_name 0 3 (init one_name 0) writers start

returned-idle : (t : ℕ) → t < 3 → returned.pc t ≡ idle
unfolding move fresh_counter beq
returned-idle zero below = refl
returned-idle (suc zero) below = refl
returned-idle (suc (suc zero)) below = refl
returned-idle (suc (suc (suc t))) below = absurd (omega arith)

last_visit-Settles_example :
    (out : Memory) × (runs one_name 0 21 returned.mem (reading 0 visit) ≡ (out, idle))
    × (out.asked ≡ (key, 5) ∷ (key, 3) ∷ [])
    × (sum_of key out.sent % u64 ≡ 8)
unfolding move fresh_counter beq
last_visit-Settles_example =
    last_visit-Settles one_name key 3 returned 0 returned-Reach returned-idle refl
