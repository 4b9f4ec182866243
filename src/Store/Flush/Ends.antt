-- ===== src/Store/Flush/Ends.antt =====
-- `Flush` of stats.go as a whole: the visits of the counters, the timers and the gauges.
use gostats.Prelude.{
  ℕ, ◌+◌, ◌%◌, ◌<◌, ◌≡◌, refl, sym, ◌∙◌, subst, Bool, true, false, some, List, [], ◌∷◌, arith, ◌==◌,
  ltb, if◌then◌else◌, Bool-cases, inl, inr, length, length-set, get_elem?-some, set, All, Run, ret,
}
use gostats.Bytes.{Bytes}
use gostats.Names.{lookup, delete, All-delete, All-lookup}
use gostats.Store.{u32, Timer, Call, Store}
use gostats.Store.Flush.{emit, visit_timer, visit_timers, visit_gauges, generate_stats, flush}
use gostats.Store.Labels.{IsValid, flushed, flushed-append}
use gostats.Store.Flush.Quiet.{IsQuiet}
use gostats.Store.Flush.Conserve.{
  Conserved, Conserved-refl, Conserved-trans, visit_counters-Settles,
}

module _ {F : Type 0} (labels : List Bytes) where
  -- A change of the timers alone that keeps every timer on the heap.
  timers_Conserved :
      (s : Store F) (heap : List Timer) (named : List (Bytes × ℕ))
      → IsValid labels s
      → All (λ e. e.1 < length heap) named
      → Conserved labels s (record s { timer_heap = heap; timers = named })
  timers_Conserved s heap named v h = record {
    valid = record {
      heap = v.heap;
      entries = v.entries;
      unique = v.unique;
      gauges = v.gauges;
      timers = h;
    };
    same = λ n. refl;
    quiet = λ j q. q;
    no_new = λ k j e. e;
  }

  -- A call of the sink that is not for a counter.
  emit-Conserved :
      (s : Store F) (e : Call F)
      → IsValid labels s
      → ((n : Bytes) → flushed n (e ∷ []) ≡ 0)
      → Conserved labels s (emit e s)
  emit-Conserved s e v none_sent = record {
    valid = record {
      heap = v.heap;
      entries = v.entries;
      unique = v.unique;
      gauges = v.gauges;
      timers = v.timers;
    };
    same = λ n. omega (arith, flushed-append n s.calls (e ∷ []), none_sent n);
    quiet = λ j q. q;
    no_new = λ k j e. e;
  }

  -- A visit of a timer ends.
  abbrev TimerDone : Store F → Run (Store F) → Type 0
  TimerDone s r =
      (s' : Store F) × (r ≡ ret s')
      × Conserved labels s s'
      × (length s'.timer_heap ≡ length s.timer_heap)

  visit_timer-Done :
      (key : Bytes) (i : ℕ) (s : Store F)
      → IsValid labels s
      → i < length s.timer_heap
      → TimerDone s (visit_timer key i s)
  unfolding visit_timer
  visit_timer-Done key i s v h =
      let (t, et) = get_elem?-some s.timer_heap i h in
      let idle : ℕ = (t.idle_flushes + 1) % u32 in
      let used : Timer = record t { active = false; idle_flushes = 0 } in
      let swapped : Timer = record t { active = false } in
      let unused : Timer = record t { active = false; idle_flushes = idle } in
      let bound : (t' : Timer) → All (λ e. e.1 < length (set s.timer_heap i t')) s.timers = λ t'.
        subst (λ (n : ℕ). All (λ (e : Bytes × ℕ). e.1 < n) s.timers)
          (sym (length-set s.timer_heap i t')) v.timers in
      rw (et, visit_timer)
        (elim (Bool-cases t.active) [
          | inl a ↦ rw a (
            _,
            refl,
            timers_Conserved s _ s.timers v (bound used),
            length-set s.timer_heap i used,
          )
          | inr a ↦ rw a (elim (Bool-cases (s.prune_after_flushes == 0)) [
            | inl g ↦ rw g (
              _,
              refl,
              timers_Conserved s _ s.timers v (bound swapped),
              length-set s.timer_heap i swapped,
            )
            | inr g ↦ rw g (elim (Bool-cases (ltb idle s.prune_after_flushes)) [
              | inl k ↦ rw k (
                _,
                refl,
                timers_Conserved s _ s.timers v (bound unused),
                length-set s.timer_heap i unused,
              )
              | inr k ↦ rw k (
                _,
                refl,
                timers_Conserved s _ (delete key s.timers) v (
                    All-delete (λ e. e.1 < length (set s.timer_heap i unused)) key s.timers
                      (bound unused)),
                length-set s.timer_heap i unused,
              )
            ])
          ])
        ])

  visit_timers-Done :
      (entries : List (Bytes × ℕ)) (s : Store F)
      → IsValid labels s
      → All (λ e. e.1 < length s.timer_heap) entries
      → TimerDone s (visit_timers entries s)
  unfolding visit_timers
  visit_timers-Done [] s v h = (s, refl, Conserved-refl labels s v, refl)
  visit_timers-Done ((key, i) ∷ entries) s v (hi, h) =
      let (s1, e1, kept1, n1) = visit_timer-Done key i s v hi in
      let h1 = subst (λ (n : ℕ). All (λ (e : Bytes × ℕ). e.1 < n) entries) (sym n1) h in
      let (s2, e2, kept2, n2) = visit_timers-Done entries s1 kept1.valid h1 in
      (s2, rw e1 e2, Conserved-trans labels s s1 s2 kept1 kept2, n2 ∙ n1)

  visit_gauges-Done :
      (entries : List (Bytes × ℕ)) (s : Store F)
      → IsValid labels s
      → All (λ e. e.1 < length s.gauge_heap) entries
      → (s' : Store F) × (visit_gauges entries s ≡ ret s') × Conserved labels s s'
  unfolding visit_gauges
  visit_gauges-Done [] s v h = (s, refl, Conserved-refl labels s v)
  visit_gauges-Done ((key, i) ∷ entries) s v (hi, h) =
      let (g, eg) = get_elem?-some s.gauge_heap i hi in
      let s1 : Store F = emit (Call.flush_gauge key g) s in
      let kept1 = emit-Conserved s (Call.flush_gauge key g) v (λ n. refl) in
      let (s2, e2, kept2) = visit_gauges-Done entries s1 kept1.valid h in
      (s2, rw (eg, visit_gauges) e2, Conserved-trans labels s s1 s2 kept1 kept2)

  -- The end of a flush: the sink's own `Flush`, if it has one.
  last_call-Conserved :
      (flushable : Bool) (s : Store F)
      → IsValid labels s
      → Conserved labels s (if flushable then emit Call.flush_all s else s)
  last_call-Conserved true s v = emit-Conserved s Call.flush_all v (λ n. refl)
  last_call-Conserved false s v = Conserved-refl labels s v

  -- If the generators end in a valid store, then a flush ends in a valid store too; for every name what
  -- was sent and what is owed have the same sum as in that state; a counter that is still registered owes
  -- nothing; and no counter is registered that was not in that state.
  pub flush-Conserves :
      (generators : List (Store F → Run (Store F))) (s0 s : Store F)
      → generate_stats generators s0 ≡ ret s
      → IsValid labels s
      → (s' : Store F) × (flush generators s0 ≡ ret s')
        × Conserved labels s s'
        × ((k : Bytes) (j : ℕ) → lookup k s'.counters ≡ some j → IsQuiet s'.counter_heap j)
  unfolding flush
  flush-Conserves generators s0 s e v =
      let (s2, e2, kept2, settled) = visit_counters-Settles labels s.counters s v v.entries in
      let (s3, e3, kept3, n3) = visit_timers-Done s2.timers s2 kept2.valid kept2.valid.timers in
      let (s4, e4, kept4) = visit_gauges-Done s3.gauges s3 kept3.valid kept3.valid.gauges in
      let s5 : Store F = (if s4.flushable then emit Call.flush_all s4 else s4) in
      let kept5 = last_call-Conserved s4.flushable s4 kept4.valid in
      let later =
        Conserved-trans labels s2 s3 s5 kept3 (Conserved-trans labels s3 s4 s5 kept4 kept5) in
      let all = Conserved-trans labels s s2 s5 kept2 later in
      (
        s5,
        rw (e, e2, e3, e4) refl,
        all,
        λ k j h. later.quiet j (
            All-lookup (λ e. IsQuiet s2.counter_heap e.1) k j s.counters settled
              (all.no_new k j h)),
      )
