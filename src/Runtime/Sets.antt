-- ===== src/Runtime/Sets.antt =====
-- The run of `GenerateStats` of runtime.go.
use gostats.Prelude.{
  ◌<◌, ◌>>=◌, sym, subst, some, length, length-set, get_elem?-some, All, ℕ, ◌≡◌, refl, ap, ◌∙◌,
  Option-cases, List, [], ◌∷◌, inl, inr, get_elem?, set, Run, ret, panic, bind_ret,
}
use gostats.Store.{Timer, Store}
use gostats.Store.{u64}
use gostats.Bytes.{Bytes}
use gostats.Store.Labels.{IsValid, Labelled-get}
use gostats.Store.Writes.{set_value-Counts}
use gostats.Store.Counters.{set_value}
use gostats.Store.Registry.{gauge_set}
use gostats.Store.Keeps.{Keeps, Keeps-ret, other_heaps, set_value-Keeps}
use gostats.Runtime.{
  RuntimeStats, MemStats, Statement, set_gauge, set_counter, statements, execute, execute_all,
  generate_runtime_stats,
}
use gostats.Runtime.Gauges.{
  gauges_after, get_elem?-gauges_after, gauges_after-cons, gauges_after-Shows, AreDifferent,
  IsLabelled, gauge_places, counter_places, readings, Runs,
}

module _ {F : Type 0} where
  abbrev gauges : Store F → List ℕ
  gauges s = s.gauge_heap

  set_value-gauges :
      (i value : ℕ) (s : Store F) (r : Run (Store F))
      → Keeps other_heaps (other_heaps s) r
      → Keeps gauges s.gauge_heap r
  set_value-gauges i value s panic h = tt
  set_value-gauges i value s (ret s') h = ap (λ (x : List ℕ × List Timer). x.0) h

  execute-Keeps :
      (w : Statement) (s : Store F)
      → Keeps gauges (gauges_after (w ∷ []) s.gauge_heap) (execute w s)
  unfolding execute gauge_set
  execute-Keeps (set_counter i value) s =
      set_value-gauges i value s (set_value i value s) (set_value-Keeps i value s)
  execute-Keeps (set_gauge i value) s = elim (Option-cases (get_elem? s.gauge_heap i)) [
    | inl e ↦ rw (e, gauge_set, Keeps) tt
    | inr (v, e) ↦ rw (e, gauge_set, Keeps) refl
  ]

  execute_all-gauges :
      (ws : List Statement) (s s' : Store F)
      → execute_all ws s ≡ ret s'
      → s'.gauge_heap ≡ gauges_after ws s.gauge_heap
  unfolding execute_all
  execute_all-gauges [] s s' e = Keeps-ret gauges s.gauge_heap (ret s) s' e refl
  execute_all-gauges (w ∷ ws) s s' e =
      let (s1, e1, e2) = bind_ret (execute w s) _ s' e in
      let first =
        Keeps-ret gauges (gauges_after (w ∷ []) s.gauge_heap) (execute w s) s1 e1
          (execute-Keeps w s) in
      execute_all-gauges ws s1 s' e2
      ∙ ap (gauges_after ws) first
      ∙ gauges_after-cons w ws s.gauge_heap

  -- A run that ends, in a valid store, and has sent nothing.
  abbrev EndsValid : List Bytes → Store F → Run (Store F) → Type 0
  EndsValid labels s r = (s' : Store F) × (r ≡ ret s') × IsValid labels s' × (s'.calls ≡ s.calls)

  execute_all-EndsValid :
      (labels : List Bytes) (ws : List Statement) (s : Store F)
      → IsValid labels s
      → Runs labels (length s.gauge_heap) ws
      → EndsValid labels s (execute_all ws s)
  unfolding execute_all execute gauge_set
  execute_all-EndsValid labels [] s v h = (s, refl, v, refl)
  execute_all-EndsValid labels (set_gauge i value ∷ ws) s v (hi, h) =
      let (g, there) = get_elem?-some s.gauge_heap i hi in
      let s1 : Store F = record s { gauge_heap = set s.gauge_heap i value } in
      let same = length-set s.gauge_heap i value in
      let v1 : IsValid labels s1 = record {
        heap = v.heap;
        entries = v.entries;
        unique = v.unique;
        gauges = subst (λ (n : ℕ). All (λ (e : Bytes × ℕ). e.1 < n) s.gauges) (sym same) v.gauges;
        timers = v.timers;
      } in
      let (s2, e2, v2, calls2) =
        execute_all-EndsValid labels ws s1 v1 (subst (λ (n : ℕ). Runs labels n ws) (sym same) h) in
      (s2, rw (there, gauge_set, ◌>>=◌) e2, v2, calls2)
  execute_all-EndsValid labels (set_counter i value ∷ ws) s v ((l, named), bound, h) =
      let (c, there, kind) = Labelled-get labels s.counter_heap i l v.heap named in
      let (s1, e1, v1, calls1, more) = set_value-Counts labels i l value c s v named there bound in
      let kept : s1.gauge_heap ≡ s.gauge_heap =
        Keeps-ret gauges s.gauge_heap (set_value i value s) s1 e1
          (set_value-gauges i value s (set_value i value s) (set_value-Keeps i value s)) in
      let (s2, e2, v2, calls2) =
        execute_all-EndsValid labels ws s1 v1
          (subst (λ (g : List ℕ). Runs labels (length g) ws) (sym kept) h) in
      (s2, ap (λ (r : Run (Store F)). r >>= execute_all ws) e1 ∙ e2, v2, calls2 ∙ calls1)

  -- `GenerateStats`, where the store is valid, the gauges of the runtime statistics are there and are twelve
  -- different gauges, the counters that it sets are registered and the numbers for them are of 64 bits: it
  -- ends, the store stays valid and nothing is sent; each of the eleven gauges but sys shows the number that
  -- was read for it, and sys shows what it showed before.
  pub generate_runtime_stats-Shows :
      (labels : List Bytes) (percent : F → ℕ) (r : RuntimeStats) (m : MemStats F) (s : Store F)
      → IsValid labels s
      → AreDifferent (gauge_places r)
      → All (λ i. i < length s.gauge_heap) (gauge_places r)
      → All (IsLabelled labels) (counter_places r)
      → All (λ v. v < u64) (m.total_alloc ∷ m.mallocs ∷ m.frees ∷ m.pause_total_ns ∷ m.num_gc ∷ [])
      → (s' : Store F) × (generate_runtime_stats percent r m s ≡ ret s')
        × IsValid labels s'
        × (s'.calls ≡ s.calls)
        × All (λ e. get_elem? s'.gauge_heap e.0 ≡ some e.1) (readings percent r m)
        × (get_elem? s'.gauge_heap r.sys ≡ get_elem? s.gauge_heap r.sys)
  unfolding generate_runtime_stats
  generate_runtime_stats-Shows labels percent r m s v (sys_apart, apart) (sys_there, there) named
        small =
      let ws = statements percent r m in
      let (g1, (g2, (g3, (g4, (g5, (g6, (g7, (g8, (g9, (g10, (g11, none_left))))))))))) = there in
      let (c1, (c2, (c3, (c4, (c5, all_named))))) = named in
      let (b1, (b2, (b3, (b4, (b5, all_small))))) = small in
      let (s', e, v', calls) = execute_all-EndsValid labels ws s v (
        g1,
        (
          c1,
          b1,
          (
            c2,
            b2,
            (
              c3,
              b3,
              (g2, (g3, (g4, (g5, (g6, (g7, (g8, (g9, (c4, b4, (c5, b5, (g10, (g11, tt)))))))))))),
            ),
          ),
        ),
      ) in
      let after = execute_all-gauges ws s s' e in
      let shown : All (λ (e : ℕ × ℕ). get_elem? (gauges_after ws s.gauge_heap) e.0 ≡ some e.1)
          (readings percent r m) =
        gauges_after-Shows ws s.gauge_heap apart there in
      (
        s',
        e,
        v',
        calls,
        subst
            (λ (h : List ℕ). All (λ (e : ℕ × ℕ). get_elem? h e.0 ≡ some e.1) (readings percent r m))
            (sym after) shown,
        ap (λ (h : List ℕ). get_elem? h r.sys) after
            ∙ get_elem?-gauges_after r.sys ws s.gauge_heap sys_apart,
      )
