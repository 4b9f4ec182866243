-- ===== src/Store/Flush/Pruning.antt =====
-- The counters' callback of `Flush` in stats.go, for a counter that stays idle through some flushes.
use gostats.Prelude.{
  ℕ, zero, suc, ◌+◌, ◌%◌, ◌<◌, ◌≡◌, refl, sym, ◌∙◌, ap, true, false, none, some, List, [], arith,
  ◌==◌, ==_iff, ltb, lt→ltb, le→ltb, get_elem?, get_elem?-set_there, set-set, set_self, Run, ret,
  ◌>>=◌,
}
use gostats.Bytes.{Bytes, beq_refl}
use gostats.Names.{delete, lookup, lookup-delete}
use gostats.Store.{u64, u32, Counter, Store}
use gostats.Store.Counters.{latch, write}
use gostats.Store.Flush.{prune_counter, visit_found, visit_counter}
use gostats.Store.Flush.Conserve.{visit_counter_lem}

-- The same counter after some more idle flushes.
abbrev pub idle_for : ℕ → Counter → Counter
idle_for n c = record c { idle_flushes = c.idle_flushes + n }

abbrev pub pruned : ℕ → Counter → Counter
pruned n c = record c { idle_flushes = c.idle_flushes + n; detached = true }

-- Both words are in range and the same: nothing is pending.
abbrev pub IsIdle : Counter → Type 0
IsIdle c = (c.current_value ≡ c.last_sent_value) × (c.last_sent_value < u64)

latch-IsIdle : (c : Counter) → IsIdle c → latch c ≡ (0, c)
unfolding latch
latch-IsIdle c (e, h) =
    let same : (c.current_value == c.last_sent_value) ≡ true =
      (==_iff c.current_value c.last_sent_value).1 e in
    rw same refl

module _ {F : Type 0} where
  -- The visits of one counter by a number of flushes, with no write in between.
  unfoldable pub visits : ℕ → Bytes → ℕ → Store F → Run (Store F)
  unfolding visit_counter
  visits zero key i s = ret s
  visits (suc n) key i s = do s' ← visit_counter key i s; visits n key i s'

  write_self :
      (i : ℕ) (c : Counter) (s : Store F) → get_elem? s.counter_heap i ≡ some c → write i c s ≡ s
  write_self i c s e =
      ap (λ (h : List Counter). record s { counter_heap = h }) (set_self s.counter_heap i c e)

  write-write : (i : ℕ) (c d : Counter) (s : Store F) → write i d (write i c s) ≡ write i d s
  write-write i c d s =
      ap (λ (h : List Counter). record s { counter_heap = h }) (set-set s.counter_heap i c d)

  -- One visit of an idle counter, in its three cases.
  visit_never :
      (key : Bytes) (i : ℕ) (c : Counter) (s : Store F)
      → get_elem? s.counter_heap i ≡ some c
      → IsIdle c
      → s.prune_after_flushes ≡ 0
      → visit_counter key i s ≡ ret s
  unfolding visit_found
  visit_never key i c s e h p =
      let off : (s.prune_after_flushes == 0) ≡ true = (==_iff s.prune_after_flushes 0).1 p in
      visit_counter_lem [] key i c s e
      ∙ rw (latch-IsIdle c h) (rw off (ap ret (write_self i c s e)))

  visit_early :
      (key : Bytes) (i : ℕ) (c : Counter) (s : Store F)
      → get_elem? s.counter_heap i ≡ some c
      → IsIdle c
      → c.idle_flushes + 1 < s.prune_after_flushes
      → s.prune_after_flushes < u32
      → visit_counter key i s ≡ ret (write i (idle_for 1 c) s)
  unfolding visit_found
  visit_early key i c s e h early bound =
      let fits : (c.idle_flushes + 1) % u32 ≡ c.idle_flushes + 1 = omega arith in
      let some_prune : (s.prune_after_flushes == 0) ≡ false = ground arith in
      let less : ltb (c.idle_flushes + 1) s.prune_after_flushes ≡ true =
        lt→ltb (c.idle_flushes + 1) s.prune_after_flushes early in
      visit_counter_lem [] key i c s e
      ∙ rw (latch-IsIdle c h) (rw (fits, some_prune) (rw less refl))

  visit_due :
      (key : Bytes) (i : ℕ) (c : Counter) (s : Store F)
      → get_elem? s.counter_heap i ≡ some c
      → IsIdle c
      → c.idle_flushes + 1 ≡ s.prune_after_flushes
      → s.prune_after_flushes < u32
      → visit_counter key i s
        ≡ ret (record (write i (pruned 1 c) s) { counters = delete key s.counters })
  unfolding visit_found prune_counter
  visit_due key i c s e h due bound =
      let fits : (c.idle_flushes + 1) % u32 ≡ c.idle_flushes + 1 = omega arith in
      let some_prune : (s.prune_after_flushes == 0) ≡ false = ground arith in
      let less : ltb (c.idle_flushes + 1) s.prune_after_flushes ≡ false =
        le→ltb (c.idle_flushes + 1) s.prune_after_flushes (omega arith) in
      let late : latch (pruned 1 c) ≡ (0, pruned 1 c) = latch-IsIdle (pruned 1 c) h in
      visit_counter_lem [] key i c s e
      ∙ rw (latch-IsIdle c h) (rw (fits, some_prune) (rw less (rw late refl)))

  -- The start of some visits, when the first one ends.
  visits_step :
      (n : ℕ) (key : Bytes) (i : ℕ) (s s' : Store F)
      → visit_counter key i s ≡ ret s'
      → visits (suc n) key i s ≡ visits n key i s'
  unfolding visits
  visits_step n key i s s' e = ap (λ (r : Run (Store F)). r >>= λ t. visits n key i t) e

  visits_zero : (key : Bytes) (i : ℕ) (s : Store F) → visits 0 key i s ≡ ret s
  unfolding visits
  visits_zero key i s = refl

  -- Where nothing is pruned, an idle counter and its store stay as they are through any number of flushes.
  pub visits-never :
      (n : ℕ) (key : Bytes) (i : ℕ) (c : Counter) (s : Store F)
      → get_elem? s.counter_heap i ≡ some c
      → IsIdle c
      → s.prune_after_flushes ≡ 0
      → visits n key i s ≡ ret s
  visits-never zero key i c s e h p = visits_zero key i s
  visits-never (suc n) key i c s e h p =
      visits_step n key i s s (visit_never key i c s e h p) ∙ visits-never n key i c s e h p

  -- An idle counter survives as long as its idle flushes stay below `pruneAfterFlushes`, a 32-bit word:
  -- only their number grows.
  pub visits-survives :
      (n : ℕ) (key : Bytes) (i : ℕ) (c : Counter) (s : Store F)
      → get_elem? s.counter_heap i ≡ some c
      → IsIdle c
      → c.idle_flushes + n < s.prune_after_flushes
      → s.prune_after_flushes < u32
      → visits n key i s ≡ ret (write i (idle_for n c) s)
  visits-survives zero key i c s e h early bound =
      let none_more : c.idle_flushes ≡ c.idle_flushes + 0 = omega arith in
      visits_zero key i s
      ∙ ap ret (
          sym (write_self i c s e)
          ∙ ap (λ (a : ℕ). write i (record c { idle_flushes = a }) s) none_more)
  visits-survives (suc n) key i c s e h early bound =
      let next = write i (idle_for 1 c) s in
      let there = get_elem?-set_there s.counter_heap i c (idle_for 1 c) e in
      let sum : c.idle_flushes + 1 + n ≡ c.idle_flushes + suc n = omega arith in
      visits_step n key i s next (visit_early key i c s e h (omega arith) bound)
      ∙ visits-survives n key i (idle_for 1 c) next there h (omega arith) bound
      ∙ ap ret (
          write-write i (idle_for 1 c) (idle_for n (idle_for 1 c)) s
          ∙ ap (λ (a : ℕ). write i (record c { idle_flushes = a }) s) sum)

  -- What some flushes do at one key of the map of counters, as `Range` does: the counter that the key holds is
  -- visited, and there is nothing to do where the key is gone.
  unfoldable pub entry_visits : ℕ → Bytes → Store F → Run (Store F)
  unfolding visit_counter
  entry_visits zero key s = ret s
  entry_visits (suc n) key s = elim (lookup key s.counters) [
    | none ↦ entry_visits n key s
    | some i ↦ do s' ← visit_counter key i s; entry_visits n key s'
  ]

  entry_visits_step :
      (n : ℕ) (key : Bytes) (i : ℕ) (s s' : Store F)
      → lookup key s.counters ≡ some i
      → visit_counter key i s ≡ ret s'
      → entry_visits (suc n) key s ≡ entry_visits n key s'
  unfolding entry_visits
  entry_visits_step n key i s s' found e = rw (found, entry_visits) (rw e refl)

  entry_visits_gone :
      (n : ℕ) (key : Bytes) (s : Store F)
      → lookup key s.counters ≡ none
      → entry_visits n key s ≡ ret s
  unfolding entry_visits
  entry_visits_gone zero key s gone = refl
  entry_visits_gone (suc n) key s gone = rw (gone, entry_visits) (entry_visits_gone n key s gone)

  -- Of a number of flushes with no write in between, at a key of the map that holds an idle counter: the one that
  -- makes the idle flushes of the counter reach `pruneAfterFlushes`, a 32-bit word, deletes the key and marks
  -- the counter as detached; those before it only count, and those after it find the key gone. At this key none
  -- of them sends anything.
  pub entry_visits-prunes :
      (n later : ℕ) (key : Bytes) (i : ℕ) (c : Counter) (s : Store F)
      → lookup key s.counters ≡ some i
      → get_elem? s.counter_heap i ≡ some c
      → IsIdle c
      → c.idle_flushes + suc n ≡ s.prune_after_flushes
      → s.prune_after_flushes < u32
      → entry_visits (suc n + later) key s
        ≡ ret (record (write i (pruned (suc n) c) s) { counters = delete key s.counters })
  entry_visits-prunes zero later key i c s found e h due bound =
      let done = record (write i (pruned 1 c) s) { counters = delete key s.counters } in
      let next_one : suc 0 + later ≡ suc later = omega arith in
      ap (λ (q : ℕ). entry_visits q key s) next_one
      ∙ entry_visits_step later key i s done found (visit_due key i c s e h due bound)
      ∙ entry_visits_gone later key done (lookup-delete key key s.counters ∙ rw (beq_refl key) refl)
  entry_visits-prunes (suc n) later key i c s found e h due bound =
      let next = write i (idle_for 1 c) s in
      let there = get_elem?-set_there s.counter_heap i c (idle_for 1 c) e in
      let sum : c.idle_flushes + 1 + suc n ≡ c.idle_flushes + suc (suc n) = omega arith in
      let next_one : suc (suc n) + later ≡ suc (suc n + later) = omega arith in
      ap (λ (q : ℕ). entry_visits q key s) next_one
      ∙ entry_visits_step (suc n + later) key i s next found
          (visit_early key i c s e h (omega arith) bound)
      ∙ entry_visits-prunes n later key i (idle_for 1 c) next found there h (omega arith) bound
      ∙ ap (λ (t : Store F). ret (record t { counters = delete key s.counters }))
          (write-write i (idle_for 1 c) (pruned (suc n) (idle_for 1 c)) s
            ∙ ap (λ (a : ℕ). write i (record c { idle_flushes = a; detached = true }) s) sum)
