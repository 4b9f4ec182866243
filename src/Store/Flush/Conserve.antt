-- ===== src/Store/Flush/Conserve.antt =====
-- The counters' callback of `Flush` in stats.go, and the counts under each name.
use gostats.Prelude.{
  ℕ, ◌+◌, ◌%◌, ◌≡◌, refl, sym, ◌∙◌, ap, subst, true, false, Option, none, some, List, [], ◌∷◌,
  arith, ◌==◌, ==_iff, ltb, if◌then◌else◌, Bool-cases, inl, inr, get_elem?, All, Run, ret, panic,
  ◌>>=◌,
}
use gostats.Bytes.{Bytes, beq}
use gostats.Names.{lookup, delete, All-delete, lookup-delete, HasUniqueNames-delete}
use gostats.Store.{u32, Counter, Call, Store}
use gostats.Store.Counters.{pending, latch, write}
use gostats.Store.Flush.{emit, prune_counter, visit_found, visit_counter, visit_counters}
use gostats.Store.Labels.{
  IsCounter, Maps, IsValid, owed, flushed, flushed-append, Labelled-get, Labelled-set, owed-set,
}
use gostats.Store.Flush.Quiet.{
  latch-pending, pending-latch, latch-IsCounter, IsQuiet, IsQuiet-set, IsQuiet-set_self,
}

-- From one store to a later one of a `Flush`: both are valid, for each name what was sent and what is
-- owed have the same sum, what is quiet stays so, and no entry is new.
pub record Conserved {F : Type 0} (labels : List Bytes) (s s' : Store F) : Type 0 where
  pub valid : IsValid labels s'
  pub same :
      (n : Bytes)
      → flushed n s'.calls + owed n labels s'.counter_heap
        ≡ flushed n s.calls + owed n labels s.counter_heap
  pub quiet : (j : ℕ) → IsQuiet s.counter_heap j → IsQuiet s'.counter_heap j
  pub no_new : (k : Bytes) (j : ℕ) → lookup k s'.counters ≡ some j → lookup k s.counters ≡ some j

abbrev pub read_ret : Option Counter → Run Counter
read_ret none = panic
read_ret (some c) = ret c

module _ {F : Type 0} (labels : List Bytes) where
  pub Conserved-refl : (s : Store F) → IsValid labels s → Conserved labels s s
  Conserved-refl s v = record { valid = v; same = λ n. refl; quiet = λ j q. q; no_new = λ k j e. e }

  pub Conserved-trans :
      (s t u : Store F) → Conserved labels s t → Conserved labels t u → Conserved labels s u
  Conserved-trans s t u a b = record {
    valid = b.valid;
    same = λ n. b.same n ∙ a.same n;
    quiet = λ j q. b.quiet j (a.quiet j q);
    no_new = λ k j e. a.no_new k j (b.no_new k j e);
  }

  -- A visit of the counter at `i` ends, and leaves nothing pending there.
  abbrev pub Settles : ℕ → Store F → Run (Store F) → Type 0
  Settles i s r = (s' : Store F) × (r ≡ ret s') × Conserved labels s s' × IsQuiet s'.counter_heap i

  module _ (s : Store F) (v : IsValid labels s) (i : ℕ) (l : Bytes) (old new : Counter)
      (el : get_elem? labels i ≡ some l) (eh : get_elem? s.counter_heap i ≡ some old)
      (hn : IsCounter l new) (none_left : pending new ≡ 0) where
    write_valid : IsValid labels (write i new s)
    write_valid = record {
      heap = Labelled-set labels s.counter_heap i l new v.heap el hn;
      entries = v.entries;
      unique = v.unique;
      gauges = v.gauges;
      timers = v.timers;
    }

    -- A write where nothing was pending.
    write_kept : pending old ≡ 0 → Conserved labels s (write i new s)
    write_kept idle = record {
      valid = write_valid;
      same = λ n.
          let trade = owed-set n labels s.counter_heap i l old new el eh in
          let equal = ap (λ (p : ℕ). if beq l n then p else 0) (none_left ∙ sym idle) in
          omega (arith, trade, equal);
      quiet = λ j q. IsQuiet-set s.counter_heap i j new none_left q;
      no_new = λ k j e. e;
    }

    write_same : pending old ≡ 0 → Settles i s (ret (write i new s))
    write_same idle =
        (write i new s, refl, write_kept idle, IsQuiet-set_self s.counter_heap i new none_left)

    -- A write that sends what was pending.
    write_sent : Settles i s (ret (emit (Call.flush_counter l (pending old)) (write i new s)))
    write_sent = (
      emit (Call.flush_counter l (pending old)) (write i new s),
      refl,
      record {
        valid = record {
          heap = write_valid.heap;
          entries = v.entries;
          unique = v.unique;
          gauges = v.gauges;
          timers = v.timers;
        };
        same = λ n.
            let trade = owed-set n labels s.counter_heap i l old new el eh in
            let nothing : (if beq l n then pending new else 0) ≡ 0 = ground (arith, none_left) in
            let sent = flushed-append n s.calls (Call.flush_counter l (pending old) ∷ []) in
            omega (arith, trade, nothing, sent);
        quiet = λ j q. IsQuiet-set s.counter_heap i j new none_left q;
        no_new = λ k j e. e;
      },
      IsQuiet-set_self s.counter_heap i new none_left,
    )

  delete_entry :
      (key : Bytes) (s : Store F)
      → IsValid labels s
      → Conserved labels s (record s { counters = delete key s.counters })
  delete_entry key s v = record {
    valid = record {
      heap = v.heap;
      entries = All-delete (λ e. get_elem? labels e.1 ≡ some e.0) key s.counters v.entries;
      unique = HasUniqueNames-delete key s.counters v.unique;
      gauges = v.gauges;
      timers = v.timers;
    };
    same = λ n. refl;
    quiet = λ j q. q;
    no_new = λ k j e. ground (arith, lookup-delete k key s.counters);
  }

  prune_counter-Settles :
      (key : Bytes) (i : ℕ) (old c : Counter) (s : Store F)
      → IsValid labels s
      → get_elem? labels i ≡ some key
      → get_elem? s.counter_heap i ≡ some old
      → IsCounter key c
      → pending c ≡ 0
      → pending old ≡ 0
      → Settles i s (prune_counter key i c s)
  unfolding prune_counter
  prune_counter-Settles key i old c s v el eh hc idle idle' =
      let c1 : Counter = record c { detached = true } in
      let nothing : (latch c1).0 ≡ 0 = latch-pending c1 hc.0 hc.1 ∙ idle in
      rw nothing (
        record (write i c1 s) { counters = delete key s.counters },
        refl,
        Conserved-trans s (write i c1 s)
            (record (write i c1 s) { counters = delete key s.counters })
            (write_kept s v i key old c1 el eh hc idle idle')
            (delete_entry key (write i c1 s) (write_valid s v i key old c1 el eh hc idle)),
        IsQuiet-set_self s.counter_heap i c1 idle,
      )

  visit_found-Settles :
      (key : Bytes) (i : ℕ) (c : Counter) (s : Store F)
      → IsValid labels s
      → get_elem? labels i ≡ some key
      → get_elem? s.counter_heap i ≡ some c
      → IsCounter key c
      → Settles i s (visit_found key i c s)
  unfolding visit_found
  visit_found-Settles key i c s v el eh hc =
      let exact = latch-pending c hc.0 hc.1 in
      let hc1 = latch-IsCounter key c hc in
      let left = pending-latch c in
      let idle_next = ((latch c).1.idle_flushes + 1) % u32 in
      rw exact (elim (Bool-cases (pending c == 0)) [
        | inr e ↦ rw e (
            write_sent s v i key c (record ((latch c).1) { idle_flushes = 0; detached = false }) el
              eh hc1 left)
        | inl e ↦
            let idle : pending c ≡ 0 = (==_iff (pending c) 0).0 e in
            rw e (elim (Bool-cases (s.prune_after_flushes == 0)) [
              | inl g ↦ rw g (write_same s v i key c (latch c).1 el eh hc1 left idle)
              | inr g ↦ rw g (elim (Bool-cases (ltb idle_next s.prune_after_flushes)) [
                | inl k ↦ rw k (
                    write_same s v i key c (record ((latch c).1) { idle_flushes = idle_next }) el eh
                      hc1 left idle)
                | inr k ↦ rw k (
                    prune_counter-Settles key i c
                      (record ((latch c).1) { idle_flushes = idle_next }) s v el eh hc1 left idle)
              ])
            ])
      ])

  pub visit_counter_lem :
      (key : Bytes) (i : ℕ) (c : Counter) (s : Store F)
      → get_elem? s.counter_heap i ≡ some c
      → visit_counter key i s ≡ visit_found key i c s
  unfolding visit_counter
  visit_counter_lem key i c s eh =
      ap (λ (o : Option Counter). read_ret o >>= λ d. visit_found key i d s) eh

  pub visit_counter-Settles :
      (key : Bytes) (i : ℕ) (s : Store F)
      → IsValid labels s
      → get_elem? labels i ≡ some key
      → Settles i s (visit_counter key i s)
  visit_counter-Settles key i s v el =
      let (c, eh, hc) = Labelled-get labels s.counter_heap i key v.heap el in
      subst (Settles i s) (sym (visit_counter_lem key i c s eh))
        (visit_found-Settles key i c s v el eh hc)

  -- The visits of some entries end, and leave nothing pending in the counters visited.
  pub visit_counters-Settles :
      (entries : List (Bytes × ℕ)) (s : Store F)
      → IsValid labels s
      → Maps labels entries
      → (s' : Store F) × (visit_counters entries s ≡ ret s')
        × Conserved labels s s'
        × All (λ e. IsQuiet s'.counter_heap e.1) entries
  unfolding visit_counters
  visit_counters-Settles [] s v h = (s, refl, Conserved-refl s v, tt)
  visit_counters-Settles ((key, i) ∷ entries) s v (he, h) =
      let (s1, e1, kept1, quiet1) = visit_counter-Settles key i s v he in
      let (s2, e2, kept2, quiet2) = visit_counters-Settles entries s1 kept1.valid h in
      (s2, rw e1 e2, Conserved-trans s s1 s2 kept1 kept2, (kept2.quiet i quiet1, quiet2))
