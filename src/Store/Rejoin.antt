-- ===== src/Store/Rejoin.antt =====
-- `rejoin` of stats.go, and what was counted under each name.
use gostats.Prelude.{
  ℕ, suc, ◌+◌, ◌%◌, ◌<◌, ◌≡◌, refl, sym, ◌∙◌, ap, true, false, none, some, Option-cases, List, [],
  ◌∷◌, arith, ◌==◌, ==_iff, if◌then◌else◌, Bool-cases, inl, inr, get_elem?, get_elem?-set_there,
  set, All-append, Run, ret, ◌>>=◌,
}
use gostats.Bytes.{Bytes, beq}
use gostats.Names.{lookup, add_entry, All-lookup, HasUniqueNames-add_entry}
use gostats.Store.{u64, Counter, Store}
use gostats.Store.Counters.{pending, latch, add_value, must_rejoin, write, rejoin}
use gostats.Store.Labels.{IsCounter, IsValid, owed, flushed, Labelled-get, Labelled-set, owed-set}
use gostats.Store.Flush.Quiet.{latch-pending, pending-latch, latch-IsCounter}

pub pending-add_value :
    (delta : ℕ) (c : Counter)
    → c.current_value < u64
    → c.last_sent_value < u64
    → pending (add_value delta c) ≡ (pending c + delta) % u64
pending-add_value delta c h g = omega arith

pub add_value-IsCounter :
    (l : Bytes) (delta : ℕ) (c : Counter) → IsCounter l c → IsCounter l (add_value delta c)
add_value-IsCounter l delta c (h, g, e) = (omega arith, g, e)

module _ {F : Type 0} (labels : List Bytes) where
  -- All that was counted under a name: what was sent and what is owed.
  abbrev pub total : Bytes → Store F → ℕ
  total n s = flushed n s.calls + owed n labels s.counter_heap

  pub write-IsValid :
      (i : ℕ) (l : Bytes) (new : Counter) (s : Store F)
      → IsValid labels s
      → get_elem? labels i ≡ some l
      → IsCounter l new
      → IsValid labels (write i new s)
  write-IsValid i l new s v el hn = record {
    heap = Labelled-set labels s.counter_heap i l new v.heap el hn;
    entries = v.entries;
    unique = v.unique;
    gauges = v.gauges;
    timers = v.timers;
  }

  -- The run ends in a valid store where nothing more was sent, and the names have the totals of `s`, that
  -- of `l` with `delta` more, in `uint64`.
  abbrev pub Counts : Bytes → ℕ → Store F → Run (Store F) → Type 0
  Counts l delta s r =
      (s' : Store F) × (r ≡ ret s')
      × IsValid labels s'
      × (s'.calls ≡ s.calls)
      × ((n : Bytes) → total n s' % u64 ≡ (total n s + (if beq l n then delta else 0)) % u64)

  -- The three ways a `rejoin` goes: the name is free, the counter has it, another counter has it.
  rejoin_free :
      (fuel i : ℕ) (c : Counter) (s : Store F)
      → get_elem? s.counter_heap i ≡ some c
      → lookup c.name s.counters ≡ none
      → rejoin (suc fuel) i s ≡ ret (record s { counters = add_entry c.name i s.counters })
  unfolding rejoin
  rejoin_free fuel i c s e h = rw (e, rejoin, ◌>>=◌) (rw h refl)

  rejoin_self :
      (fuel i : ℕ) (c : Counter) (s : Store F)
      → get_elem? s.counter_heap i ≡ some c
      → lookup c.name s.counters ≡ some i
      → rejoin (suc fuel) i s ≡ ret s
  unfolding rejoin
  rejoin_self fuel i c s e h =
      let same : (i == i) ≡ true = (==_iff i i).1 refl in rw (e, rejoin, ◌>>=◌) (rw (h, same) refl)

  abbrev folded : ℕ → ℕ → Counter → Counter → Store F → Store F
  folded i j c other s = write j (add_value (latch c).0 other) (write i (latch c).1 s)

  rejoin_other :
      (fuel i j : ℕ) (c other : Counter) (s : Store F)
      → get_elem? s.counter_heap i ≡ some c
      → lookup c.name s.counters ≡ some j
      → (j == i) ≡ false
      → get_elem? (set s.counter_heap i (latch c).1) j ≡ some other
      → rejoin (suc fuel) i s ≡ (
          if must_rejoin other
          then rejoin fuel j (folded i j c other s)
          else ret (folded i j c other s))
  unfolding rejoin
  rejoin_other fuel i j c other s e h ne g = elim (Bool-cases (must_rejoin other)) [
    | inl m ↦ rw (e, rejoin, ◌>>=◌) (rw (h, ne) (rw (g, ◌>>=◌) (rw m refl)))
    | inr m ↦ rw (e, rejoin, ◌>>=◌) (rw (h, ne) (rw (g, ◌>>=◌) (rw m refl)))
  ]

  -- To fold what is pending into another counter of the name changes no total.
  folded-Counts :
      (i j : ℕ) (l : Bytes) (c other : Counter) (s : Store F)
      → IsValid labels s
      → get_elem? labels i ≡ some l
      → get_elem? labels j ≡ some l
      → get_elem? s.counter_heap i ≡ some c
      → get_elem? (set s.counter_heap i (latch c).1) j ≡ some other
      → IsCounter l c
      → IsCounter l other
      → Counts l 0 s (ret (folded i j c other s))
  folded-Counts i j l c other s v el el' eh eh' hc ho =
      let latched = (latch c).1 in
      let p = (latch c).0 in
      let v1 = write-IsValid i l latched s v el (latch-IsCounter l c hc) in
      let v2 =
        write-IsValid j l (add_value p other) (write i latched s) v1 el'
          (add_value-IsCounter l p other ho) in
      let exact : p ≡ pending c = latch-pending c hc.0 hc.1 in
      let left : pending latched ≡ 0 = pending-latch c in
      let grown = pending-add_value p other ho.0 ho.1 in
      (
        folded i j c other s,
        refl,
        v2,
        refl,
        λ n.
            let trade = owed-set n labels s.counter_heap i l c latched el eh in
            let trade' =
              owed-set n labels (set s.counter_heap i latched) j l other (add_value p other) el'
                eh' in
            elim (Bool-cases (beq l n)) [
              | inl g ↦
                  let t1 = rw g at trade in
                  let t2 = rw g at trade' in rw g (omega (arith, t1, t2, exact, left, grown))
              | inr g ↦
                  let t1 = rw g at trade in let t2 = rw g at trade' in rw g (omega (arith, t1, t2))
            ],
      )

  -- The counter that has the name folds no further.
  folded_end :
      (fuel i j : ℕ) (l : Bytes) (c other : Counter) (s : Store F)
      → lookup c.name s.counters ≡ some j
      → get_elem? (set s.counter_heap i (latch c).1) j ≡ some other
      → IsCounter l other
      → c.name ≡ l
      → (if must_rejoin other
          then rejoin (suc fuel) j (folded i j c other s)
          else ret (folded i j c other s))
        ≡ ret (folded i j c other s)
  folded_end fuel i j l c other s e eo ho en = elim (Bool-cases (must_rejoin other)) [
    | inl m ↦
        let has : other.has_store ≡ true = ground arith in
        let same : c.name ≡ other.name = en ∙ sym (ho.2 has) in
        let there =
          get_elem?-set_there (set s.counter_heap i (latch c).1) j other
            (add_value (latch c).0 other) eo in
        rw m (
          rejoin_self fuel j (add_value (latch c).0 other) (folded i j c other s) there
            (ap (λ (k : Bytes). lookup k s.counters) (sym same) ∙ e))
    | inr m ↦ rw m refl
  ]

  pub rejoin-Counts :
      (fuel i : ℕ) (l : Bytes) (c : Counter) (s : Store F)
      → IsValid labels s
      → get_elem? labels i ≡ some l
      → get_elem? s.counter_heap i ≡ some c
      → IsCounter l c
      → c.name ≡ l
      → Counts l 0 s (rejoin (suc (suc fuel)) i s)
  rejoin-Counts fuel i l c s v el eh hc en = elim (Option-cases (lookup c.name s.counters)) [
    | inl e ↦ rw (rejoin_free (suc fuel) i c s eh e) (
      record s { counters = add_entry c.name i s.counters },
      refl,
      record {
        heap = v.heap;
        entries =
            All-append (λ e. get_elem? labels e.1 ≡ some e.0) s.counters ((c.name, i) ∷ [])
              v.entries (el ∙ ap some (sym en), tt);
        unique = HasUniqueNames-add_entry c.name i s.counters e v.unique;
        gauges = v.gauges;
        timers = v.timers;
      },
      refl,
      λ n. ground arith,
    )
    | inr (j, e) ↦ elim (Bool-cases (j == i)) [
      | inl g ↦
          let own = e ∙ ap some ((==_iff j i).0 g) in
          rw (rejoin_self (suc fuel) i c s eh own) (s, refl, v, refl, λ n. ground arith)
      | inr g ↦
          let el' =
            All-lookup (λ e. get_elem? labels e.1 ≡ some e.0) c.name j s.counters v.entries e
            ∙ ap some en in
          let v1 = write-IsValid i l (latch c).1 s v el (latch-IsCounter l c hc) in
          let (other, eo, ho) =
            Labelled-get labels (set s.counter_heap i (latch c).1) j l v1.heap el' in
          let done = folded-Counts i j l c other s v el el' eh eo hc ho in
          rw
            (
              rejoin_other (suc fuel) i j c other s eh e g eo,
              folded_end fuel i j l c other s e eo ho en,
            )
            done
    ]
  ]
