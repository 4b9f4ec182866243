-- ===== src/Store/Fresh.antt =====
-- `newCounter` of stats.go, for a name that is registered and for a new one.
use gostats.Prelude.{
  ℕ, ◌≡◌, refl, sym, subst, ◌∙◌, none, some, Option-cases, List, [], ◌∷◌, ◌++◌, arith, ltb,
  Bool-cases, inl, inr, length, get_elem?, get_elem?-append, All-append, All-map,
}
use gostats.Bytes.{Bytes, beq, beq→eq, beq_refl}
use gostats.Names.{lookup, lookup-add_entry, All-lookup, HasUniqueNames-add_entry}
use gostats.Store.{Counter, Store}
use gostats.Store.Counters.{pending}
use gostats.Store.Registry.{fresh_counter, new_counter}
use gostats.Store.Labels.{IsCounter, Labelled, IsValid, owed}
use gostats.Store.Rejoin.{total}

Labelled-append :
    (ls : List Bytes) (h : List Counter) (l : Bytes) (c : Counter)
    → Labelled ls h
    → IsCounter l c
    → Labelled (ls ++ l ∷ []) (h ++ c ∷ [])
Labelled-append [] [] l c v hc = (hc, tt)
Labelled-append [] (d ∷ h) l c v hc = absurd v
Labelled-append (k ∷ ls) [] l c v hc = absurd v
Labelled-append (k ∷ ls) (d ∷ h) l c (hd, v) hc = (hd, Labelled-append ls h l c v hc)

Labelled-last :
    (ls : List Bytes) (h : List Counter) (l : Bytes)
    → Labelled ls h
    → get_elem? (ls ++ l ∷ []) (length h) ≡ some l
Labelled-last [] [] l v = refl
Labelled-last [] (d ∷ h) l v = absurd v
Labelled-last (k ∷ ls) [] l v = absurd v
Labelled-last (k ∷ ls) (d ∷ h) l (hd, v) = Labelled-last ls h l v

owed-append :
    (n : Bytes) (ls : List Bytes) (h : List Counter) (l : Bytes) (c : Counter)
    → Labelled ls h
    → pending c ≡ 0
    → owed n (ls ++ l ∷ []) (h ++ c ∷ []) ≡ owed n ls h
owed-append n [] [] l c v e = ground (arith, e)
owed-append n [] (d ∷ h) l c v e = absurd v
owed-append n (k ∷ ls) [] l c v e = absurd v
owed-append n (k ∷ ls) (d ∷ h) l c (hd, v) e = omega (arith, owed-append n ls h l c v e)

fresh_counter-IsCounter : (prune : ℕ) (name : Bytes) → IsCounter name (fresh_counter prune name)
unfolding fresh_counter
fresh_counter-IsCounter prune name = elim (Bool-cases (ltb 0 prune)) [
  | inl e ↦ rw e (omega arith, omega arith, λ g. refl)
  | inr e ↦ rw e (omega arith, omega arith, λ g. absurd (cc))
]

fresh_counter-pending : (prune : ℕ) (name : Bytes) → pending (fresh_counter prune name) ≡ 0
unfolding fresh_counter
fresh_counter-pending prune name = refl

module _ {F : Type 0} (labels : List Bytes) (name : Bytes) (s : Store F)
    (v : IsValid labels s) where
  -- What a counter and a store are after `newCounter`, for the names `labels'`.
  abbrev pub IsRegistered : List Bytes → ℕ × Store F → Type 0
  IsRegistered labels' (i, s') =
      IsValid labels' s'
      × (get_elem? labels' i ≡ some name)
      × (lookup name s'.counters ≡ some i)
      × (s'.calls ≡ s.calls)
      × ((n : Bytes) → total labels' n s' ≡ total labels n s)
      × ((j : ℕ) (l : Bytes) → get_elem? labels j ≡ some l → get_elem? labels' j ≡ some l)
      × ((n : Bytes) (j : ℕ) → lookup n s.counters ≡ some j → lookup n s'.counters ≡ some j)
      × ((j : ℕ) (c : Counter)
          → get_elem? s.counter_heap j ≡ some c
          → get_elem? s'.counter_heap j ≡ some c)

  new_counter-none :
      lookup name s.counters ≡ none → IsRegistered (labels ++ name ∷ []) (new_counter name s)
  unfolding new_counter
  new_counter-none e =
      let c = fresh_counter s.prune_after_flushes name in
      let last = Labelled-last labels s.counter_heap name v.heap in
      rw (e, new_counter)
        (
          record {
            heap =
                Labelled-append labels s.counter_heap name c v.heap
                  (fresh_counter-IsCounter s.prune_after_flushes name);
            entries =
                All-append (λ e. get_elem? (labels ++ name ∷ []) e.1 ≡ some e.0) s.counters
                  ((name, length s.counter_heap) ∷ [])
                  (All-map (λ e. get_elem? labels e.1 ≡ some e.0)
                    (λ e. get_elem? (labels ++ name ∷ []) e.1 ≡ some e.0) s.counters
                    (λ e h. get_elem?-append labels (name ∷ []) e.1 e.0 h) v.entries)
                  (last, tt);
            unique = HasUniqueNames-add_entry name (length s.counter_heap) s.counters e v.unique;
            gauges = v.gauges;
            timers = v.timers;
          },
          last,
          lookup-add_entry name name (length s.counter_heap) s.counters e ∙ rw (beq_refl name) refl,
          refl,
          λ n. omega (
            arith,
            owed-append n labels s.counter_heap name c v.heap
                (fresh_counter-pending s.prune_after_flushes name),
          ),
          λ j l h. get_elem?-append labels (name ∷ []) j l h,
          λ n j h.
              lookup-add_entry n name (length s.counter_heap) s.counters e
              ∙ elim (Bool-cases (beq name n)) [
                | inl g ↦ absurd (
                    let same = beq→eq name n g in
                    let found : lookup name s.counters ≡ some j =
                      subst (λ (x : Bytes). lookup x s.counters ≡ some j) (sym same) h in
                    ground (arith, e, found))
                | inr g ↦ rw g h
              ],
          λ j d h. get_elem?-append s.counter_heap (c ∷ []) j d h,
        )

  -- `newCounter` keeps the store valid: the counter it returns is the one registered under the name, nothing is
  -- sent, no name's total changes, every entry that the map had is still there, and every counter that was
  -- made before is as it was.
  pub new_counter-Registers : (labels' : List Bytes) × IsRegistered labels' (new_counter name s)
  unfolding new_counter
  new_counter-Registers = elim (Option-cases (lookup name s.counters)) [
    | inl e ↦ (labels ++ name ∷ [], new_counter-none e)
    | inr (i, e) ↦ (
      labels,
      rw (e, new_counter)
          (
            v,
            All-lookup (λ e. get_elem? labels e.1 ≡ some e.0) name i s.counters v.entries e,
            e,
            refl,
            λ n. refl,
            λ j l h. h,
            λ n j h. h,
            λ j d h. h,
          ),
    )
  ]
