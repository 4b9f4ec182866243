-- ===== src/Interleave/Unpruned.antt =====
-- The threads of stats.go where `pruneAfterFlushes` is 0: `Flush` prunes no counter.
use gostats.Prelude.{
  ℕ, ◌<◌, ◌≡◌, refl, ◌==◌, Bool, true, false, Bool-cases, Option-cases, some, inl, inr,
}
use gostats.Bytes.{Bytes}
use gostats.Store.{Counter}
use gostats.Store.Counters.{must_rejoin, add_value}
use gostats.Store.Registry.{fresh_counter}
use gostats.Interleave.{
  Then, forward, visit, prune, Pc, idle, adding, storing, forwarding, added, joining, reading,
  read_value, swapping, latched, resetting, clearing, counting, deleting, marking, renewing, Memory,
  update, move, System, Step, run, call_add, call_set, visit_entry, create_counter, Reach, start,
  later,
}
use gostats.Interleave.Invariant.{Inv-Reach, each_update}
use gostats.Interleave.Attached.{Marks}

abbrev prunes_then : Then → Bool
prunes_then (forward j) = false
prunes_then visit = false
prunes_then prune = true

-- The places of a prune.
abbrev pub prunes : Pc → Bool
prunes (reading i k) = prunes_then k
prunes (read_value i v k) = prunes_then k
prunes (swapping i v l k) = prunes_then k
prunes (latched i d k) = prunes_then k
prunes (counting i) = true
prunes (deleting i) = true
prunes (marking i) = true
prunes (renewing i) = true
prunes p = false

abbrev Unmarked : (ℕ → Counter) → Type 0
Unmarked heap = (j : ℕ) → (heap j).detached ≡ false

Unmarked-update :
    (heap : ℕ → Counter) (i : ℕ) (c : Counter)
    → c.detached ≡ false
    → Unmarked heap
    → Unmarked (update heap i c)
Unmarked-update heap i c e all j = elim (Bool-cases (i == j)) [
  | inl g ↦ rw g e
  | inr g ↦ rw g (all j)
]

module _ (name : ℕ → Bytes) where
  prunes-move : (m : Memory) (p : Pc) → prunes p ≡ false → prunes (move name 0 m p).1 ≡ false
  unfolding move
  prunes-move m idle h = refl
  prunes-move m (adding i d) h = refl
  prunes-move m (storing i v) h = refl
  prunes-move m (forwarding i d) h = refl
  prunes-move m (added i) h = elim (Bool-cases (must_rejoin (m.heap i))) [
    | inl e ↦ rw e refl
    | inr e ↦ rw e refl
  ]
  prunes-move m (joining i) h = elim (Option-cases (m.entry (name i))) [
    | inl e ↦ rw (e, move) refl
    | inr (j, e) ↦
        rw (e, move) (elim (Bool-cases (j == i)) [ inl g ↦ rw g refl | inr g ↦ rw g refl ])
  ]
  prunes-move m (reading i k) h = h
  prunes-move m (read_value i v k) h = elim (Bool-cases (v == (m.heap i).last_sent_value)) [
    | inl e ↦ rw e h
    | inr e ↦ rw e h
  ]
  prunes-move m (swapping i v l k) h = elim (Bool-cases ((m.heap i).last_sent_value == l)) [
    | inl e ↦ rw e h
    | inr e ↦ rw e h
  ]
  prunes-move m (latched i d (forward j)) h = refl
  prunes-move m (latched i d visit) h = elim (Bool-cases (d == 0)) [
    | inl e ↦ rw e refl
    | inr e ↦ rw e refl
  ]
  prunes-move m (latched i d prune) h = absurd (cc)
  prunes-move m (resetting i) h = refl
  prunes-move m (clearing i) h = refl
  prunes-move m (counting i) h = absurd (cc)
  prunes-move m (deleting i) h = absurd (cc)
  prunes-move m (marking i) h = absurd (cc)
  prunes-move m (renewing i) h = absurd (cc)

  Unmarked-move :
      (m : Memory) (p : Pc) → prunes p ≡ false → Unmarked m.heap → Unmarked (move name 0 m p).0.heap
  unfolding move
  Unmarked-move m idle h u = u
  Unmarked-move m (adding i d) h u = Unmarked-update m.heap i (add_value d (m.heap i)) (u i) u
  Unmarked-move m (storing i v) h u =
      Unmarked-update m.heap i (record (m.heap i) { current_value = v }) (u i) u
  Unmarked-move m (forwarding i d) h u = Unmarked-update m.heap i (add_value d (m.heap i)) (u i) u
  Unmarked-move m (added i) h u = u
  Unmarked-move m (joining i) h u = elim (Option-cases (m.entry (name i))) [
    | inl e ↦ rw (e, move) u
    | inr (j, e) ↦ rw (e, move) u
  ]
  Unmarked-move m (reading i k) h u = u
  Unmarked-move m (read_value i v k) h u = u
  Unmarked-move m (swapping i v l k) h u = elim (Bool-cases ((m.heap i).last_sent_value == l)) [
    | inl e ↦ rw e (Unmarked-update m.heap i (record (m.heap i) { last_sent_value = v }) (u i) u)
    | inr e ↦ rw e u
  ]
  Unmarked-move m (latched i d (forward j)) h u = u
  Unmarked-move m (latched i d visit) h u = elim (Bool-cases (d == 0)) [
    | inl e ↦ rw e u
    | inr e ↦ rw e u
  ]
  Unmarked-move m (latched i d prune) h u = absurd (cc)
  Unmarked-move m (resetting i) h u =
      Unmarked-update m.heap i (record (m.heap i) { idle_flushes = 0 }) (u i) u
  Unmarked-move m (clearing i) h u =
      Unmarked-update m.heap i (record (m.heap i) { detached = false }) refl u
  Unmarked-move m (counting i) h u = absurd (cc)
  Unmarked-move m (deleting i) h u = absurd (cc)
  Unmarked-move m (marking i) h u = absurd (cc)
  Unmarked-move m (renewing i) h u = absurd (cc)

  record Unpruned (s : System name 0) : Type 0 where
    marks : Unmarked s.mem.heap
    places : (t : ℕ) → prunes (s.pc t) ≡ false

  Unpruned-Step :
      (threads : ℕ) (s t : System name 0) → Step name 0 threads s t → Unpruned s → Unpruned t
  unfolding fresh_counter
  Unpruned-Step threads s _ (run t below) u = record {
    marks = Unmarked-move s.mem (s.pc t) (u.places t) u.marks;
    places =
        each_update name 0 (λ (q : Pc). prunes q ≡ false) s.pc t _
          (prunes-move s.mem (s.pc t) (u.places t)) u.places;
  }
  Unpruned-Step threads s _ (call_add t i d below free made small) u = record {
    marks = u.marks;
    places = each_update name 0 (λ (q : Pc). prunes q ≡ false) s.pc t (adding i d) refl u.places;
  }
  Unpruned-Step threads s _ (call_set t i v below free made small) u = record {
    marks = u.marks;
    places = each_update name 0 (λ (q : Pc). prunes q ≡ false) s.pc t (storing i v) refl u.places;
  }
  Unpruned-Step threads s _ (visit_entry i k some_thread free found) u = record {
    marks = u.marks;
    places =
        each_update name 0 (λ (q : Pc). prunes q ≡ false) s.pc 0 (reading i visit) refl u.places;
  }
  Unpruned-Step threads s _ (create_counter free) u = record {
    marks =
        Unmarked-update s.mem.heap s.mem.count (fresh_counter 0 (name s.mem.count)) refl u.marks;
    places = u.places;
  }

  Unpruned-Reach : (threads : ℕ) (s : System name 0) → Reach name 0 threads s → Unpruned s
  unfolding fresh_counter
  Unpruned-Reach threads _ start = record { marks = λ j. refl; places = λ t. refl }
  Unpruned-Reach threads _ (later {s} {t} r x) =
      Unpruned-Step threads s t x (Unpruned-Reach threads s r)

  Marks-prunes : (i : ℕ) (p : Pc) → Marks i p → prunes p ≡ true
  Marks-prunes i (marking j) m = refl
  Marks-prunes i _ m = absurd m

  -- Where nothing is pruned, each counter is in the map under its name.
  pub unpruned-entry :
      (threads : ℕ) (s : System name 0)
      → Reach name 0 threads s
      → (i : ℕ) → i < s.mem.count
      → s.mem.entry (name i) ≡ some i
  unpruned-entry threads s r i below =
      let u = Unpruned-Reach threads s r in
      elim ((Inv-Reach name 0 threads s r).attached.attached i below (u.marks i)) [
        | inl e ↦ e
        | inr m ↦ absurd (let a = Marks-prunes i (s.pc 0) m in let b = u.places 0 in cc)
      ]
