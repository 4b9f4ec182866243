-- ===== src/Interleave/Invariant.antt =====
-- What holds of the map and of the threads in every state that the steps reach.
use gostats.Prelude.{
  ℕ, zero, suc, ◌<◌, ◌≡◌, refl, sym, ap, subst, ◌==◌, ==_iff, suc-==_zero, false, Bool-cases, none,
  some, ◌⊎◌, inl, inr, arith,
}
use gostats.Bytes.{Bytes, beq→eq, beq_refl}
use gostats.Interleave.{
  Pc, marking, idle, adding, storing, reading, visit, update, set_entry, create, move, System, Step,
  run, call_add, call_set, visit_entry, create_counter, Reach, start, later,
}
use gostats.Interleave.Places.{
  visited, flush_only, flush_only-move, IsBelow, IsBelow-move, IsBelow-suc, move-count,
}
use gostats.Interleave.Attached.{Marks, Attached-go}
use gostats.Interleave.Attached.Moves.{At, writer-Attached, flush-Attached}

-- The place where `Flush` marks a counter.
Marks-eq : (i : ℕ) (p : Pc) → Marks i p → p ≡ marking i
Marks-eq i (marking j) m = ap marking m
Marks-eq i _ m = absurd m

module _ (name : ℕ → Bytes) (limit : ℕ) where
  pub record Inv (s : System name limit) : Type 0 where
    pub attached : At name s.mem (s.pc 0)
    pub roles : (t : ℕ) → flush_only (s.pc (suc t)) ≡ false
    pub below : (t : ℕ) → IsBelow s.mem.count (s.pc t)

  -- What holds of every thread holds of every thread after one of them has moved.
  pub each_update :
      (P : Pc → Type 0) (f : ℕ → Pc) (t : ℕ) (p : Pc)
      → P p
      → ((u : ℕ) → P (f u))
      → (u : ℕ) → P (update f t p u)
  each_update P f t p h all u = elim (Bool-cases (t == u)) [ inl e ↦ rw e h | inr e ↦ rw e (all u) ]

  -- What holds of the writers.
  writers_update :
      (P : Pc → Type 0) (f : ℕ → Pc) (t : ℕ) (p : Pc)
      → (t ≡ 0) ⊎ P p
      → ((u : ℕ) → P (f (suc u)))
      → (u : ℕ) → P (update f t p (suc u))
  writers_update P f t p h all u = elim (Bool-cases (t == suc u)) [
    | inl e ↦ elim h [ inl z ↦ absurd (ground (arith, e, z)) | inr q ↦ rw e q ]
    | inr e ↦ rw e (all u)
  ]

  Attached-create :
      (s : System name limit)
      → s.mem.entry (name s.mem.count) ≡ none
      → At name s.mem (s.pc 0)
      → At name (create name limit s.mem) (s.pc 0)
  Attached-create s free a = record {
    entries = λ k j h. ground (arith, beq→eq (name s.mem.count) k, a.entries k j);
    attached = λ j h d. elim (Bool-cases (s.mem.count == j)) [
      | inl g ↦
          let same : s.mem.count ≡ j = (==_iff s.mem.count j).0 g in
          inl (
            subst
              (λ (i : ℕ).
                set_entry s.mem.entry (name s.mem.count) (some s.mem.count) (name i) ≡ some i)
              same (rw (beq_refl (name s.mem.count)) refl))
      | inr g ↦
          let older : j < s.mem.count = ground arith in
          let still : (s.mem.heap j).detached ≡ false = ground (arith, g, d) in
          elim (a.attached j older still) [
            | inl e ↦ inl (ground (arith, beq→eq (name s.mem.count) (name j), e, free))
            | inr m ↦ inr m
          ]
    ];
    visiting = λ j h.
        let e = a.visiting j h in ground (arith, beq→eq (name s.mem.count) (name j), e, free);
  }

  -- A thread that is idle goes to a place that marks nothing.
  Inv-call :
      (s : System name limit) (t : ℕ) (p : Pc)
      → s.pc t ≡ idle
      → IsBelow s.mem.count p
      → flush_only p ≡ false
      → ((j : ℕ) → visited p ≡ some j → ⊥)
      → Inv s
      → Inv (record s { pc = update s.pc t p })
  Inv-call s zero p free below role none_visited v = record {
    attached =
        Attached-go name s.mem.count s.mem.heap s.mem.entry (s.pc 0) p
          (λ j h. subst (Marks j) free h) (λ j h. absurd (none_visited j h)) v.attached;
    roles = writers_update (λ (q : Pc). flush_only q ≡ false) s.pc 0 p (inl refl) v.roles;
    below = each_update (IsBelow s.mem.count) s.pc 0 p below v.below;
  }
  Inv-call s (suc t) p free below role none_visited v = record {
    attached = rw (suc-==_zero t) v.attached;
    roles = writers_update (λ (q : Pc). flush_only q ≡ false) s.pc (suc t) p (inr role) v.roles;
    below = each_update (IsBelow s.mem.count) s.pc (suc t) p below v.below;
  }

  Inv-run :
      (s : System name limit) (t : ℕ)
      → Inv s
      → (u : ℕ)
      → IsBelow
          (move name limit s.mem (s.pc t)).0.count
          (update s.pc t (move name limit s.mem (s.pc t)).1 u)
  Inv-run s t v =
      let known : (k : Bytes) (j : ℕ) → s.mem.entry k ≡ some j → j < s.mem.count =
        λ k j e. (v.attached.entries k j e).0 in
      rw (move-count name limit s.mem (s.pc t)) (
        each_update (IsBelow s.mem.count) s.pc t (move name limit s.mem (s.pc t)).1
          (IsBelow-move name limit s.mem (s.pc t) known (v.below t)) v.below)

  Inv-Step : (threads : ℕ) (s t : System name limit) → Step name limit threads s t → Inv s → Inv t
  Inv-Step threads s _ (run zero below) v = record {
    attached = flush-Attached name limit s.mem (s.pc 0) (v.below 0) v.attached;
    roles = writers_update (λ (q : Pc). flush_only q ≡ false) s.pc 0 _ (inl refl) v.roles;
    below = Inv-run s 0 v;
  }
  Inv-Step threads s _ (run (suc t) below) v = record {
    attached = rw (suc-==_zero t) (
        writer-Attached name limit s.mem (s.pc (suc t)) (s.pc 0) (v.roles t) (v.below (suc t))
          v.attached);
    roles =
        writers_update (λ (q : Pc). flush_only q ≡ false) s.pc (suc t) _
          (inr (flush_only-move name limit s.mem (s.pc (suc t)) (v.roles t))) v.roles;
    below = Inv-run s (suc t) v;
  }
  Inv-Step threads s _ (call_add t i d below free made small) v =
      Inv-call s t (adding i d) free made refl (λ j h. absurd (cc)) v
  Inv-Step threads s _ (call_set t i d below free made small) v =
      Inv-call s t (storing i d) free made refl (λ j h. absurd (cc)) v
  Inv-Step threads s _ (visit_entry i k some_thread free found) v =
      let at = v.attached.entries k i found in
      record {
        attached = record {
          entries = v.attached.entries;
          attached = λ j h d. elim (v.attached.attached j h d) [
            | inl e ↦ inl e
            | inr m ↦ absurd (subst (Marks j) free m)
          ];
          visiting = λ j h.
              let own : s.mem.entry (name i) ≡ some i =
                subst (λ (x : Bytes). s.mem.entry x ≡ some i) (sym at.1) found in
              ground (arith, own, h);
        };
        roles =
            writers_update (λ (q : Pc). flush_only q ≡ false) s.pc 0 (reading i visit) (inl refl)
              v.roles;
        below = each_update (IsBelow s.mem.count) s.pc 0 (reading i visit) (at.0, tt) v.below;
      }
  Inv-Step threads s _ (create_counter free) v = record {
    attached = Attached-create s free v.attached;
    roles = v.roles;
    below = λ t. IsBelow-suc s.mem.count (s.pc t) (v.below t);
  }

  pub Inv-Reach : (threads : ℕ) (s : System name limit) → Reach name limit threads s → Inv s
  Inv-Reach threads _ start = record {
    attached = record {
      entries = λ k j h. absurd (cc);
      attached = λ j h d. absurd (ground arith);
      visiting = λ j h. absurd (cc);
    };
    roles = λ t. refl;
    below = λ t. tt;
  }
  Inv-Reach threads _ (later {s} {t} r x) = Inv-Step threads s t x (Inv-Reach threads s r)

  -- In every state that any number of writers and one Flush at a time reach, a counter that is not marked as
  -- detached is in the map under its name, or Flush has deleted it and marks it with its next operation.
  pub no_orphan :
      (threads : ℕ) (s : System name limit)
      → Reach name limit threads s
      → (i : ℕ) → i < s.mem.count
      → (s.mem.heap i).detached ≡ false
      → (s.mem.entry (name i) ≡ some i) ⊎ (s.pc 0 ≡ marking i)
  no_orphan threads s r i below d = elim ((Inv-Reach threads s r).attached.attached i below d) [
    | inl e ↦ inl e
    | inr m ↦ inr (Marks-eq i (s.pc 0) m)
  ]
