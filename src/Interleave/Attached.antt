-- ===== src/Interleave/Attached.antt =====
-- The map of counters and the marks of the counters that are not in it.
pub mod Moves
use gostats.Prelude.{
  ℕ, zero, suc, ◌+◌, ◌-◌, ◌%◌, ◌<◌, ◌≡◌, refl, sym, ◌∙◌, ap, subst, ◌==◌, ==_iff, ltb, Bool, true,
  false, Bool-cases, Option-cases, Option, none, some, List, [], ◌∷◌, ◌++◌, if◌then◌else◌, ◌⊎◌, inl,
  inr, arith,
}
use gostats.Bytes.{Bytes, beq, beq→eq, beq_refl}
use gostats.Interleave.Places.{flush_then, flush_only, visited_then, visited, IsBelow}
use gostats.Store.{u32, Counter}
use gostats.Interleave.{
  Then, forward, visit, prune, Pc, idle, adding, storing, forwarding, added, joining, reading,
  read_value, swapping, latched, resetting, clearing, counting, deleting, marking, renewing, Memory,
  update, set_entry, put, send, ask, move,
}

abbrev pub Marks : ℕ → Pc → Type 0
Marks j (marking i) = i ≡ j
Marks j p = ⊥

module _ (name : ℕ → Bytes) where
  -- The map and the Marks, where `Flush` stands at `q`.
  pub record Attached (count : ℕ) (heap : ℕ → Counter) (entry : Bytes → Option ℕ) (q : Pc)
      : Type 0 where
    pub entries : (k : Bytes) (j : ℕ) → entry k ≡ some j → (j < count) × (name j ≡ k)
    pub attached :
        (j : ℕ) → j < count → (heap j).detached ≡ false → (entry (name j) ≡ some j) ⊎ Marks j q
    pub visiting : (j : ℕ) → visited q ≡ some j → entry (name j) ≡ some j

  -- A write that leaves the marks alone.
  pub Attached-put :
      (count : ℕ) (heap : ℕ → Counter) (entry : Bytes → Option ℕ) (q : Pc) (i : ℕ) (c : Counter)
      → c.detached ≡ (heap i).detached
      → Attached count heap entry q
      → Attached count (update heap i c) entry q
  Attached-put count heap entry q i c e a = record {
    entries = a.entries;
    attached = λ j h d.
        let still : (heap j).detached ≡ false = ground (arith, e, d) in a.attached j h still;
    visiting = a.visiting;
  }

  -- A counter joins the map where its name is free.
  pub Attached-join :
      (count : ℕ) (heap : ℕ → Counter) (entry : Bytes → Option ℕ) (q : Pc) (i : ℕ)
      → i < count
      → entry (name i) ≡ none
      → Attached count heap entry q
      → Attached count heap (set_entry entry (name i) (some i)) q
  Attached-join count heap entry q i below free a = record {
    entries = λ k j h. ground (arith, beq→eq (name i) k, a.entries k j);
    attached = λ j h d. elim (a.attached j h d) [
      | inl e ↦ inl (ground (arith, beq→eq (name i) (name j), e, free))
      | inr m ↦ inr m
    ];
    visiting = λ j h. let e = a.visiting j h in ground (arith, beq→eq (name i) (name j), e, free);
  }

  -- `Flush` goes on: from a place that marks nothing to one that visits the same counter or none.
  pub Attached-go :
      (count : ℕ) (heap : ℕ → Counter) (entry : Bytes → Option ℕ) (q q' : Pc)
      → ((j : ℕ) → Marks j q → ⊥)
      → ((j : ℕ) → visited q' ≡ some j → visited q ≡ some j)
      → Attached count heap entry q
      → Attached count heap entry q'
  Attached-go count heap entry q q' none_marked same a = record {
    entries = a.entries;
    attached =
        λ j h d. elim (a.attached j h d) [ inl e ↦ inl e | inr m ↦ absurd (none_marked j m) ];
    visiting = λ j h. a.visiting j (same j h);
  }

  -- `Flush` deletes an entry, and the counter is the one that it marks next.
  pub Attached-delete :
      (count : ℕ) (heap : ℕ → Counter) (entry : Bytes → Option ℕ) (i : ℕ)
      → Attached count heap entry (deleting i)
      → Attached count heap (set_entry entry (name i) none) (marking i)
  Attached-delete count heap entry i a =
      let own : entry (name i) ≡ some i = a.visiting i refl in
      record {
        entries = λ k j h. ground (arith, a.entries k j);
        attached = λ j h d. elim (a.attached j h d) [
          | inl e ↦ elim (Bool-cases (beq (name i) (name j))) [
            | inl g ↦
                let same : name i ≡ name j = beq→eq (name i) (name j) g in
                let found : entry (name i) ≡ some j = rw same e in inr (ground (arith, own, found))
            | inr g ↦ inl (rw g e)
          ]
          | inr m ↦ absurd m
        ];
        visiting = λ j h. absurd (cc);
      }

  -- `Flush` marks the counter that it deleted.
  pub Attached-mark :
      (count : ℕ) (heap : ℕ → Counter) (entry : Bytes → Option ℕ) (i : ℕ)
      → Attached count heap entry (marking i)
      → Attached count (update heap i (record (heap i) { detached = true })) entry (reading i prune)
  Attached-mark count heap entry i a = record {
    entries = a.entries;
    attached = λ j h d.
        let other : (i == j) ≡ false = ground (arith, d) in
        let still : (heap j).detached ≡ false = ground (arith, other, d) in
        elim (a.attached j h still) [ inl e ↦ inl e | inr m ↦ absurd (ground (arith, m, other)) ];
    visiting = λ j h. absurd (cc);
  }

  -- `Flush` clears the mark of the counter that it visits.
  pub Attached-clear :
      (count : ℕ) (heap : ℕ → Counter) (entry : Bytes → Option ℕ) (i : ℕ)
      → Attached count heap entry (clearing i)
      → Attached count (update heap i (record (heap i) { detached = false })) entry idle
  Attached-clear count heap entry i a = record {
    entries = a.entries;
    attached = λ j h d. elim (Bool-cases (i == j)) [
      | inl g ↦
          let same : i ≡ j = (==_iff i j).0 g in
          inl (subst (λ (k : ℕ). entry (name k) ≡ some k) same (a.visiting i refl))
      | inr g ↦
          let still : (heap j).detached ≡ false = ground (arith, g, d) in
          elim (a.attached j h still) [ inl e ↦ inl e | inr m ↦ absurd m ]
    ];
    visiting = λ j h. absurd (cc);
  }
