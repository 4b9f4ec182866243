-- ===== src/Interleave/Alone.antt =====
-- A thread that runs while the others stand still.
pub mod Bound
use gostats.Prelude.{
  ℕ, zero, suc, ◌+◌, ◌%◌, ◌≤◌, ◌≡◌, refl, sym, subst, ◌==◌, ==_iff, ltb, Bool, true, false,
  Bool-cases, Option-cases, Option, none, some, if◌then◌else◌, inl, inr, arith,
}
use gostats.Bytes.{Bytes}
use gostats.Store.{u32, Counter}
use gostats.Store.Counters.{must_rejoin, add_value}
use gostats.Interleave.{
  Then, forward, visit, prune, Pc, idle, adding, storing, forwarding, added, joining, reading,
  read_value, swapping, latched, resetting, clearing, counting, deleting, marking, renewing, Memory,
  set_entry, put, minus, send, move,
}

module _ (name : ℕ → Bytes) (limit : ℕ) where
  -- The next `n` steps of a thread, with nothing between them.
  abbrev pub runs : ℕ → Memory → Pc → Memory × Pc
  runs zero m p = (m, p)
  runs (suc n) m p = runs n (move name limit m p).0 (move name limit m p).1

  abbrev pub Ends : ℕ → Memory → Pc → Type 0
  Ends n m p = (runs n m p).1 ≡ idle

  -- The map holds each counter under its name.
  abbrev pub Known : (Bytes → Option ℕ) → Type 0
  Known entry = (k : Bytes) (j : ℕ) → entry k ≡ some j → name j ≡ k

  pub Ends-idle : (n : ℕ) (m : Memory) → Ends n m idle
  unfolding move
  Ends-idle zero m = refl
  Ends-idle (suc n) m = Ends-idle n m

  pub Ends-le : (n n' : ℕ) (m : Memory) (p : Pc) → n ≤ n' → Ends n m p → Ends n' m p
  Ends-le zero n' m p h e = subst (Ends n' m) (sym e) (Ends-idle n' m)
  Ends-le (suc n) zero m p h e = absurd (omega arith)
  Ends-le (suc n) (suc n') m p h e =
      Ends-le n n' (move name limit m p).0 (move name limit m p).1 (omega arith) e

  -- One step, by where it leads.
  pub Ends-after :
      (n : ℕ) (m : Memory) (p : Pc) (m' : Memory) (p' : Pc)
      → move name limit m p ≡ (m', p')
      → Ends n m' p'
      → Ends (suc n) m p
  Ends-after n m p m' p' e h = subst (λ (x : Memory × Pc). (runs n x.0 x.1).1 ≡ idle) (sym e) h

  abbrev sent_up : ℕ → ℕ → Memory → Memory
  sent_up i v m = put i (record (m.heap i) { last_sent_value = v }) m

  -- A counter that the map holds is found there.
  added_own-Ends : (m : Memory) (j : ℕ) → m.entry (name j) ≡ some j → Ends 2 m (added j)
  unfolding move
  added_own-Ends m j own =
      let same : (j == j) ≡ true = ground arith in
      elim (Bool-cases (must_rejoin (m.heap j))) [
        | inl e ↦
            Ends-after 1 m (added j) m (joining j) (rw e refl)
              (Ends-after 0 m (joining j) m idle (rw (own, move) (rw same refl)) refl)
        | inr e ↦ Ends-after 1 m (added j) m idle (rw e refl) (Ends-idle 1 m)
      ]

  -- `latch`: where it runs alone, it ends as what follows it does.
  module _ (n i : ℕ) (k : Then) (entry : Bytes → Option ℕ)
      (h : (m : Memory) (d : ℕ) → m.entry ≡ entry → Ends n m (latched i d k)) where
    pub read_value-Ends :
        (m : Memory) (v : ℕ) → m.entry ≡ entry → Ends (suc (suc n)) m (read_value i v k)
    unfolding move
    read_value-Ends m v kept =
        let l = (m.heap i).last_sent_value in
        let same : (l == l) ≡ true = ground arith in
        elim (Bool-cases (v == l)) [
          | inl e ↦
              Ends-le (suc n) (suc (suc n)) m (read_value i v k) (omega arith)
                (Ends-after n m (read_value i v k) m (latched i 0 k) (rw e refl) (h m 0 kept))
          | inr e ↦ Ends-after (suc n) m (read_value i v k) m (swapping i v l k) (rw e refl) (
              Ends-after n m (swapping i v l k) (sent_up i v m) (latched i (minus v l) k)
                (rw same refl) (h (sent_up i v m) (minus v l) kept))
        ]

    pub swapping-Ends :
        (m : Memory) (v l : ℕ)
        → m.entry ≡ entry
        → Ends (suc (suc (suc (suc n)))) m (swapping i v l k)
    unfolding move
    swapping-Ends m v l kept = elim (Bool-cases ((m.heap i).last_sent_value == l)) [
      | inl e ↦ Ends-le (suc n) (suc (suc (suc (suc n)))) m (swapping i v l k) (omega arith) (
          Ends-after n m (swapping i v l k) (sent_up i v m) (latched i (minus v l) k) (rw e refl)
            (h (sent_up i v m) (minus v l) kept))
      | inr e ↦
          Ends-after (suc (suc (suc n))) m (swapping i v l k) m (reading i k) (rw e refl)
            (read_value-Ends m (m.heap i).current_value kept)
    ]

  latched_forward-Ends :
      (i j : ℕ) (entry : Bytes → Option ℕ)
      → entry (name j) ≡ some j
      → (m : Memory) (d : ℕ) → m.entry ≡ entry
      → Ends 4 m (latched i d (forward j))
  unfolding move
  latched_forward-Ends i j entry own m d kept =
      added_own-Ends (put j (add_value d (m.heap j)) m) j
        (subst (λ (f : Bytes → Option ℕ). f (name j) ≡ some j) (sym kept) own)

  module _ (m : Memory) (known : Known m.entry) where
    pub joining-Ends : (i : ℕ) → Ends 8 m (joining i)
    unfolding move
    joining-Ends i = elim (Option-cases (m.entry (name i))) [
      | inl e ↦
          let joined : Memory = record m { entry = set_entry m.entry (name i) (some i) } in
          Ends-after 7 m (joining i) joined idle (rw (e, move) refl) (Ends-idle 7 joined)
      | inr (j, e) ↦ elim (Bool-cases (j == i)) [
        | inl g ↦ Ends-after 7 m (joining i) m idle (rw (e, move) (rw g refl)) (Ends-idle 7 m)
        | inr g ↦
            let own : m.entry (name j) ≡ some j =
              subst (λ (x : Bytes). m.entry x ≡ some j) (sym (known (name i) j e)) e in
            Ends-after 7 m (joining i) m (reading i (forward j)) (rw (e, move) (rw g refl)) (
              read_value-Ends 4 i (forward j) m.entry (latched_forward-Ends i j m.entry own) m
                (m.heap i).current_value refl)
      ]
    ]

    pub added-Ends : (i : ℕ) → Ends 9 m (added i)
    unfolding move
    added-Ends i = elim (Bool-cases (must_rejoin (m.heap i))) [
      | inl e ↦ Ends-after 8 m (added i) m (joining i) (rw e refl) (joining-Ends i)
      | inr e ↦ Ends-after 8 m (added i) m idle (rw e refl) (Ends-idle 8 m)
    ]
