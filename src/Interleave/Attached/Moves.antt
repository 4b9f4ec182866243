-- ===== src/Interleave/Attached/Moves.antt =====
-- The steps of the threads, and the map of counters.
use gostats.Prelude.{ℕ, ◌+◌, ◌%◌, ◌≡◌, refl, ◌==◌, ltb, false, Bool-cases, Option-cases, inl, inr}
use gostats.Bytes.{Bytes}
use gostats.Interleave.Places.{flush_only, IsBelow}
use gostats.Interleave.Attached.{
  Attached, Attached-put, Attached-join, Attached-go, Attached-delete, Attached-mark,
  Attached-clear,
}
use gostats.Store.Counters.{must_rejoin}
use gostats.Store.{u32}
use gostats.Interleave.{
  forward, visit, prune, Pc, idle, adding, storing, forwarding, added, joining, reading, read_value,
  swapping, latched, resetting, clearing, counting, deleting, marking, renewing, Memory, move,
}

module _ (name : ℕ → Bytes) where
  abbrev pub At : Memory → Pc → Type 0
  At m q = Attached name m.count m.heap m.entry q

  module _ (limit : ℕ) (m : Memory) where
    -- A step of a writer, wherever `Flush` stands.
    pub writer-Attached :
        (p q : Pc)
        → flush_only p ≡ false
        → IsBelow m.count p
        → At m q
        → At (move name limit m p).0 q
    unfolding move
    writer-Attached idle q f b a = a
    writer-Attached (adding i d) q f b a = Attached-put name m.count m.heap m.entry q i _ refl a
    writer-Attached (storing i v) q f b a = Attached-put name m.count m.heap m.entry q i _ refl a
    writer-Attached (forwarding i d) q f b a = Attached-put name m.count m.heap m.entry q i _ refl a
    writer-Attached (added i) q f b a = a
    writer-Attached (joining i) q f b a = elim (Option-cases (m.entry (name i))) [
      | inl e ↦ rw (e, move) (Attached-join name m.count m.heap m.entry q i b e a)
      | inr (j, e) ↦ rw (e, move) a
    ]
    writer-Attached (reading i (forward j)) q f b a = a
    writer-Attached (read_value i v (forward j)) q f b a = a
    writer-Attached (swapping i v l (forward j)) q f b a =
        elim (Bool-cases ((m.heap i).last_sent_value == l)) [
          | inl e ↦ rw e (Attached-put name m.count m.heap m.entry q i _ refl a)
          | inr e ↦ rw e a
        ]
    writer-Attached (latched i d (forward j)) q f b a = a
    writer-Attached (reading i visit) q f b a = absurd (cc)
    writer-Attached (reading i prune) q f b a = absurd (cc)
    writer-Attached (read_value i v visit) q f b a = absurd (cc)
    writer-Attached (read_value i v prune) q f b a = absurd (cc)
    writer-Attached (swapping i v l visit) q f b a = absurd (cc)
    writer-Attached (swapping i v l prune) q f b a = absurd (cc)
    writer-Attached (latched i d visit) q f b a = absurd (cc)
    writer-Attached (latched i d prune) q f b a = absurd (cc)
    writer-Attached (resetting i) q f b a = absurd (cc)
    writer-Attached (clearing i) q f b a = absurd (cc)
    writer-Attached (counting i) q f b a = absurd (cc)
    writer-Attached (deleting i) q f b a = absurd (cc)
    writer-Attached (marking i) q f b a = absurd (cc)
    writer-Attached (renewing i) q f b a = absurd (cc)

    -- A step of `Flush` itself.
    pub flush-Attached :
        (p : Pc) → IsBelow m.count p → At m p → At (move name limit m p).0 (move name limit m p).1
    unfolding move
    flush-Attached idle b a = a
    flush-Attached (adding i d) b a =
        Attached-go name m.count _ m.entry (adding i d) (added i) (λ j h. h) (λ j h. h)
          (Attached-put name m.count m.heap m.entry (adding i d) i _ refl a)
    flush-Attached (storing i v) b a =
        Attached-go name m.count _ m.entry (storing i v) (added i) (λ j h. h) (λ j h. h)
          (Attached-put name m.count m.heap m.entry (storing i v) i _ refl a)
    flush-Attached (forwarding i d) b a =
        Attached-go name m.count _ m.entry (forwarding i d) (added i) (λ j h. h) (λ j h. h)
          (Attached-put name m.count m.heap m.entry (forwarding i d) i _ refl a)
    flush-Attached (added i) b a = elim (Bool-cases (must_rejoin (m.heap i))) [
      | inl e ↦
          rw e
            (Attached-go name m.count m.heap m.entry (added i) (joining i) (λ j h. h) (λ j h. h) a)
      | inr e ↦
          rw e (Attached-go name m.count m.heap m.entry (added i) idle (λ j h. h) (λ j h. h) a)
    ]
    flush-Attached (joining i) b a = elim (Option-cases (m.entry (name i))) [
      | inl e ↦
          rw (e, move)
            (Attached-go name m.count m.heap _ (joining i) idle (λ j h. h) (λ j h. h)
              (Attached-join name m.count m.heap m.entry (joining i) i b e a))
      | inr (j, e) ↦
          rw (e, move)
            (elim (Bool-cases (j == i)) [
              | inl g ↦
                  rw g (
                    Attached-go name m.count m.heap m.entry (joining i) idle (λ j h. h) (λ j h. h)
                      a)
              | inr g ↦ rw g (
                  Attached-go name m.count m.heap m.entry (joining i) (reading i (forward j))
                    (λ j h. h) (λ j h. h) a)
            ])
    ]
    flush-Attached (reading i k) b a =
        Attached-go name m.count m.heap m.entry (reading i k) (read_value i _ k) (λ j h. h)
          (λ j h. h) a
    flush-Attached (read_value i v k) b a = elim (Bool-cases (v == (m.heap i).last_sent_value)) [
      | inl e ↦ rw e (
          Attached-go name m.count m.heap m.entry (read_value i v k) (latched i 0 k) (λ j h. h)
            (λ j h. h) a)
      | inr e ↦ rw e (
          Attached-go name m.count m.heap m.entry (read_value i v k) (swapping i v _ k) (λ j h. h)
            (λ j h. h) a)
    ]
    flush-Attached (swapping i v l k) b a = elim (Bool-cases ((m.heap i).last_sent_value == l)) [
      | inl e ↦ rw e (
          Attached-go name m.count _ m.entry (swapping i v l k) (latched i _ k) (λ j h. h)
            (λ j h. h) (Attached-put name m.count m.heap m.entry (swapping i v l k) i _ refl a))
      | inr e ↦ rw e (
          Attached-go name m.count m.heap m.entry (swapping i v l k) (reading i k) (λ j h. h)
            (λ j h. h) a)
    ]
    flush-Attached (latched i d (forward j)) b a =
        Attached-go name m.count m.heap m.entry (latched i d (forward j)) (forwarding j d)
          (λ j h. h) (λ j h. h) a
    flush-Attached (latched i d visit) b a = elim (Bool-cases (d == 0)) [
      | inl e ↦ rw e (elim (Bool-cases (limit == 0)) [
        | inl z ↦ rw z (
            Attached-go name m.count m.heap m.entry (latched i d visit) idle (λ j h. h)
              (λ j h. absurd (cc)) a)
        | inr z ↦ rw z (
            Attached-go name m.count m.heap m.entry (latched i d visit) (counting i) (λ j h. h)
              (λ j h. h) a)
      ])
      | inr e ↦ rw e (
          Attached-go name m.count m.heap m.entry (latched i d visit) (resetting i) (λ j h. h)
            (λ j h. h) a)
    ]
    flush-Attached (latched i d prune) b a = elim (Bool-cases (d == 0)) [
      | inl e ↦
          rw e (
            Attached-go name m.count m.heap m.entry (latched i d prune) idle (λ j h. h) (λ j h. h)
              a)
      | inr e ↦ rw e (
          Attached-go name m.count m.heap m.entry (latched i d prune) (renewing i) (λ j h. h)
            (λ j h. h) a)
    ]
    flush-Attached (resetting i) b a =
        Attached-go name m.count _ m.entry (resetting i) (clearing i) (λ j h. h) (λ j h. h)
          (Attached-put name m.count m.heap m.entry (resetting i) i _ refl a)
    flush-Attached (clearing i) b a = Attached-clear name m.count m.heap m.entry i a
    flush-Attached (counting i) b a =
        let n = ((m.heap i).idle_flushes + 1) % u32 in
        let counted =
          Attached-put name m.count m.heap m.entry (counting i) i
            (record (m.heap i) { idle_flushes = n }) refl a in
        elim (Bool-cases (ltb n limit)) [
          | inl e ↦ rw e (
              Attached-go name m.count _ m.entry (counting i) idle (λ j h. h) (λ j h. absurd (cc))
                counted)
          | inr e ↦ rw e (
              Attached-go name m.count _ m.entry (counting i) (deleting i) (λ j h. h) (λ j h. h)
                counted)
        ]
    flush-Attached (deleting i) b a = Attached-delete name m.count m.heap m.entry i a
    flush-Attached (marking i) b a = Attached-mark name m.count m.heap m.entry i a
    flush-Attached (renewing i) b a =
        Attached-go name m.count _ m.entry (renewing i) (joining i) (λ j h. h) (λ j h. h)
          (Attached-put name m.count m.heap m.entry (renewing i) i _ refl a)
