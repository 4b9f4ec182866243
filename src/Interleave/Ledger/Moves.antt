-- ===== src/Interleave/Ledger/Moves.antt =====
-- The steps of the threads, and what is owed under a name.
use gostats.Prelude.{
  ℕ, ◌+◌, ◌%◌, refl, ap, ◌==◌, ==_iff, ltb, Bool-cases, Option-cases, inl, inr, arith,
}
use gostats.Bytes.{Bytes, beq}
use gostats.Store.Counters.{must_rejoin, pending, add_value}
use gostats.Store.Rejoin.{pending-add_value}
use gostats.Store.{u32, u64}
use gostats.Interleave.{
  forward, visit, prune, Pc, idle, adding, storing, forwarding, added, joining, reading, read_value,
  swapping, latched, resetting, clearing, counting, deleting, marking, renewing, Memory, minus,
  move,
}
use gostats.Interleave.Places.{IsBelow}
use gostats.Interleave.Ledger.{
  counted, sum_of, Fits, HeapFits, owing, Balances, balance, even, gain, gain_forwarded,
  pending_stored, taken,
}

module _ (name : ℕ → Bytes) (limit : ℕ) (k : Bytes) (m : Memory) (fits : HeapFits m.heap) where
  pub move-Balances :
      (p : Pc)
      → Fits name p
      → IsBelow m.count p
      → Balances name k m p (move name limit m p).0 (move name limit m p).1
  unfolding move
  move-Balances idle f b = refl
  move-Balances (adding i d) f b =
      balance name k m i (add_value d (m.heap i)) (sum_of k m.sent) 0 0 (sum_of k m.asked)
        (counted k (name i) d + sum_of k m.asked) b
        (gain (beq (name i) k) (pending (m.heap i)) d (pending (add_value d (m.heap i)))
          (sum_of k m.asked) (pending-add_value d (m.heap i) (fits i).0 (fits i).1))
  move-Balances (storing i v) f b =
      let d = minus v (m.heap i).current_value in
      balance name k m i (record (m.heap i) { current_value = v }) (sum_of k m.sent) 0 0
        (sum_of k m.asked) (counted k (name i) d + sum_of k m.asked) b
        (gain (beq (name i) k) (pending (m.heap i)) d _ (sum_of k m.asked) (
          pending_stored v (m.heap i).current_value (m.heap i).last_sent_value f (fits i).0
            (fits i).1))
  move-Balances (forwarding i d) f b =
      balance name k m i (add_value d (m.heap i)) (sum_of k m.sent) (counted k (name i) d) 0
        (sum_of k m.asked) (sum_of k m.asked) b
        (gain_forwarded (beq (name i) k) (pending (m.heap i)) d (pending (add_value d (m.heap i)))
          (sum_of k m.asked) (pending-add_value d (m.heap i) (fits i).0 (fits i).1))
  move-Balances (added i) f b = elim (Bool-cases (must_rejoin (m.heap i))) [
    | inl e ↦ rw e refl
    | inr e ↦ rw e refl
  ]
  move-Balances (joining i) f b = elim (Option-cases (m.entry (name i))) [
    | inl e ↦ rw (e, move) refl
    | inr (j, e) ↦
        rw (e, move) (elim (Bool-cases (j == i)) [ inl g ↦ rw g refl | inr g ↦ rw g refl ])
  ]
  move-Balances (reading i next) f b = refl
  move-Balances (read_value i v next) f b = elim (Bool-cases (v == (m.heap i).last_sent_value)) [
    | inl e ↦ rw e (ground arith)
    | inr e ↦ rw e refl
  ]
  move-Balances (swapping i v l next) f b = elim (Bool-cases ((m.heap i).last_sent_value == l)) [
    | inl e ↦ rw e (
        balance name k m i (record (m.heap i) { last_sent_value = v }) (sum_of k m.sent) 0
          (counted k (name i) (minus v l)) (sum_of k m.asked) (sum_of k m.asked) b.0
          (taken (beq (name i) k) (m.heap i).current_value v l (m.heap i).last_sent_value
            (sum_of k m.asked) ((==_iff (m.heap i).last_sent_value l).0 e) (fits i).0 f.0
            (fits i).1))
    | inr e ↦ rw e refl
  ]
  move-Balances (latched i d (forward j)) f b =
      ap (λ n. (sum_of k m.sent + owing name k m + counted k n d + sum_of k m.asked) % u64) f
  move-Balances (latched i d visit) f b = elim (Bool-cases (d == 0)) [
    | inl e ↦ rw e (elim (Bool-cases (limit == 0)) [
      | inl z ↦ rw z (ground (arith, e))
      | inr z ↦ rw z (ground (arith, e))
    ])
    | inr e ↦ rw e (omega arith)
  ]
  move-Balances (latched i d prune) f b = elim (Bool-cases (d == 0)) [
    | inl e ↦ rw e (ground (arith, e))
    | inr e ↦ rw e (omega arith)
  ]
  move-Balances (resetting i) f b = even name k m i _ (sum_of k m.sent) (sum_of k m.asked) b refl
  move-Balances (clearing i) f b = even name k m i _ (sum_of k m.sent) (sum_of k m.asked) b refl
  move-Balances (counting i) f b =
      elim (Bool-cases (ltb (((m.heap i).idle_flushes + 1) % u32) limit)) [
        | inl e ↦ rw e (even name k m i _ (sum_of k m.sent) (sum_of k m.asked) b refl)
        | inr e ↦ rw e (even name k m i _ (sum_of k m.sent) (sum_of k m.asked) b refl)
      ]
  move-Balances (deleting i) f b = refl
  move-Balances (marking i) f b = even name k m i _ (sum_of k m.sent) (sum_of k m.asked) b refl
  move-Balances (renewing i) f b = even name k m i _ (sum_of k m.sent) (sum_of k m.asked) b refl
