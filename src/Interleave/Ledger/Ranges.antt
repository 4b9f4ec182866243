-- ===== src/Interleave/Ledger/Ranges.antt =====
-- The numbers of the counters and of the threads stay numbers of 64 bits, and the names stay the same.
use gostats.Prelude.{
  ℕ, ◌+◌, ◌%◌, ◌<◌, ◌≡◌, ◌==◌, ltb, Bool-cases, Option-cases, some, inl, inr, arith,
}
use gostats.Bytes.{Bytes}
use gostats.Store.Counters.{must_rejoin}
use gostats.Store.{u32, u64, Counter}
use gostats.Interleave.{
  forward, visit, prune, Pc, idle, adding, storing, forwarding, added, joining, reading, read_value,
  swapping, latched, resetting, clearing, counting, deleting, marking, renewing, Memory, update,
  move,
}
use gostats.Interleave.Ledger.{Fits, HeapFits}

-- A write of numbers of 64 bits.
pub HeapFits-update :
    (heap : ℕ → Counter) (i : ℕ) (c : Counter)
    → c.current_value < u64
    → c.last_sent_value < u64
    → HeapFits heap
    → HeapFits (update heap i c)
HeapFits-update heap i c hc hl fits j = elim (Bool-cases (i == j)) [
  | inl e ↦ rw e (hc, hl)
  | inr e ↦ rw e (fits j)
]

module _ (name : ℕ → Bytes) (limit : ℕ) (m : Memory) (fits : HeapFits m.heap) where
  pub HeapFits-move : (p : Pc) → Fits name p → HeapFits (move name limit m p).0.heap
  unfolding move
  HeapFits-move idle f = fits
  HeapFits-move (adding i d) f = HeapFits-update m.heap i _ (omega arith) (fits i).1 fits
  HeapFits-move (storing i v) f = HeapFits-update m.heap i _ f (fits i).1 fits
  HeapFits-move (forwarding i d) f = HeapFits-update m.heap i _ (omega arith) (fits i).1 fits
  HeapFits-move (added i) f = fits
  HeapFits-move (joining i) f = elim (Option-cases (m.entry (name i))) [
    | inl e ↦ rw (e, move) fits
    | inr (j, e) ↦ rw (e, move) fits
  ]
  HeapFits-move (reading i k) f = fits
  HeapFits-move (read_value i v k) f = fits
  HeapFits-move (swapping i v l k) f = elim (Bool-cases ((m.heap i).last_sent_value == l)) [
    | inl e ↦ rw e (HeapFits-update m.heap i _ (fits i).0 f.0 fits)
    | inr e ↦ rw e fits
  ]
  HeapFits-move (latched i d (forward j)) f = fits
  HeapFits-move (latched i d visit) f = elim (Bool-cases (d == 0)) [
    | inl e ↦ rw e fits
    | inr e ↦ rw e fits
  ]
  HeapFits-move (latched i d prune) f = elim (Bool-cases (d == 0)) [
    | inl e ↦ rw e fits
    | inr e ↦ rw e fits
  ]
  HeapFits-move (resetting i) f = HeapFits-update m.heap i _ (fits i).0 (fits i).1 fits
  HeapFits-move (clearing i) f = HeapFits-update m.heap i _ (fits i).0 (fits i).1 fits
  HeapFits-move (counting i) f = HeapFits-update m.heap i _ (fits i).0 (fits i).1 fits
  HeapFits-move (deleting i) f = fits
  HeapFits-move (marking i) f = HeapFits-update m.heap i _ (fits i).0 (fits i).1 fits
  HeapFits-move (renewing i) f = HeapFits-update m.heap i _ (fits i).0 (fits i).1 fits

  pub Fits-move :
      (p : Pc)
      → ((k : Bytes) (j : ℕ) → m.entry k ≡ some j → name j ≡ k)
      → Fits name p
      → Fits name (move name limit m p).1
  unfolding move
  Fits-move idle known f = tt
  Fits-move (adding i d) known f = tt
  Fits-move (storing i v) known f = tt
  Fits-move (forwarding i d) known f = tt
  Fits-move (added i) known f = elim (Bool-cases (must_rejoin (m.heap i))) [
    | inl e ↦ rw e tt
    | inr e ↦ rw e tt
  ]
  Fits-move (joining i) known f = elim (Option-cases (m.entry (name i))) [
    | inl e ↦ rw (e, move) tt
    | inr (j, e) ↦
        rw (e, move)
          (elim (Bool-cases (j == i)) [ inl g ↦ rw g tt | inr g ↦ rw g (known (name i) j e) ])
  ]
  Fits-move (reading i k) known f = ((fits i).0, f)
  Fits-move (read_value i v k) known f = elim (Bool-cases (v == (m.heap i).last_sent_value)) [
    | inl e ↦ rw e f.1
    | inr e ↦ rw e f
  ]
  Fits-move (swapping i v l k) known f = elim (Bool-cases ((m.heap i).last_sent_value == l)) [
    | inl e ↦ rw e f.1
    | inr e ↦ rw e f.1
  ]
  Fits-move (latched i d (forward j)) known f = tt
  Fits-move (latched i d visit) known f = elim (Bool-cases (d == 0)) [
    | inl e ↦ rw e (elim (Bool-cases (limit == 0)) [ inl z ↦ rw z tt | inr z ↦ rw z tt ])
    | inr e ↦ rw e tt
  ]
  Fits-move (latched i d prune) known f = elim (Bool-cases (d == 0)) [
    | inl e ↦ rw e tt
    | inr e ↦ rw e tt
  ]
  Fits-move (resetting i) known f = tt
  Fits-move (clearing i) known f = tt
  Fits-move (counting i) known f =
      elim (Bool-cases (ltb (((m.heap i).idle_flushes + 1) % u32) limit)) [
        | inl e ↦ rw e tt
        | inr e ↦ rw e tt
      ]
  Fits-move (deleting i) known f = tt
  Fits-move (marking i) known f = tt
  Fits-move (renewing i) known f = tt
