-- ===== src/Interleave/Places.antt =====
-- The places of the threads: which are those of `Flush`, which counter they are at, and that it exists.
use gostats.Prelude.{
  ℕ, suc, ◌+◌, ◌%◌, ◌<◌, ◌≡◌, refl, ◌==◌, ltb, Bool, true, false, Bool-cases, Option-cases, Option,
  none, some, inl, inr, arith,
}
use gostats.Bytes.{Bytes}
use gostats.Store.Counters.{must_rejoin}
use gostats.Store.{u32}
use gostats.Interleave.{
  Then, forward, visit, prune, Pc, idle, adding, storing, forwarding, added, joining, reading,
  read_value, swapping, latched, resetting, clearing, counting, deleting, marking, renewing, Memory,
  move,
}

abbrev pub flush_then : Then → Bool
flush_then (forward j) = false
flush_then visit = true
flush_then prune = true

-- The places that only `Flush` reaches.
abbrev pub flush_only : Pc → Bool
flush_only idle = false
flush_only (adding i d) = false
flush_only (storing i v) = false
flush_only (forwarding i d) = false
flush_only (added i) = false
flush_only (joining i) = false
flush_only (reading i k) = flush_then k
flush_only (read_value i v k) = flush_then k
flush_only (swapping i v l k) = flush_then k
flush_only (latched i d k) = flush_then k
flush_only p = true

abbrev pub visited_then : ℕ → Then → Option ℕ
visited_then i (forward j) = none
visited_then i visit = some i
visited_then i prune = none

-- The counter that `Flush` visits, from the choice of its entry to its deletion.
abbrev pub visited : Pc → Option ℕ
visited (reading i k) = visited_then i k
visited (read_value i v k) = visited_then i k
visited (swapping i v l k) = visited_then i k
visited (latched i d k) = visited_then i k
visited (resetting i) = some i
visited (clearing i) = some i
visited (counting i) = some i
visited (deleting i) = some i
visited p = none

abbrev pub BelowThen : ℕ → Then → Type 0
BelowThen n (forward j) = j < n
BelowThen n visit = Unit
BelowThen n prune = Unit

-- The counters of a place exist.
abbrev pub IsBelow : ℕ → Pc → Type 0
IsBelow n idle = Unit
IsBelow n (adding i d) = i < n
IsBelow n (storing i v) = i < n
IsBelow n (forwarding i d) = i < n
IsBelow n (added i) = i < n
IsBelow n (joining i) = i < n
IsBelow n (reading i k) = (i < n) × BelowThen n k
IsBelow n (read_value i v k) = (i < n) × BelowThen n k
IsBelow n (swapping i v l k) = (i < n) × BelowThen n k
IsBelow n (latched i d k) = (i < n) × BelowThen n k
IsBelow n (resetting i) = i < n
IsBelow n (clearing i) = i < n
IsBelow n (counting i) = i < n
IsBelow n (deleting i) = i < n
IsBelow n (marking i) = i < n
IsBelow n (renewing i) = i < n

-- A writer stays outside of `Flush`.
pub flush_only-move :
    (name : ℕ → Bytes) (limit : ℕ) (m : Memory) (p : Pc)
    → flush_only p ≡ false
    → flush_only (move name limit m p).1 ≡ false
unfolding move
flush_only-move name limit m idle f = refl
flush_only-move name limit m (adding i d) f = refl
flush_only-move name limit m (storing i v) f = refl
flush_only-move name limit m (forwarding i d) f = refl
flush_only-move name limit m (added i) f = elim (Bool-cases (must_rejoin (m.heap i))) [
  | inl e ↦ rw e refl
  | inr e ↦ rw e refl
]
flush_only-move name limit m (joining i) f = elim (Option-cases (m.entry (name i))) [
  | inl e ↦ rw (e, move) refl
  | inr (j, e) ↦ rw (e, move) (elim (Bool-cases (j == i)) [ inl g ↦ rw g refl | inr g ↦ rw g refl ])
]
flush_only-move name limit m (reading i k) f = f
flush_only-move name limit m (read_value i v k) f =
    elim (Bool-cases (v == (m.heap i).last_sent_value)) [ inl e ↦ rw e f | inr e ↦ rw e f ]
flush_only-move name limit m (swapping i v l k) f =
    elim (Bool-cases ((m.heap i).last_sent_value == l)) [ inl e ↦ rw e f | inr e ↦ rw e f ]
flush_only-move name limit m (latched i d (forward j)) f = refl
flush_only-move name limit m (latched i d visit) f = absurd (cc)
flush_only-move name limit m (latched i d prune) f = absurd (cc)
flush_only-move name limit m (resetting i) f = absurd (cc)
flush_only-move name limit m (clearing i) f = absurd (cc)
flush_only-move name limit m (counting i) f = absurd (cc)
flush_only-move name limit m (deleting i) f = absurd (cc)
flush_only-move name limit m (marking i) f = absurd (cc)
flush_only-move name limit m (renewing i) f = absurd (cc)

-- No step makes a counter.
pub move-count :
    (name : ℕ → Bytes) (limit : ℕ) (m : Memory) (p : Pc) → (move name limit m p).0.count ≡ m.count
unfolding move
move-count name limit m idle = refl
move-count name limit m (adding i d) = refl
move-count name limit m (storing i v) = refl
move-count name limit m (forwarding i d) = refl
move-count name limit m (added i) = refl
move-count name limit m (joining i) = elim (Option-cases (m.entry (name i))) [
  | inl e ↦ rw (e, move) refl
  | inr (j, e) ↦ rw (e, move) refl
]
move-count name limit m (reading i k) = refl
move-count name limit m (read_value i v k) = refl
move-count name limit m (swapping i v l k) = elim (Bool-cases ((m.heap i).last_sent_value == l)) [
  | inl e ↦ rw e refl
  | inr e ↦ rw e refl
]
move-count name limit m (latched i d (forward j)) = refl
move-count name limit m (latched i d visit) = elim (Bool-cases (d == 0)) [
  | inl e ↦ rw e refl
  | inr e ↦ rw e refl
]
move-count name limit m (latched i d prune) = elim (Bool-cases (d == 0)) [
  | inl e ↦ rw e refl
  | inr e ↦ rw e refl
]
move-count name limit m (resetting i) = refl
move-count name limit m (clearing i) = refl
move-count name limit m (counting i) = refl
move-count name limit m (deleting i) = refl
move-count name limit m (marking i) = refl
move-count name limit m (renewing i) = refl

-- A step goes from counters that exist to counters that exist.
pub IsBelow-move :
    (name : ℕ → Bytes) (limit : ℕ) (m : Memory) (p : Pc)
    → ((k : Bytes) (j : ℕ) → m.entry k ≡ some j → j < m.count)
    → IsBelow m.count p
    → IsBelow m.count (move name limit m p).1
unfolding move
IsBelow-move name limit m idle known b = b
IsBelow-move name limit m (adding i d) known b = b
IsBelow-move name limit m (storing i v) known b = b
IsBelow-move name limit m (forwarding i d) known b = b
IsBelow-move name limit m (added i) known b = elim (Bool-cases (must_rejoin (m.heap i))) [
  | inl e ↦ rw e b
  | inr e ↦ rw e tt
]
IsBelow-move name limit m (joining i) known b = elim (Option-cases (m.entry (name i))) [
  | inl e ↦ rw (e, move) tt
  | inr (j, e) ↦
      rw (e, move)
        (elim (Bool-cases (j == i)) [ inl g ↦ rw g tt | inr g ↦ rw g (b, known (name i) j e) ])
]
IsBelow-move name limit m (reading i k) known b = b
IsBelow-move name limit m (read_value i v k) known b =
    elim (Bool-cases (v == (m.heap i).last_sent_value)) [ inl e ↦ rw e b | inr e ↦ rw e b ]
IsBelow-move name limit m (swapping i v l k) known b =
    elim (Bool-cases ((m.heap i).last_sent_value == l)) [ inl e ↦ rw e b | inr e ↦ rw e b ]
IsBelow-move name limit m (latched i d (forward j)) known b = b.1
IsBelow-move name limit m (latched i d visit) known b = elim (Bool-cases (d == 0)) [
  | inl e ↦ rw e (elim (Bool-cases (limit == 0)) [ inl z ↦ rw z tt | inr z ↦ rw z b.0 ])
  | inr e ↦ rw e b.0
]
IsBelow-move name limit m (latched i d prune) known b = elim (Bool-cases (d == 0)) [
  | inl e ↦ rw e tt
  | inr e ↦ rw e b.0
]
IsBelow-move name limit m (resetting i) known b = b
IsBelow-move name limit m (clearing i) known b = tt
IsBelow-move name limit m (counting i) known b =
    elim (Bool-cases (ltb (((m.heap i).idle_flushes + 1) % u32) limit)) [
      | inl e ↦ rw e tt
      | inr e ↦ rw e b
    ]
IsBelow-move name limit m (deleting i) known b = b
IsBelow-move name limit m (marking i) known b = (b, tt)
IsBelow-move name limit m (renewing i) known b = b

BelowThen-suc : (n : ℕ) (k : Then) → BelowThen n k → BelowThen (suc n) k
BelowThen-suc n (forward j) b = omega arith
BelowThen-suc n visit b = tt
BelowThen-suc n prune b = tt

-- A new counter leaves the others where they are.
pub IsBelow-suc : (n : ℕ) (p : Pc) → IsBelow n p → IsBelow (suc n) p
IsBelow-suc n idle b = tt
IsBelow-suc n (adding i d) b = omega arith
IsBelow-suc n (storing i v) b = omega arith
IsBelow-suc n (forwarding i d) b = omega arith
IsBelow-suc n (added i) b = omega arith
IsBelow-suc n (joining i) b = omega arith
IsBelow-suc n (reading i k) b = (let c = b.0 in omega arith, BelowThen-suc n k b.1)
IsBelow-suc n (read_value i v k) b = (let c = b.0 in omega arith, BelowThen-suc n k b.1)
IsBelow-suc n (swapping i v l k) b = (let c = b.0 in omega arith, BelowThen-suc n k b.1)
IsBelow-suc n (latched i d k) b = (let c = b.0 in omega arith, BelowThen-suc n k b.1)
IsBelow-suc n (resetting i) b = omega arith
IsBelow-suc n (clearing i) b = omega arith
IsBelow-suc n (counting i) b = omega arith
IsBelow-suc n (deleting i) b = omega arith
IsBelow-suc n (marking i) b = omega arith
IsBelow-suc n (renewing i) b = omega arith
