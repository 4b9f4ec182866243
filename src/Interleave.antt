-- ===== src/Interleave.antt =====
-- The counters of stats.go under interleaving: one `Flush` at a time, as `flushMu` has it, and any number of
-- writers, one atomic operation after the other. Counter `i` is created under `name i`, whatever names the
-- program asks for, in whatever order: that is its key in the map, and the `name` that `rejoin` reads.
pub mod Schedule
pub mod Family
pub mod Places
pub mod Attached
pub mod Invariant
pub mod Ledger
pub mod Conserve
pub mod Alone
pub mod Unpruned
pub mod Drained
use gostats.Prelude.{
  ℕ, zero, suc, ◌+◌, ◌-◌, ◌%◌, ◌<◌, ◌≡◌, ◌==◌, ltb, Bool, true, false, Option, none, some, List, [],
  ◌∷◌, ◌++◌, if◌then◌else◌,
}
use gostats.Bytes.{Bytes, beq}
use gostats.Store.{u64, u32, Counter}
use gostats.Store.Counters.{add_value, must_rejoin}
use gostats.Store.Registry.{fresh_counter}

-- What follows a `latch`: `other.Add` of `rejoin`, or one of the two places of `Flush`.
pub data Then : Type 0 where
  forward : ℕ → Then
  visit : Then
  prune : Then

-- Where a thread stands, before its next atomic operation, with the local variables that are live there.
pub data Pc : Type 0 where
  idle : Pc
  -- `Add` and `Set`, from their callers
  adding : ℕ → ℕ → Pc
  storing : ℕ → ℕ → Pc
  -- `other.Add` in `rejoin`
  forwarding : ℕ → ℕ → Pc
  -- `maybeRejoin` and `rejoin`
  added : ℕ → Pc
  joining : ℕ → Pc
  -- `latch`: before `Value`, before the load of `lastSentValue`, before the swap, and at its return
  reading : ℕ → Then → Pc
  read_value : ℕ → ℕ → Then → Pc
  swapping : ℕ → ℕ → ℕ → Then → Pc
  latched : ℕ → ℕ → Then → Pc
  -- the counters' callback of `Flush`
  resetting : ℕ → Pc
  clearing : ℕ → Pc
  counting : ℕ → Pc
  deleting : ℕ → Pc
  marking : ℕ → Pc
  renewing : ℕ → Pc

pub record Memory : Type 0 where
  -- The counters that exist are those below `count`.
  pub count : ℕ
  pub heap : ℕ → Counter
  -- `counters` of the store
  pub entry : Bytes → Option ℕ
  -- The calls of `FlushCounter`.
  pub sent : List (Bytes × ℕ)
  -- What `Add` and `Set` were asked to count. The program keeps no such list.
  pub asked : List (Bytes × ℕ)

abbrev pub update {ℓ} : {A : Type ℓ} → (ℕ → A) → ℕ → A → ℕ → A
update f i a j = if i == j then a else f j

abbrev pub set_entry : (Bytes → Option ℕ) → Bytes → Option ℕ → Bytes → Option ℕ
set_entry f k o j = if beq k j then o else f j

abbrev pub put : ℕ → Counter → Memory → Memory
put i c m = record m { heap = update m.heap i c }

abbrev pub send : Bytes → ℕ → Memory → Memory
send k d m = record m { sent = (k, d) ∷ m.sent }

abbrev pub ask : Bytes → ℕ → Memory → Memory
ask k d m = record m { asked = (k, d) ∷ m.asked }

-- `a - b` in `uint64`
abbrev pub minus : ℕ → ℕ → ℕ
minus a b = (a + u64 - b) % u64

module _ (name : ℕ → Bytes) (prune_after_flushes : ℕ) where
  -- The next atomic operation of a thread.
  unfoldable pub move : Memory → Pc → Memory × Pc
  move m idle = (m, idle)
  move m (adding i d) = (ask (name i) d (put i (add_value d (m.heap i)) m), added i)
  move m (storing i v) = (
    ask (name i) (minus v (m.heap i).current_value)
        (put i (record (m.heap i) { current_value = v }) m),
    added i,
  )
  move m (forwarding i d) = (put i (add_value d (m.heap i)) m, added i)
  move m (added i) = (m, if must_rejoin (m.heap i) then joining i else idle)
  move m (joining i) = elim (m.entry (name i)) [
    | none ↦ (record m { entry = set_entry m.entry (name i) (some i) }, idle)
    | some j ↦ (m, if j == i then idle else reading i (forward j))
  ]
  move m (reading i k) = (m, read_value i (m.heap i).current_value k)
  move m (read_value i v k) =
      let l = (m.heap i).last_sent_value in (m, if v == l then latched i 0 k else swapping i v l k)
  move m (swapping i v l k) =
      if (m.heap i).last_sent_value == l
      then (put i (record (m.heap i) { last_sent_value = v }) m, latched i (minus v l) k)
      else (m, reading i k)
  move m (latched i d (forward j)) = (m, forwarding j d)
  move m (latched i d visit) =
      if d == 0
      then (m, if prune_after_flushes == 0 then idle else counting i)
      else (send (name i) d m, resetting i)
  move m (latched i d prune) = if d == 0 then (m, idle) else (send (name i) d m, renewing i)
  move m (resetting i) = (put i (record (m.heap i) { idle_flushes = 0 }) m, clearing i)
  move m (clearing i) = (put i (record (m.heap i) { detached = false }) m, idle)
  move m (counting i) =
      let n = ((m.heap i).idle_flushes + 1) % u32 in
      (
        put i (record (m.heap i) { idle_flushes = n }) m,
        if ltb n prune_after_flushes then idle else deleting i,
      )
  move m (deleting i) = (record m { entry = set_entry m.entry (name i) none }, marking i)
  move m (marking i) = (put i (record (m.heap i) { detached = true }) m, reading i prune)
  move m (renewing i) = (put i (record (m.heap i) { idle_flushes = 0 }) m, joining i)

  pub record System : Type 0 where
    pub mem : Memory
    -- Thread 0 runs `Flush`, again and again; the others are writers.
    pub pc : ℕ → Pc

  abbrev pub fresh : ℕ → Counter
  fresh i = fresh_counter prune_after_flushes (name i)

  abbrev pub create : Memory → Memory
  create m = record m {
    count = suc m.count;
    heap = update m.heap m.count (fresh m.count);
    entry = set_entry m.entry (name m.count) (some m.count);
  }

  -- One step of `threads` threads. A writer calls a method of any counter; `Flush` visits any entry that is
  -- in the map, in any order and as often as it likes.
  pub data Step (threads : ℕ) (s : System) : System → Type 0 where
    run :
        (t : ℕ)
        → t < threads
        → Step threads s
            (record { mem = (move s.mem (s.pc t)).0; pc = update s.pc t (move s.mem (s.pc t)).1 })
    call_add :
        (t i d : ℕ)
        → t < threads
        → s.pc t ≡ idle
        → i < s.mem.count
        → d < u64
        → Step threads s (record s { pc = update s.pc t (adding i d) })
    call_set :
        (t i v : ℕ)
        → t < threads
        → s.pc t ≡ idle
        → i < s.mem.count
        → v < u64
        → Step threads s (record s { pc = update s.pc t (storing i v) })
    visit_entry :
        (i : ℕ) (k : Bytes)
        → 0 < threads
        → s.pc 0 ≡ idle
        → s.mem.entry k ≡ some i
        → Step threads s (record s { pc = update s.pc 0 (reading i visit) })
    create_counter :
        s.mem.entry (name s.mem.count) ≡ none → Step threads s (record s { mem = create s.mem })

  abbrev pub init : System
  init = record {
    mem = record { count = 0; heap = fresh; entry = λ k. none; sent = []; asked = [] };
    pc = λ t. idle;
  }

  pub data Reach (threads : ℕ) : System → Type 0 where
    start : Reach threads init
    later : {s t : System} → Reach threads s → Step threads s t → Reach threads t
