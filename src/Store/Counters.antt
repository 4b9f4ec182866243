-- ===== src/Store/Counters.antt =====
-- The methods of `counter` in stats.go, each as one atomic action.
use gostats.Prelude.{
  ℕ, zero, suc, ◌+◌, ◌-◌, ◌%◌, Bool, true, false, ◌&&◌, none, some, ◌==◌, if◌then◌else◌, get_elem?,
  set, Run, ret, panic, ◌>>=◌,
}
use gostats.Names.{lookup, add_entry}
use gostats.Store.{u64, Counter, Store}

-- What the counter has counted since it was last sent: `value - lastSent` in `uint64`.
abbrev pub pending : Counter → ℕ
pending c = (c.current_value + u64 - c.last_sent_value) % u64

-- `latch`: nothing else runs between its reads and its swap, so the loop makes one round.
unfoldable pub latch : Counter → ℕ × Counter
latch c =
    if c.current_value == c.last_sent_value
    then (0, c)
    else (pending c, record c { last_sent_value = c.current_value })

-- `atomic.AddUint64(&c.currentValue, delta)`
abbrev pub add_value : ℕ → Counter → Counter
add_value delta c = record c { current_value = (c.current_value + delta) % u64 }

-- The test of `maybeRejoin`.
abbrev pub must_rejoin : Counter → Bool
must_rejoin c = c.has_store && c.detached

-- A counter's `Add` that folds into another counter calls `maybeRejoin` there: two rounds are enough,
-- since the counter that has the name finds itself.
abbrev pub rejoin_fuel : ℕ
rejoin_fuel = 2

module _ {F : Type 0} where
  -- The counter that a pointer points to, and a write through it.
  abbrev pub read : ℕ → Store F → Run Counter
  read i s = elim (get_elem? s.counter_heap i) [ none ↦ panic | some c ↦ ret c ]

  abbrev pub write : ℕ → Counter → Store F → Store F
  write i c s = record s { counter_heap = set s.counter_heap i c }

  -- `rejoin` of the counter at `i`. Where another counter has the name, what is pending goes to that
  -- counter by its `Add`.
  unfoldable pub rejoin : ℕ → ℕ → Store F → Run (Store F)
  unfolding latch
  rejoin zero i s = panic
  rejoin (suc fuel) i s = do
    c ← read i s
    elim (lookup c.name s.counters) [
      | none ↦ ret (record s { counters = add_entry c.name i s.counters })
      | some j ↦ elim (j == i) [
        | true ↦ ret s
        | false ↦ do
          other ← read j (write i (latch c).1 s)
          let s' = write j (add_value (latch c).0 other) (write i (latch c).1 s)
          elim (must_rejoin other) [ true ↦ rejoin fuel j s' | false ↦ ret s' ]
      ]
    ]

  unfoldable pub maybe_rejoin : ℕ → Store F → Run (Store F)
  unfolding rejoin
  maybe_rejoin i s = do c ← read i s; if must_rejoin c then rejoin rejoin_fuel i s else ret s

  unfoldable pub add : ℕ → ℕ → Store F → Run (Store F)
  unfolding maybe_rejoin
  add i delta s = do c ← read i s; maybe_rejoin i (write i (add_value delta c) s)

  unfoldable pub inc : ℕ → Store F → Run (Store F)
  unfolding add
  inc i s = add i 1 s

  unfoldable pub set_value : ℕ → ℕ → Store F → Run (Store F)
  unfolding maybe_rejoin
  set_value i value s = do
    c ← read i s
    maybe_rejoin i (write i (record c { current_value = value }) s)
