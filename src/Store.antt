-- ===== src/Store.antt =====
-- The data of stats.go: counters, gauges and timers as objects on a heap, the three maps that name them,
-- and the calls that the sink has received. A pointer is the index of an object in its heap.
pub mod Counters
pub mod Registry
pub mod Flush
pub mod Labels
pub mod Rejoin
pub mod Writes
pub mod Fresh
pub mod Gauges
pub mod Spans
pub mod Keeps
use gostats.Prelude.{ℕ, Bool, List, ◌+◌, ◌-◌, ◌%◌, ◌^◌}
use gostats.Bytes.{Bytes}

-- `uint64` and `uint32` wrap around.
abbrev pub u64 : ℕ
u64 = 2 ^ 64

abbrev pub u32 : ℕ
u32 = 2 ^ 32

pub record Counter : Type 0 where
  pub current_value : ℕ
  pub last_sent_value : ℕ
  pub idle_flushes : ℕ
  pub detached : Bool
  -- `store != nil`
  pub has_store : Bool
  pub name : Bytes

pub record Timer : Type 0 where
  pub base : ℕ
  pub name : Bytes
  pub active : Bool
  pub idle_flushes : ℕ

-- A call of the sink; `F` is the type `float64`.
pub data Call (F : Type 0) : Type 0 where
  flush_counter : Bytes → ℕ → Call F
  flush_gauge : Bytes → ℕ → Call F
  flush_timer : Bytes → F → Call F
  flush_all : Call F

pub record Store (F : Type 0) : Type 0 where
  pub counter_heap : List Counter
  pub counters : List (Bytes × ℕ)
  pub gauge_heap : List ℕ
  pub gauges : List (Bytes × ℕ)
  pub timer_heap : List Timer
  pub timers : List (Bytes × ℕ)
  pub prune_after_flushes : ℕ
  -- whether the sink is a `FlushableSink`
  pub flushable : Bool
  pub calls : List (Call F)
