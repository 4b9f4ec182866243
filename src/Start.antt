-- ===== src/Start.antt =====
-- `NewStore`, `NewDefaultStore`, `AddStatGenerator` and `StartContext` of stats.go, and `FlushInterval` of
-- settings.go.
pub mod Last
use gostats.Prelude.{
  ℕ, zero, suc, ◌+◌, ◌-◌, ◌*◌, ◌%◌, ◌^◌, ltb, Bool, true, false, List, [], ◌∷◌, ◌++◌, Option, none,
  some, if◌then◌else◌, Run, ret, panic, ◌>>=◌,
}
use gostats.Settings.{ℤ, negate, i64, Env, Settings, get_settings, prune_after_flushes_from_env}
use gostats.Store.{u64, Store}
use gostats.Store.Flush.{flush}

-- The sink that `NewDefaultStore` makes.
pub data DefaultSink : Type 0 where
  null_sink : DefaultSink
  logging_sink : DefaultSink
  net_sink : DefaultSink

-- All three have a `Flush`.
unfoldable pub choose_sink : Settings → DefaultSink
choose_sink settings =
    if settings.use_statsd
    then net_sink
    else if settings.logging_sink_disabled
    then null_sink
    else logging_sink

-- The product of two numbers in `int64`, where the second is positive.
unfoldable pub wrap : ℕ → ℤ
wrap n = let r = n % u64 in if ltb r i64 then ℤ.pos r else negate (u64 - r)

unfoldable pub times : ℤ → ℕ → ℤ
unfolding wrap
times (ℤ.pos n) k = wrap (n * k)
times (ℤ.negsuc n) k = wrap (u64 - suc n * k % u64)

-- `time.Second`, in nanoseconds.
abbrev pub second : ℕ
second = 1000000000

unfoldable pub flush_interval : Settings → ℤ
unfolding times
flush_interval settings = times settings.flush_interval_s second

-- The period of the ticker of `NewDefaultStore`.
unfoldable pub default_period : Settings → ℤ
unfolding times
default_period settings =
    if settings.use_statsd then times settings.flush_interval_s second else ℤ.pos (10 * second)

-- What a `select` of `StartContext` chooses.
pub data Event : Type 0 where
  done : Event
  tick : Event

module _ {F : Type 0} where
  -- `flushable` is whether the sink has a `Flush`.
  unfoldable pub new_store : Env → Bool → Store F
  unfolding prune_after_flushes_from_env
  new_store env flushable = record {
    counter_heap = [];
    counters = [];
    gauge_heap = [];
    gauges = [];
    timer_heap = [];
    timers = [];
    prune_after_flushes = prune_after_flushes_from_env env;
    flushable = flushable;
    calls = [];
  }

  -- The store, its sink and the period of its ticker.
  unfoldable pub new_default_store : Env → Run (Store F × DefaultSink × ℤ)
  unfolding get_settings new_store choose_sink default_period
  new_default_store env = do
    settings ← get_settings env
    ret (new_store env true, choose_sink settings, default_period settings)

  -- A generator is what it does to the store.
  unfoldable pub add_stat_generator :
      (Store F → Run (Store F)) → List (Store F → Run (Store F)) → List (Store F → Run (Store F))
  add_stat_generator g generators = generators ++ g ∷ []

  -- The events up to `done`; the loop waits for more where there are none.
  unfoldable pub start_context :
      List (Store F → Run (Store F)) → List Event → Store F → Run (Store F)
  unfolding flush
  start_context generators [] s = ret s
  start_context generators (done ∷ events) s = flush generators s
  start_context generators (tick ∷ events) s = do
    s' ← flush generators s
    start_context generators events s'

  -- `Start`, whose context is never done.
  unfoldable pub start : List (Store F → Run (Store F)) → ℕ → Store F → Run (Store F)
  unfolding flush
  start generators zero s = ret s
  start generators (suc ticks) s = do s' ← flush generators s; start generators ticks s'
