-- ===== src/Start/Last.antt =====
-- The flushes of `StartContext` of stats.go, up to the last one.
use gostats.Prelude.{ℕ, zero, suc, List, [], ◌∷◌}
use gostats.Bytes.{Bytes}
use gostats.Store.{Store}
use gostats.Start.{Event, done, tick}

abbrev pub ticks_then_done : ℕ → List Event
ticks_then_done zero = done ∷ []
ticks_then_done (suc n) = tick ∷ ticks_then_done n
