-- ===== src/Scopes/Interface.antt =====
-- The interface `Scope` of stats.go, as its clients use it: the store itself, or a scope that was made of it.
use gostats.Prelude.{ℕ, Run, ret}
use gostats.Bytes.{Bytes}
use gostats.Store.{Store}
use gostats.Store.Registry
use gostats.Scopes.{SubScope, timer_kind, microsecond}
use gostats.Scopes.ScopeMethods

pub data Scope : Type 0 where
  store_scope : Scope
  sub_scope : SubScope → Scope

module _ {F : Type 0} where
  -- `NewCounter`, `NewGauge` and `NewTimer`
  unfoldable pub scope_counter : Scope → Bytes → Store F → Run (ℕ × Store F)
  scope_counter store_scope name s = ret (Registry.new_counter name s)
  scope_counter (sub_scope scope) name s = ScopeMethods.new_counter scope name s

  unfoldable pub scope_gauge : Scope → Bytes → Store F → Run (ℕ × Store F)
  scope_gauge store_scope name s = ret (Registry.new_gauge name s)
  scope_gauge (sub_scope scope) name s = ScopeMethods.new_gauge scope name s

  unfoldable pub scope_timer : Scope → Bytes → Store F → Run (ℕ × Store F)
  scope_timer store_scope name s = ret (timer_kind microsecond name s)
  scope_timer (sub_scope scope) name s = ScopeMethods.new_timer scope name s
