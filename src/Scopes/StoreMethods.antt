-- ===== src/Scopes/StoreMethods.antt =====
-- The constructors of `statStore` in stats.go, one for each kind of statistic and each form of its tags.
use gostats.Prelude.{ℕ, Run}
use gostats.Bytes.{Bytes}
use gostats.Tags.{TagMap}
use gostats.Store.{Store}
use gostats.Scopes.{
  microsecond, millisecond, counter_kind, gauge_kind, timer_kind, with_tags, per_instance,
}

-- A name and tags, and the store; the result is the statistic's index and the store after it.
abbrev pub Method : Type 0 → Type 0
Method F = Bytes → TagMap → Store F → Run (ℕ × Store F)

module _ {F : Type 0} where
  abbrev pub new_milli_timer : Bytes → Store F → ℕ × Store F
  new_milli_timer = timer_kind millisecond

  abbrev pub new_micro_timer : Bytes → Store F → ℕ × Store F
  new_micro_timer = timer_kind microsecond

  abbrev pub new_counter_with_tags : Method F
  new_counter_with_tags = with_tags counter_kind

  abbrev pub new_gauge_with_tags : Method F
  new_gauge_with_tags = with_tags gauge_kind

  abbrev pub new_timer_with_tags : Method F
  new_timer_with_tags = with_tags (timer_kind microsecond)

  abbrev pub new_milli_timer_with_tags : Method F
  new_milli_timer_with_tags = with_tags (timer_kind millisecond)

  abbrev pub new_per_instance_counter : Method F
  new_per_instance_counter = per_instance counter_kind

  abbrev pub new_per_instance_gauge : Method F
  new_per_instance_gauge = per_instance gauge_kind

  abbrev pub new_per_instance_timer : Method F
  new_per_instance_timer = per_instance (timer_kind microsecond)

  abbrev pub new_per_instance_milli_timer : Method F
  new_per_instance_milli_timer = per_instance (timer_kind millisecond)
