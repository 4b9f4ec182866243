-- ===== src/Scopes/ScopeMethods.antt =====
-- The constructors of `subScope` in stats.go, one for each kind of statistic and each form of its tags.
use gostats.Prelude.{ℕ, [], Run}
use gostats.Bytes.{Bytes}
use gostats.Tags.{TagMap}
use gostats.Store.{Store}
use gostats.Scopes.{
  SubScope, microsecond, millisecond, counter_kind, gauge_kind, timer_kind, scoped_with_tags,
  scoped_per_instance, scoped_per_instance_milli_timer,
}

abbrev pub Method : Type 0 → Type 0
Method F = SubScope → Bytes → TagMap → Store F → Run (ℕ × Store F)

module _ {F : Type 0} where
  abbrev pub new_counter_with_tags : Method F
  new_counter_with_tags = scoped_with_tags counter_kind

  abbrev pub new_counter : SubScope → Bytes → Store F → Run (ℕ × Store F)
  new_counter scope name s = new_counter_with_tags scope name [] s

  abbrev pub new_gauge_with_tags : Method F
  new_gauge_with_tags = scoped_with_tags gauge_kind

  abbrev pub new_gauge : SubScope → Bytes → Store F → Run (ℕ × Store F)
  new_gauge scope name s = new_gauge_with_tags scope name [] s

  abbrev pub new_timer_with_tags : Method F
  new_timer_with_tags = scoped_with_tags (timer_kind microsecond)

  abbrev pub new_timer : SubScope → Bytes → Store F → Run (ℕ × Store F)
  new_timer scope name s = new_timer_with_tags scope name [] s

  abbrev pub new_milli_timer_with_tags : Method F
  new_milli_timer_with_tags = scoped_with_tags (timer_kind millisecond)

  abbrev pub new_milli_timer : SubScope → Bytes → Store F → Run (ℕ × Store F)
  new_milli_timer scope name s = new_milli_timer_with_tags scope name [] s

  abbrev pub new_per_instance_counter : Method F
  new_per_instance_counter = scoped_per_instance counter_kind

  abbrev pub new_per_instance_gauge : Method F
  new_per_instance_gauge = scoped_per_instance gauge_kind

  abbrev pub new_per_instance_timer : Method F
  new_per_instance_timer = scoped_per_instance (timer_kind microsecond)

  abbrev pub new_per_instance_milli_timer : Method F
  new_per_instance_milli_timer = scoped_per_instance_milli_timer
