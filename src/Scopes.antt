-- ===== src/Scopes.antt =====
-- The names that stats.go registers statistics under: reserved tags, the constructors of `statStore` that
-- take tags, and the sub-scopes.
pub mod Reserved
pub mod Nested
pub mod StoreMethods
pub mod ScopeMethods
pub mod PerInstance
pub mod Interface
use gostats.Prelude.{
  ℕ, ◌==◌, Bool, true, false, ◌||◌, Option, none, some, List, [], ◌∷◌, ◌++◌, if◌then◌else◌, length,
  Run, ret, panic, ◌>>=◌,
}
use gostats.Bytes.{Bytes, beq, codes}
use gostats.Tags.{TagMap, TagSet}
use gostats.Tags.Build.{new_tag_set, get}
use gostats.Tags.Merge.{merge_tags, merge_per_instance_tags, instance_key}
use gostats.Tags.Serialize.{serialize, serialize_tags}
use gostats.Store.{Store}
use gostats.Store.Counters.{inc}
use gostats.Store.Registry.{new_counter, new_gauge, new_timer}

abbrev pub reserved_tag_words : List Bytes
reserved_tag_words =
    codes "asg"
    ∷ codes "az"
    ∷ codes "backend"
    ∷ codes "canary"
    ∷ codes "host"
    ∷ codes "period"
    ∷ codes "region"
    ∷ codes "shard"
    ∷ codes "window"
    ∷ codes "source"
    ∷ codes "project"
    ∷ codes "facet"
    ∷ codes "envoyservice"
    ∷ []

-- `_, ok := ReservedTagWords[k]`
unfoldable pub is_reserved : List Bytes → Bytes → Bool
is_reserved [] k = false
is_reserved (w ∷ words) k = beq w k || is_reserved words k

abbrev pub reserved_tag : Bytes
reserved_tag = codes "reserved_tag"

-- `emptyPerInstanceTags`
abbrev pub empty_per_instance_tags : TagMap
empty_per_instance_tags = (instance_key, codes "i") ∷ []

-- `time.Microsecond` and `time.Millisecond`, in nanoseconds.
abbrev pub microsecond : ℕ
microsecond = 1000

abbrev pub millisecond : ℕ
millisecond = 1000000

abbrev pub has_key : Bytes → TagMap → Bool
has_key k m = elim (get k m) [ none ↦ false | some v ↦ true ]

-- The constructors differ in the kind of statistic they make; `create` is `newCounter`, `newGauge` or
-- `newTimer` with its base.
abbrev pub Create : Type 0 → Type 0
Create F = Bytes → Store F → ℕ × Store F

module _ {F : Type 0} where
  abbrev pub counter_kind : Create F
  counter_kind = new_counter

  abbrev pub gauge_kind : Create F
  gauge_kind = new_gauge

  abbrev pub timer_kind : ℕ → Create F
  timer_kind base name s = new_timer name base s

  unfoldable pub validate_tags : TagMap → Store F → Run (Store F)
  validate_tags [] s = ret s
  validate_tags ((k, v) ∷ tags) s = do
    s' ←
        if is_reserved reserved_tag_words k
        then inc (new_counter reserved_tag s).0 (new_counter reserved_tag s).1
        else ret s
    validate_tags tags s'

  -- `newCounterWithTagSet` and its likes.
  unfoldable pub with_tag_set : Create F → Bytes → TagSet → Store F → ℕ × Store F
  with_tag_set create name tags s = create (serialize tags name) s

  -- `NewCounterWithTags` and its likes.
  unfoldable pub with_tags : Create F → Bytes → TagMap → Store F → Run (ℕ × Store F)
  unfolding validate_tags
  with_tags create name tags s = do
    s' ← validate_tags tags s
    ret (create (serialize_tags name tags) s')

  -- `NewPerInstanceCounter` and its likes.
  unfoldable pub per_instance : Create F → Bytes → TagMap → Store F → Run (ℕ × Store F)
  unfolding with_tags with_tag_set
  per_instance create name tags s =
      if length tags == 0
      then with_tags create name empty_per_instance_tags s
      else if has_key instance_key tags
      then with_tags create name tags s
      else (do
        s' ← validate_tags tags s
        set ← merge_per_instance_tags [] tags
        ret (with_tag_set create name set s'))

-- `joinScopes`
unfoldable pub join_scopes : Bytes → Bytes → Bytes
join_scopes parent child = parent ++ codes "." ++ child

-- A sub-scope, apart from its `registry`: all scopes of a store have the same one.
pub record SubScope : Type 0 where
  pub name : Bytes
  pub tags : TagSet

unfoldable pub new_sub_scope : Bytes → TagMap → Run SubScope
new_sub_scope name tags = do set ← new_tag_set tags; ret (record { name = name; tags = set })

-- The scope that `ScopeWithTags` of a sub-scope returns.
unfoldable pub sub_scope : SubScope → Bytes → TagMap → Run SubScope
unfolding join_scopes
sub_scope scope name tags = do
  set ← merge_tags scope.tags tags
  ret (record { name = join_scopes scope.name name; tags = set })

module _ {F : Type 0} where
  -- `statStore.ScopeWithTags`; without tags there is nothing to validate, and it is `Scope`.
  unfoldable pub store_scope_with_tags : Bytes → TagMap → Store F → Run (SubScope × Store F)
  unfolding validate_tags new_sub_scope
  store_scope_with_tags name tags s = do
    s' ← validate_tags tags s
    scope ← new_sub_scope name tags
    ret (scope, s')

  -- `subScope.ScopeWithTags`; without tags it is `Scope`.
  unfoldable pub scope_with_tags : SubScope → Bytes → TagMap → Store F → Run (SubScope × Store F)
  unfolding validate_tags sub_scope
  scope_with_tags scope name tags s = do
    s' ← validate_tags tags s
    child ← sub_scope scope name tags
    ret (child, s')

  -- `NewCounterWithTags` of a sub-scope and its likes, which validate no tags; without tags they are
  -- `NewCounter` and its likes.
  unfoldable pub scoped_with_tags :
      Create F → SubScope → Bytes → TagMap → Store F → Run (ℕ × Store F)
  unfolding with_tag_set join_scopes
  scoped_with_tags create scope name tags s = do
    set ← merge_tags scope.tags tags
    ret (with_tag_set create (join_scopes scope.name name) set s)

  -- `NewPerInstanceCounter` of a sub-scope and its likes.
  unfoldable pub scoped_per_instance :
      Create F → SubScope → Bytes → TagMap → Store F → Run (ℕ × Store F)
  unfolding with_tag_set join_scopes
  scoped_per_instance create scope name tags s = do
    set ← merge_per_instance_tags scope.tags tags
    ret (with_tag_set create (join_scopes scope.name name) set s)

  -- `NewPerInstanceMilliTimer` of a sub-scope, the only one of them that validates its tags.
  unfoldable pub scoped_per_instance_milli_timer :
      SubScope → Bytes → TagMap → Store F → Run (ℕ × Store F)
  unfolding validate_tags scoped_per_instance
  scoped_per_instance_milli_timer scope name tags s = do
    s' ← validate_tags tags s
    scoped_per_instance (timer_kind millisecond) scope name tags s'
