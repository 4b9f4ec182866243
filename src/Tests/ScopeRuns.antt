-- ===== src/Tests/ScopeRuns.antt =====
-- Runs and instances for the scopes of stats.go and for stat_handler.go.
use gostats.Prelude.{ℕ, ◌≡◌, refl, false, List, [], ◌∷◌, arith, All, Run, ret, panic}
use gostats.Bytes.{Bytes, beq, codes}
use gostats.Tags.{TagMap, TagSet, IsOrdered}
use gostats.Tags.Build.{IsMap, tag_value}
use gostats.Tags.Search.Laws.{find}
use gostats.Tags.Merge.Union.{or_else}
use gostats.Tags.Serialize.{serialize}
use gostats.Store.{Store}
use gostats.Store.Counters.{inc, add}
use gostats.Store.Registry.{new_counter, fresh_counter}
use gostats.Store.Fresh.{IsRegistered}
use gostats.Scopes.{
  with_tag_set, join_scopes, SubScope, is_reserved, counter_kind, per_instance, validate_tags,
  scoped_with_tags,
}
use gostats.Scopes.Reserved.{Validates, validate_tags-Validates}
use gostats.Scopes.PerInstance.{Names, instance_value, per_instance-Names}
use gostats.Scopes.Nested.{descend, innermost, descend-find, scoped_with_tags-Registers}
use gostats.Tests.Distinct.{distinct, distinct_sound}
use gostats.Settings.{ℤ}
use gostats.Scopes.Interface.{Scope, scope_counter}
use gostats.Handler.Responses.{Passed, Response, Sent, Op, itoa, respond}
use gostats.Tags.Merge.{merge_tags}
use gostats.Tests.StoreRuns.{labels, store, store-IsValid}

abbrev tags : TagMap
tags = (codes "zone", codes "x.y") ∷ (codes "host", codes "h") ∷ []

tags-IsMap : IsMap tags
unfolding beq distinct
tags-IsMap k = distinct_sound (λ (e : Bytes × Bytes). e.0) tags k refl

validate_tags-Validates_example : Validates labels 1 store (validate_tags tags store)
unfolding beq is_reserved
validate_tags-Validates_example = validate_tags-Validates tags labels store store-IsValid

abbrev app : SubScope
app = record { name = codes "app"; tags = record { key = codes "a"; value = codes "1" } ∷ [] }

app-IsOrdered : IsOrdered app.tags
app-IsOrdered = (tt, tt)

abbrev inner_calls : List (Bytes × TagMap)
inner_calls = (codes "db", tags) ∷ (codes "pool", []) ∷ []

inner_calls-IsMap : All (λ (c : Bytes × TagMap). IsMap c.1) inner_calls
inner_calls-IsMap = (tags-IsMap, (λ k. omega arith, tt))

descend-find_example :
    (inner : SubScope) × (descend inner_calls app ≡ ret inner)
    × (inner.name ≡ codes "app.db.pool")
    × IsOrdered inner.tags
    × ((k : Bytes) → find k inner.tags ≡ innermost k (find k app.tags) inner_calls)
descend-find_example = descend-find inner_calls app app-IsOrdered inner_calls-IsMap

scoped_with_tags-Registers_example :
    (set : TagSet) × (labels' : List Bytes) × (made : ℕ × Store ℕ) × (scoped_with_tags counter_kind
        app
        (codes "n")
        tags
        store
      ≡ ret made)
    × IsOrdered set
    × ((k : Bytes) → find k set ≡ or_else (tag_value k tags) (find k app.tags))
    × IsRegistered labels (serialize set (codes "app.n")) store store-IsValid labels' made
scoped_with_tags-Registers_example =
    scoped_with_tags-Registers app (codes "n") tags labels store app-IsOrdered tags-IsMap
      store-IsValid

abbrev zone_tags : TagMap
zone_tags = (codes "zone", codes "x.y") ∷ []

zone_tags-IsMap : IsMap zone_tags
unfolding beq distinct
zone_tags-IsMap k = distinct_sound (λ (e : Bytes × Bytes). e.0) zone_tags k refl

zone_tags-validate : validate_tags zone_tags store ≡ ret store
unfolding validate_tags is_reserved beq
zone_tags-validate = refl

per_instance-Names_example :
    Names counter_kind
      (codes "n")
      (λ k. instance_value k zone_tags)
      store
      (per_instance counter_kind (codes "n") zone_tags store)
per_instance-Names_example =
    per_instance-Names counter_kind (codes "n") zone_tags store store zone_tags-IsMap
      zone_tags-validate

abbrev fresh_response : Response ℕ
fresh_response = record { header_written = false; codes = []; store = store; sent = [] }

abbrev ops : List Op
ops =
    Op.write (codes "x")
    ∷ Op.write_header (ℤ.pos 404)
    ∷ Op.pass Passed.flush
    ∷ Op.write (codes "y")
    ∷ []

abbrev sent_of : Run (Response ℕ) → List Sent
sent_of panic = []
sent_of (ret r) = r.sent

respond-ops :
    sent_of (respond (Scope.sub_scope app) ops fresh_response)
    ≡ Sent.header (ℤ.pos 200)
      ∷ Sent.body (codes "x")
      ∷ Sent.passed Passed.flush
      ∷ Sent.body (codes "y")
      ∷ []
unfolding respond scope_counter add beq serialize join_scopes new_counter fresh_counter
    scoped_with_tags with_tag_set merge_tags itoa inc
respond-ops = refl

itoa-codes : itoa (ℤ.pos 404) ≡ codes "404"
unfolding itoa
itoa-codes = refl
