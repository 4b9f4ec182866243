-- ===== src/Scopes/Nested.antt =====
-- Scopes within scopes: their names and tags, and what is registered in them.
use gostats.Prelude.{ℕ, ◌≡◌, refl, ◌∙◌, ap, Option, List, [], ◌∷◌, ◌++◌, All, Run, ret, ◌>>=◌}
use gostats.Bytes.{Bytes, codes}
use gostats.Tags.{TagMap, TagSet, IsOrdered}
use gostats.Tags.Build.{IsMap, tag_value}
use gostats.Tags.Search.Laws.{find}
use gostats.Tags.Merge.Union.{or_else}
use gostats.Tags.Merge.Laws.{merge_tags-find}
use gostats.Tags.Merge.PerInstance.{default_value, merge_per_instance_tags-find}
use gostats.Tags.Serialize.{serialize}
use gostats.Store.{Store}
use gostats.Store.Registry.{new_counter}
use gostats.Store.Labels.{IsValid}
use gostats.Store.Fresh.{IsRegistered, new_counter-Registers}
use gostats.Scopes.{
  SubScope, counter_kind, join_scopes, sub_scope, scoped_with_tags, scoped_per_instance,
}

-- The scope that is reached from another by some calls of `ScopeWithTags`.
unfoldable pub descend : List (Bytes × TagMap) → SubScope → Run SubScope
unfolding sub_scope
descend [] scope = ret scope
descend ((name, tags) ∷ calls) scope = do child ← sub_scope scope name tags; descend calls child

abbrev pub dotted : Bytes → List (Bytes × TagMap) → Bytes
dotted name [] = name
dotted name ((child, tags) ∷ calls) = dotted (name ++ codes "." ++ child) calls

-- The value that the innermost call gives a key, or `outer`.
abbrev pub innermost : Bytes → Option Bytes → List (Bytes × TagMap) → Option Bytes
innermost k outer [] = outer
innermost k outer ((child, tags) ∷ calls) = innermost k (or_else (tag_value k tags) outer) calls

-- However deep it is, a sub-scope ends up with the names of the calls joined by dots, and with ordered
-- tags in which a key has the value that the innermost call gives it, or else that of the first scope.
-- The first scope's tags are ordered, and no call's map has a key twice.
pub descend-find :
    (calls : List (Bytes × TagMap)) (scope : SubScope)
    → IsOrdered scope.tags
    → All (λ (c : Bytes × TagMap). IsMap c.1) calls
    → (inner : SubScope) × (descend calls scope ≡ ret inner)
      × (inner.name ≡ dotted scope.name calls)
      × IsOrdered inner.tags
      × ((k : Bytes) → find k inner.tags ≡ innermost k (find k scope.tags) calls)
unfolding descend join_scopes
descend-find [] scope h maps = (scope, refl, refl, h, λ k. refl)
descend-find ((name, tags) ∷ calls) scope h (map_tags, maps) =
    let (set, e, ordered, found) = merge_tags-find scope.tags tags h map_tags in
    let child : SubScope = record { name = join_scopes scope.name name; tags = set } in
    let (inner, e', same, ordered', found') = descend-find calls child ordered maps in
    (
      inner,
      rw e e',
      same,
      ordered',
      λ k. found' k ∙ ap (λ (o : Option Bytes). innermost k o calls) (found k),
    )

module _ {F : Type 0} where
  -- `NewCounterWithTags` of a sub-scope ends, keeps the store valid, sends nothing and changes no total. It
  -- returns the counter registered under the joined name with the merged tags: ordered, and with the
  -- value of the call's tags for a key, or else the scope's. The scope's tags are ordered, and the call's
  -- map has no key twice.
  pub scoped_with_tags-Registers :
      (scope : SubScope) (name : Bytes) (tags : TagMap) (labels : List Bytes) (s : Store F)
      → IsOrdered scope.tags
      → IsMap tags
      → (v : IsValid labels s)
      → (set : TagSet) × (labels' : List Bytes) × (made : ℕ × Store F) × (scoped_with_tags
            counter_kind scope name tags s
          ≡ ret made)
        × IsOrdered set
        × ((k : Bytes) → find k set ≡ or_else (tag_value k tags) (find k scope.tags))
        × IsRegistered labels (serialize set (scope.name ++ codes "." ++ name)) s v labels' made
  unfolding scoped_with_tags
  scoped_with_tags-Registers scope name tags labels s h map_tags v =
      let (set, e, ordered, found) = merge_tags-find scope.tags tags h map_tags in
      let full = serialize set (scope.name ++ codes "." ++ name) in
      let (labels', registered) = new_counter-Registers labels full s v in
      (set, labels', new_counter full s, rw e refl, ordered, found, registered)

  -- `NewPerInstanceCounter` of a sub-scope does the same, and a key `_f` that neither the call nor the
  -- scope gives a value has the value `i`.
  pub scoped_per_instance-Registers :
      (scope : SubScope) (name : Bytes) (tags : TagMap) (labels : List Bytes) (s : Store F)
      → IsOrdered scope.tags
      → IsMap tags
      → (v : IsValid labels s)
      → (set : TagSet) × (labels' : List Bytes) × (made : ℕ × Store F) × (scoped_per_instance
            counter_kind scope name tags s
          ≡ ret made)
        × IsOrdered set
        × ((k : Bytes)
            → find k set
              ≡ or_else (or_else (tag_value k tags) (find k scope.tags)) (default_value k))
        × IsRegistered labels (serialize set (scope.name ++ codes "." ++ name)) s v labels' made
  unfolding scoped_per_instance
  scoped_per_instance-Registers scope name tags labels s h map_tags v =
      let (set, e, ordered, found) = merge_per_instance_tags-find scope.tags tags h map_tags in
      let full = serialize set (scope.name ++ codes "." ++ name) in
      let (labels', registered) = new_counter-Registers labels full s v in
      (set, labels', new_counter full s, rw e refl, ordered, found, registered)
