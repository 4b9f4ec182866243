-- ===== src/Tags/Merge/PerInstance.antt =====
-- `MergePerInstanceTags` of internal/tags/tags.go as a finite map.
use gostats.Prelude.{
  ℕ, ◌+◌, ◌≡◌, refl, sym, ◌∙◌, ap, subst, true, false, not, ◌&&◌, Option, none, some, [], ◌∷◌, ◌++◌,
  arith, suc-==_zero, if◌then◌else◌, Bool-cases, Option-cases, inl, inr, length, tally, Run, ret,
}
use gostats.Bytes.{Bytes, beq, beq→eq, beq_sym}
use gostats.Tags.{TagMap, TagSet, IsOrdered, HasUniqueKeys}
use gostats.Tags.Sort.{sort, sort_sort}
use gostats.Tags.Sort.Result.{sort-Sorts, Sorts-ret}
use gostats.Tags.Search.{insert}
use gostats.Tags.Search.Laws.{find, is_some, contains-find, insert-find, IsSorted-of_IsOrdered}
use gostats.Tags.Build.{
  valid_tags, IsMap, tag_value, valid_tags-HasUniqueKeys, find-sort_sort, find-valid_tags,
}
use gostats.Tags.Merge.{
  merge_written, instance_key, instance_tag, is_unset, merge_per_instance_tags,
}
use gostats.Tags.Merge.Union.{union, union-IsOrdered, or_else, or_else-none, find-union}
use gostats.Tags.Merge.Laws.{merge_written-union}

-- What a set without the per-instance key is given.
abbrev pub default_value : Bytes → Option Bytes
default_value k = if beq instance_key k then some instance_tag.value else none

tally-absent : (k : Bytes) (t : TagSet) → find k t ≡ none → tally (λ q. beq k q.key) t ≡ 0
tally-absent k [] h = refl
tally-absent k (q ∷ t) h = elim (Bool-cases (beq q.key k)) [
  | inl e ↦ absurd (cc (rw e at h))
  | inr e ↦ rw (beq_sym k q.key ∙ e) (omega (arith, tally-absent k t (rw e at h)))
]

is_unset-tag_value :
    (m : TagMap) → is_unset instance_key m ≡ not (is_some (tag_value instance_key m))
is_unset-tag_value m = ground arith

none_of_not : (o : Option Bytes) → is_some o ≡ false → o ≡ none
none_of_not none h = refl
none_of_not (some v) h = cc

-- The default, put in front where the key is in neither place, is what comes last in order.
or_default-absent :
    (k : Bytes) (o p : Bytes → Option Bytes)
    → o instance_key ≡ none
    → p instance_key ≡ none
    → or_else (if beq instance_key k then some instance_tag.value else o k) (p k)
      ≡ or_else (or_else (o k) (p k)) (default_value k)
or_default-absent k o p ho hp = elim (Bool-cases (beq instance_key k)) [
  | inr e ↦ rw e (sym (or_else-none (or_else (o k) (p k))))
  | inl e ↦
      let same : instance_key ≡ k = beq→eq instance_key k e in
      let ok : o k ≡ none = subst (λ j. o j ≡ none) same ho in
      let pk : p k ≡ none = subst (λ j. p j ≡ none) same hp in rw (e, ok, pk)
]

or_default_last :
    (k : Bytes) (p : Bytes → Option Bytes)
    → p instance_key ≡ none
    → (if beq instance_key k then some instance_tag.value else p k)
      ≡ or_else (p k) (default_value k)
or_default_last k p hp = elim (Bool-cases (beq instance_key k)) [
  | inr e ↦ rw e (sym (or_else-none (p k)))
  | inl e ↦
      let same : instance_key ≡ k = beq→eq instance_key k e in
      let pk : p k ≡ none = subst (λ j. p j ≡ none) same hp in rw (e, pk)
]

-- The default changes nothing where the key is there.
or_default-present :
    (k : Bytes) (o : Bytes → Option Bytes)
    → is_some (o instance_key) ≡ true
    → o k ≡ or_else (o k) (default_value k)
or_default-present k o h = elim (Bool-cases (beq instance_key k)) [
  | inr e ↦ rw e (sym (or_else-none (o k)))
  | inl e ↦
      let same : instance_key ≡ k = beq→eq instance_key k e in
      let there : is_some (o k) ≡ true = subst (λ j. is_some (o j) ≡ true) same h in
      elim (Option-cases (o k)) [ inl n ↦ absurd (cc (rw n at there)) | inr (v, n) ↦ rw n ]
]

-- What a merge with per-instance tags returns for a set `t` and a map `m`.
abbrev pub MergesPerInstance : TagSet → TagMap → Run TagSet → Type 0
MergesPerInstance t m r =
    (u : TagSet) × (r ≡ ret u)
    × IsOrdered u
    × ((k : Bytes) → find k u ≡ or_else (or_else (tag_value k m) (find k t)) (default_value k))

-- The merge of the tags written to the scratch slice, in terms of what was written.
written_lem :
    (t w : TagSet) (m : TagMap) (size : ℕ)
    → IsOrdered t
    → HasUniqueKeys w
    → ((k : Bytes)
        → or_else (find k w) (find k t)
          ≡ or_else (or_else (tag_value k m) (find k t)) (default_value k))
    → MergesPerInstance t m (merge_written t w size)
written_lem t w m size ht unique same =
    let ordered = (Sorts-ret w (sort w) unique (sort-Sorts w)).1 in
    (
      union t (sort_sort w),
      merge_written-union t w size unique,
      union-IsOrdered t (sort_sort w) ht ordered,
      λ k.
          find-union t (sort_sort w) k ht ordered
          ∙ ap (λ o. or_else o (find k t)) (find-sort_sort w k)
          ∙ same k,
    )

with_default-HasUniqueKeys :
    (m : TagMap)
    → IsMap m
    → tag_value instance_key m ≡ none
    → HasUniqueKeys (instance_tag ∷ valid_tags m)
with_default-HasUniqueKeys m h absent k = elim (Bool-cases (beq k instance_key)) [
  | inr e ↦ rw e (omega (arith, valid_tags-HasUniqueKeys m h k))
  | inl e ↦
      let same : k ≡ instance_key = beq→eq k instance_key e in
      rw
        (
          e,
          tally-absent k (valid_tags m)
              (find-valid_tags m k h ∙ ap (λ j. tag_value j m) same ∙ absent),
        )
        (omega arith)
]

-- A map with entries: the default tag is written first if neither the map nor the set has the key.
many_tags :
    (t : TagSet) (m : TagMap) (size : ℕ)
    → IsOrdered t
    → IsMap m
    → MergesPerInstance t m (
        merge_written t
          ((if is_unset instance_key m && not (is_some (find instance_key t))
              then instance_tag ∷ []
              else [])
            ++ valid_tags m)
          size)
many_tags t m size ht h =
    rw (is_unset-tag_value m)
      (elim (Bool-cases
        (not (is_some (tag_value instance_key m)) && not (is_some (find instance_key t)))) [
          | inl e ↦
              let no_tag = none_of_not (tag_value instance_key m) (ground arith) in
              let no_own = none_of_not (find instance_key t) (ground arith) in
              rw e (
                written_lem t (instance_tag ∷ valid_tags m) m size ht
                  (with_default-HasUniqueKeys m h no_tag)
                  λ k.
                    rw (find-valid_tags m k h)
                      (or_default-absent k (λ j. tag_value j m) (λ j. find j t) no_tag no_own))
          | inr e ↦ rw e (
              written_lem t (valid_tags m) m size ht (valid_tags-HasUniqueKeys m h) λ k.
                rw (find-valid_tags m k h)
                  (or_default-present k (λ j. or_else (tag_value j m) (find j t)) (ground arith)))
        ])

-- A map without entries: the tag is inserted if the set does not have the key.
no_tags :
    (t : TagSet)
    → IsOrdered t
    → MergesPerInstance t []
        (if is_some (find instance_key t) then ret t else insert t instance_tag)
no_tags t ht = elim (Bool-cases (is_some (find instance_key t))) [
  | inl e ↦ rw e (t, refl, ht, λ k. or_default-present k (λ j. find j t) e)
  | inr e ↦
      let (u, eq, ordered, values) = insert-find t instance_tag ht in
      let absent = none_of_not (find instance_key t) e in
      rw e (u, eq, ordered, λ k. values k ∙ or_default_last k (λ j. find j t) absent)
]

-- On an ordered set and any map, `MergePerInstanceTags` does not panic: it returns an ordered set, in
-- which a key has the cleaned value of the map, or else the value that it had in the set; the key `_f`
-- has the value `i` where neither gives it one.
pub merge_per_instance_tags-find :
    (t : TagSet) (m : TagMap)
    → IsOrdered t
    → IsMap m
    → (u : TagSet) × (merge_per_instance_tags t m ≡ ret u)
      × IsOrdered u
      × ((k : Bytes) → find k u ≡ or_else (or_else (tag_value k m) (find k t)) (default_value k))
unfolding merge_per_instance_tags
merge_per_instance_tags-find t [] ht h =
    rw (contains-find t instance_key (IsSorted-of_IsOrdered t ht)) (no_tags t ht)
merge_per_instance_tags-find t (e ∷ m) ht h =
    rw (contains-find t instance_key (IsSorted-of_IsOrdered t ht), suc-==_zero (length m))
      (many_tags t (e ∷ m) (length t + length (e ∷ m) + 1) ht h)
