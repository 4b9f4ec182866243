-- ===== src/Tags/Merge/Laws.antt =====
-- What `MergeTags` and `MergePerInstanceTags` return, for every size of the map.
use gostats.Prelude.{
  ℕ, suc, ◌+◌, ◌-◌, ◌≡◌, refl, sym, ◌∙◌, ap, false, [], ◌∷◌, arith, ◌==◌, suc-==_zero, Bool-cases,
  inl, inr, length, length-replicate, replicate, ret,
}
use gostats.Bytes.{Bytes}
use gostats.Tags.{
  Tag, TagMap, TagSet, zero_tag, new_tag, replace_chars, IsOrdered, IsSorted, HasUniqueKeys,
}
use gostats.Tags.Sort.{sort, sort_sort}
use gostats.Tags.Sort.Result.{sort-eq_of_SameItems}
use gostats.Tags.Search.Laws.{find, insert-place, IsSorted-of_IsOrdered}
use gostats.Tags.Build.{
  is_empty, valid_tags, IsMap, tag_value, tags_of, valid_tags-HasUniqueKeys, tags_of-IsOrdered,
  find-tags_of,
}
use gostats.Tags.Merge.{merge_written, merge_one_tag, merge_tags}
use gostats.Tags.Merge.Union.{union, union-nil, union-IsOrdered, or_else, find-union, place-union}
use gostats.Tags.Merge.InPlace.{merge_tag_sets-union}

sort-sort_sort : (w : TagSet) → HasUniqueKeys w → sort w ≡ ret (sort_sort w)
sort-sort_sort w unique = (sort-eq_of_SameItems w w unique (λ p. refl)).1

pub merge_written-union :
    (t w : TagSet) (size : ℕ)
    → HasUniqueKeys w
    → merge_written t w size ≡ ret (union t (sort_sort w))
unfolding merge_written
merge_written-union [] w size unique = rw (sort-sort_sort w unique) (unfold union in refl)
merge_written-union (p ∷ t) w size unique =
    let filler : ℕ = size - length (p ∷ t) - length w in
    rw (sort-sort_sort w unique, suc-==_zero (length t))
      (merge_tag_sets-union (p ∷ t) (replicate (length (p ∷ t)) zero_tag) (sort_sort w)
        (replicate filler zero_tag) (length-replicate (length (p ∷ t)) zero_tag))

is_empty-replace_chars : (v : Bytes) → is_empty (replace_chars v) ≡ is_empty v
unfolding replace_chars
is_empty-replace_chars [] = refl
is_empty-replace_chars (c ∷ v) = refl

-- One pair of a map: `MergeTags` agrees with the merge of the general case.
merge_one_tag-union :
    (t : TagSet) (k v : Bytes)
    → IsSorted t
    → merge_one_tag t ((k, v) ∷ []) ≡ ret (union t (tags_of ((k, v) ∷ [])))
unfolding merge_one_tag valid_tags sort_sort new_tag
merge_one_tag-union t k v s = rw (is_empty-replace_chars v) (elim (Bool-cases (is_empty k)) [
  | inl e ↦ rw e (ap ret (sym (union-nil t)))
  | inr e ↦ rw e (elim (Bool-cases (is_empty v)) [
    | inl g ↦ rw g (ap ret (sym (union-nil t)))
    | inr g ↦
        let p : Tag = record { key = k; value = replace_chars v } in
        rw g (insert-place t p s ∙ ap ret (place-union p t))
  ])
])

-- Whatever the size of the map, `MergeTags` does not panic and returns the union of the set with the tags
-- of the map.
pub merge_tags-union :
    (t : TagSet) (m : TagMap) → IsSorted t → IsMap m → merge_tags t m ≡ ret (union t (tags_of m))
unfolding merge_tags
merge_tags-union t [] s h = unfold valid_tags sort_sort in ap ret (sym (union-nil t))
merge_tags-union t ((k, v) ∷ []) s h = merge_one_tag-union t k v s
merge_tags-union t (e ∷ f ∷ m) s h =
    let two_or_more : (suc (suc (length m)) == 1) ≡ false = ground arith in
    rw (suc-==_zero (suc (length m)), two_or_more)
      (merge_written-union t (valid_tags (e ∷ f ∷ m)) (length t + suc (suc (length m)))
        (valid_tags-HasUniqueKeys (e ∷ f ∷ m) h))

-- On an ordered set and any map, `MergeTags` does not panic: it returns an ordered set, in which a key
-- has the cleaned value of the map, or else the value that it had in the set.
pub merge_tags-find :
    (t : TagSet) (m : TagMap)
    → IsOrdered t
    → IsMap m
    → (u : TagSet) × (merge_tags t m ≡ ret u)
      × IsOrdered u
      × ((k : Bytes) → find k u ≡ or_else (tag_value k m) (find k t))
merge_tags-find t m h map_m =
    let ordered = tags_of-IsOrdered m map_m in
    (
      union t (tags_of m),
      merge_tags-union t m (IsSorted-of_IsOrdered t h) map_m,
      union-IsOrdered t (tags_of m) h ordered,
      λ k.
          find-union t (tags_of m) k h ordered
          ∙ ap (λ o. or_else o (find k t)) (find-tags_of m k map_m),
    )
