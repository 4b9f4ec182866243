-- ===== src/Tags/Build.antt =====
-- `NewTagSet` of internal/tags/tags.go, and the finite map that its result stands for.
use gostats.Prelude.{
  ◌≤◌, ◌≡◌, refl, ◌∙◌, ap, Bool, true, false, not, ◌&&◌, ◌||◌, Option, none, some, List, [], ◌∷◌,
  arith, if◌then◌else◌, Bool-cases, inl, inr, tally, Run, ret,
}
use gostats.Bytes.{Bytes, beq, beq_refl, beq→eq, beq_sym, less-ne}
use gostats.Tags.{Tag, TagMap, TagSet, replace_chars, new_tag, IsOrdered, HasUniqueKeys}
use gostats.Tags.Sort.{insert_sorted, sort_sort, sort}
use gostats.Tags.Sort.Result.{Sorts-ret, sort-Sorts, sort-eq_of_SameItems}
use gostats.Tags.Search.Laws.{find}

-- `s == ""`
abbrev pub is_empty : Bytes → Bool
is_empty [] = true
is_empty (c ∷ s) = false

-- The loops `for k, v := range tags` that keep the pairs with a key and a value.
unfoldable pub valid_tags : TagMap → TagSet
valid_tags [] = []
valid_tags ((k, v) ∷ m) =
    let rest = valid_tags m in
    if not (is_empty k) && not (is_empty v) then new_tag k v ∷ rest else rest

unfoldable pub new_tag_set : TagMap → Run TagSet
unfolding valid_tags
new_tag_set m = sort (valid_tags m)

-- A Go map has one value for a key, so a `range` visits no key twice.
abbrev pub IsMap : TagMap → Type 0
IsMap m = (k : Bytes) → tally (λ e. beq k e.0) m ≤ 1

-- `m[k]`
abbrev pub get : Bytes → TagMap → Option Bytes
get k [] = none
get k ((j, v) ∷ m) = if beq j k then some v else get k m

-- The value that a tag made from `m[k]` has: none for an empty key or value.
abbrev pub clean : Bytes → Option Bytes → Option Bytes
clean k none = none
clean k (some v) = if is_empty k || is_empty v then none else some (replace_chars v)

abbrev pub tag_value : Bytes → TagMap → Option Bytes
tag_value k m = clean k (get k m)

pub tally-valid_tags :
    (p : Tag → Bool) (m : TagMap)
    → tally p (valid_tags m)
      ≡ tally (λ e. (not (is_empty e.0) && not (is_empty e.1)) && p (new_tag e.0 e.1)) m
unfolding valid_tags
tally-valid_tags p [] = refl
tally-valid_tags p ((k, v) ∷ m) = ground (arith, tally-valid_tags p m)

tally_le {ℓ} :
    {A : Type ℓ} (p q : A → Bool) (xs : List A)
    → ((x : A) → p x ≡ true → q x ≡ true)
    → tally p xs ≤ tally q xs
tally_le p q [] h = omega arith
tally_le p q (x ∷ xs) h = elim (Bool-cases (p x)) [
  | inl e ↦ rw (e, h x e) (omega (arith, tally_le p q xs h))
  | inr e ↦ rw e (omega (arith, tally_le p q xs h))
]

pub valid_tags-HasUniqueKeys : (m : TagMap) → IsMap m → HasUniqueKeys (valid_tags m)
valid_tags-HasUniqueKeys m h k = omega (
  arith,
  tally-valid_tags (λ q. beq k q.key) m,
  h k,
  tally_le
      (λ (e : Bytes × Bytes).
        (not (is_empty e.0) && not (is_empty e.1)) && beq k (new_tag e.0 e.1).key)
      (λ e. beq k e.0) m (λ e g. unfold new_tag in ground arith),
)

-- No key of a map is visited again.
get-none : (k : Bytes) (m : TagMap) → tally (λ e. beq k e.0) m ≡ 0 → get k m ≡ none
get-none k [] h = refl
get-none k ((j, v) ∷ m) h = elim (Bool-cases (beq j k)) [
  | inl e ↦ absurd (omega (arith, rw (beq_sym k j ∙ e) at h))
  | inr e ↦ rw e (get-none k m (omega (arith, rw (beq_sym k j ∙ e) at h)))
]

IsMap-tail : (e : Bytes × Bytes) (m : TagMap) → IsMap (e ∷ m) → IsMap m
IsMap-tail e m h k = omega (arith, h k)

pub find-valid_tags : (m : TagMap) (k : Bytes) → IsMap m → find k (valid_tags m) ≡ tag_value k m
unfolding valid_tags new_tag
find-valid_tags [] k h = refl
find-valid_tags ((j, v) ∷ m) k h = elim (Bool-cases (beq j k)) [
  | inr e ↦ rw e (ground (arith, find-valid_tags m k (IsMap-tail (j, v) m h)))
  | inl e ↦
      let alone : get k m ≡ none = get-none k m (omega (arith, rw (beq_sym k j ∙ e) at (h k))) in
      let same : j ≡ k = beq→eq j k e in
      let absent : find k (valid_tags m) ≡ none =
        find-valid_tags m k (IsMap-tail (j, v) m h) ∙ ap (clean k) alone in
      rw (same, beq_refl k) (ground (arith, absent, beq_refl k))
]

find-insert_sorted :
    (p : Tag) (t : TagSet) (k : Bytes)
    → find k (insert_sorted p t) ≡ (if beq p.key k then some p.value else find k t)
unfolding insert_sorted
find-insert_sorted p [] k = refl
find-insert_sorted p (q ∷ t) k = ground (
  arith,
  find-insert_sorted p t k,
  less-ne q.key p.key,
  beq→eq q.key k,
  beq→eq p.key k,
  beq_refl k,
)

pub find-sort_sort : (t : TagSet) (k : Bytes) → find k (sort_sort t) ≡ find k t
unfolding sort_sort
find-sort_sort [] k = refl
find-sort_sort (p ∷ t) k = find-insert_sorted p (sort_sort t) k ∙ rw (find-sort_sort t k)

-- The ordered set of the tags of a map.
abbrev pub tags_of : TagMap → TagSet
tags_of m = sort_sort (valid_tags m)

pub tags_of-IsOrdered : (m : TagMap) → IsMap m → IsOrdered (tags_of m)
tags_of-IsOrdered m h =
    (Sorts-ret (valid_tags m) (sort (valid_tags m)) (valid_tags-HasUniqueKeys m h)
      (sort-Sorts (valid_tags m))).1

pub find-tags_of : (m : TagMap) (k : Bytes) → IsMap m → find k (tags_of m) ≡ tag_value k m
find-tags_of m k h = find-sort_sort (valid_tags m) k ∙ find-valid_tags m k h

pub new_tag_set-tags_of : (m : TagMap) → IsMap m → new_tag_set m ≡ ret (tags_of m)
unfolding new_tag_set
new_tag_set-tags_of m h =
    (sort-eq_of_SameItems (valid_tags m) (valid_tags m) (valid_tags-HasUniqueKeys m h)
      (λ p. refl)).1
