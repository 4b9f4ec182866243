-- ===== src/Tags/Merge.antt =====
-- `MergeTags`, `MergePerInstanceTags` and the merge in place of internal/tags/tags.go.
pub mod InPlace
pub mod Union
pub mod Laws
pub mod PerInstance
use gostats.Prelude.{
  ℕ, zero, suc, ◌+◌, ◌-◌, Bool, true, false, not, ◌&&◌, Option, none, some, List, [], ◌∷◌, ◌++◌,
  ltb, leb, ◌==◌, if◌then◌else◌, length, get_elem?, set, take, drop, replicate, Run, ret, panic,
  ◌>>=◌, ◌≡◌, refl,
}
use gostats.Bytes.{Bytes, beq, less, codes}
use gostats.Tags.{Tag, TagMap, TagSet, zero_tag, new_tag}
use gostats.Tags.Sort.{sort}
use gostats.Tags.Search.{contains, insert}
use gostats.Tags.Build.{is_empty, valid_tags, get}

abbrev pub min : ℕ → ℕ → ℕ
min a b = if leb a b then a else b

-- `copy(a[k:], ys)`: as many of `ys` as fit.
unfoldable pub overlay : TagSet → ℕ → TagSet → TagSet
overlay [] k ys = []
overlay (x ∷ a) k [] = x ∷ a
overlay (x ∷ a) zero (y ∷ ys) = y ∷ overlay a zero ys
overlay (x ∷ a) (suc k) (y ∷ ys) = x ∷ overlay a k (y ∷ ys)

-- What follows the loop of `mergeTagSets`: the rest of `s1`, then the rest of `s2`, which lies in the
-- array itself and is read after the first copy; the result is `a[:k]`.
unfoldable pub finish : TagSet → ℕ → ℕ → ℕ → TagSet → Run TagSet
unfolding overlay
finish xs r q k a =
    let k1 = k + min (length a - k) (length xs) in
    let a1 = overlay a k xs in
    let ys = take r (drop q a1) in
    let k2 = k1 + min (length a1 - k1) (length ys) in ret (take k2 (overlay a1 k1 ys))

-- The loop of `mergeTagSets`, where `s2` lies in the scratch array `a`. `xs` is `s1[i:]`, `r` is
-- `len(s2) - j`, `q` is the place of `s2[j]` in the array, and `k` is the next place to write.
unfoldable pub merge_loop : TagSet → ℕ → ℕ → ℕ → TagSet → Run TagSet
unfolding finish
merge_loop [] r q k a = finish [] r q k a
merge_loop (x ∷ xs) zero q k a = finish (x ∷ xs) zero q k a
merge_loop (x ∷ xs) (suc r) q k a = elim (ltb k (length a)) [
  | false ↦ finish (x ∷ xs) (suc r) q k a
  | true ↦ elim (get_elem? a q) [
    | none ↦ panic
    | some y ↦ elim (beq x.key y.key) [
      | true ↦ merge_loop xs r (q + 1) (k + 1) (set a k y)
      | false ↦ elim (less x.key y.key) [
        | true ↦ merge_loop xs (suc r) q (k + 1) (set a k x)
        | false ↦ merge_loop (x ∷ xs) r (q + 1) (k + 1) (set a k y)
      ]
    ]
  ]
]

-- `mergeTagSets(s1, s2, scratch)`, for the `s2` of length `n` that starts at `scratch[o]`.
unfoldable pub merge_tag_sets : TagSet → ℕ → ℕ → TagSet → Run TagSet
unfolding merge_loop
merge_tag_sets s1 o n scratch = merge_loop s1 n o 0 scratch

-- The end of both callers, for `t`, the tags `w` that were written to the scratch slice behind the
-- first `len(t)` places, and the size of that slice: sort them in place and merge.
unfoldable pub merge_written : TagSet → TagSet → ℕ → Run TagSet
unfolding merge_tag_sets
merge_written t w size = do
  a ← sort w
  if length t == 0
      then ret a
      else merge_tag_sets t (length t) (length a)
          (replicate (length t) zero_tag ++ (a ++ replicate (size - length t - length w) zero_tag))

unfoldable pub merge_one_tag : TagSet → TagMap → Run TagSet
merge_one_tag set [] = panic
merge_one_tag set ((k, v) ∷ []) =
    let p = new_tag k v in
    if is_empty p.key then ret set else if is_empty p.value then ret set else insert set p
merge_one_tag set (e ∷ f ∷ m) = panic

unfoldable pub merge_tags : TagSet → TagMap → Run TagSet
unfolding merge_one_tag merge_written
merge_tags t tags =
    if length tags == 0
    then ret t
    else if length tags == 1
    then merge_one_tag t tags
    else merge_written t (valid_tags tags) (length t + length tags)

-- `"_f"`, and the tag that marks a statistic of one instance.
abbrev pub instance_key : Bytes
instance_key = codes "_f"

abbrev pub instance_tag : Tag
instance_tag = record { key = instance_key; value = codes "i" }

-- `m[key] == ""`
abbrev pub is_unset : Bytes → TagMap → Bool
is_unset k m = elim (get k m) [ none ↦ true | some v ↦ is_empty v ]

unfoldable pub merge_per_instance_tags : TagSet → TagMap → Run TagSet
unfolding merge_written
merge_per_instance_tags t tags = do
  found ← contains t instance_key
  if length tags == 0
      then (if found then ret t else insert t instance_tag)
      else (let own = if is_unset instance_key tags && not found then instance_tag ∷ [] else [] in
          merge_written t (own ++ valid_tags tags) (length t + length tags + 1))
