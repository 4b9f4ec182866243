-- ===== src/Tags/Serialize.antt =====
-- `Serialize` and `SerializeTags` of internal/tags/tags.go.
pub mod Laws
use gostats.Prelude.{
  ℕ, zero, suc, ◌+◌, ◌-◌, Bool, true, false, not, ◌&&◌, ◌||◌, List, [], ◌∷◌, ◌++◌, ◌==◌,
  if◌then◌else◌, length, ◌≡◌, refl,
}
use gostats.Bytes.{Bytes, less, codes}
use gostats.Tags.{Tag, TagMap, TagSet, zero_tag, new_tag}
use gostats.Tags.Sort.{sort_sort}
use gostats.Tags.Build.{is_empty, valid_tags}

abbrev pub prefix : Bytes
prefix = codes ".__"

abbrev pub sep : Bytes
sep = codes "="

-- The loop of `Serialize`: each tag is appended to the buffer `b`.
unfoldable pub write_tags : TagSet → Bytes → Bytes
write_tags [] b = b
write_tags (p ∷ t) b = write_tags t ((((b ++ prefix) ++ p.key) ++ sep) ++ p.value)

unfoldable pub serialize : TagSet → Bytes → Bytes
unfolding write_tags
serialize t name = if length t == 0 then name else write_tags t name

-- `numValid`, which starts at `n`.
unfoldable pub num_valid : ℕ → TagMap → ℕ
num_valid n [] = n
num_valid n ((k, v) ∷ m) = num_valid (if is_empty k || is_empty v then n - 1 else n) m

-- The loop for one valid pair, which stops at it.
unfoldable pub first_tag : TagMap → Tag
first_tag [] = zero_tag
first_tag ((k, v) ∷ m) =
    let rest = first_tag m in if not (is_empty k) && not (is_empty v) then new_tag k v else rest

-- The loops for two, three and four valid pairs: each pair moves the tags one variable on.
unfoldable pub last_two : Tag × Tag → TagMap → Tag × Tag
last_two s [] = s
last_two (t0, t1) ((k, v) ∷ m) =
    last_two (if is_empty k || is_empty v then (t0, t1) else (new_tag k v, t0)) m

unfoldable pub last_three : Tag × Tag × Tag → TagMap → Tag × Tag × Tag
last_three s [] = s
last_three (t0, t1, t2) ((k, v) ∷ m) =
    last_three (if is_empty k || is_empty v then (t0, t1, t2) else (new_tag k v, t0, t1)) m

unfoldable pub last_four : Tag × Tag × Tag × Tag → TagMap → Tag × Tag × Tag × Tag
last_four s [] = s
last_four (t0, t1, t2, t3) ((k, v) ∷ m) =
    last_four (if is_empty k || is_empty v then (t0, t1, t2, t3) else (new_tag k v, t0, t1, t2)) m

-- `if p.Key > q.Key { p, q = q, p }`
unfoldable pub in_order : Tag → Tag → Tag × Tag
in_order p q = if less q.key p.key then (q, p) else (p, q)

-- The exchanges of variables in the cases of three and four tags.
unfoldable pub order_three : Tag × Tag × Tag → TagSet
unfolding in_order
order_three (t0, t1, t2) =
    let (a1, a2) = in_order t1 t2 in
    let (b0, b2) = in_order t0 a2 in let (c0, c1) = in_order b0 a1 in c0 ∷ c1 ∷ b2 ∷ []

unfoldable pub order_four : Tag × Tag × Tag × Tag → TagSet
unfolding in_order
order_four (t0, t1, t2, t3) =
    let (a0, a1) = in_order t0 t1 in
    let (a2, a3) = in_order t2 t3 in
    let (b0, b2) = in_order a0 a2 in
    let (b1, b3) = in_order a1 a3 in let (c1, c2) = in_order b1 b2 in b0 ∷ c1 ∷ c2 ∷ b3 ∷ []

-- `prefix + p.Key + sep + p.Value`
abbrev pub tag_text : Tag → Bytes
tag_text p = prefix ++ (p.key ++ (sep ++ p.value))

-- The texts of the tags behind one another.
abbrev pub tags_text : TagSet → Bytes
tags_text [] = []
tags_text (p ∷ t) = tag_text p ++ tags_text t

unfoldable pub serialize_tags : Bytes → TagMap → Bytes
unfolding num_valid first_tag last_two last_three last_four in_order order_three order_four
    write_tags
serialize_tags name tags =
    let n = num_valid (length tags) tags in
    if n == 0
    then name
    else if n == 1
    then name ++ tag_text (first_tag tags)
    else if n == 2
    then (let (t0, t1) = last_two (zero_tag, zero_tag) tags in
        let (a0, a1) = in_order t0 t1 in name ++ tags_text (a0 ∷ a1 ∷ []))
    else if n == 3
    then name ++ tags_text (order_three (last_three (zero_tag, zero_tag, zero_tag) tags))
    else if n == 4
    then name ++ tags_text (order_four (last_four (zero_tag, zero_tag, zero_tag, zero_tag) tags))
    else write_tags (sort_sort (valid_tags tags)) name
