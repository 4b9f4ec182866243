-- ===== src/Tags/Parse.antt =====
-- `removeStatValue`, `ParseTags` and `ParseTagSet` of internal/tags/tags.go.
pub mod Segments
pub mod Value
pub mod RoundTrip
pub mod Pairs
use gostats.Prelude.{
  ℕ, zero, suc, ◌+◌, ◌-◌, Bool, true, false, Option, none, some, List, [], ◌∷◌, ◌++◌, ◌==◌,
  if◌then◌else◌, length, take, drop, Run, ret, panic, ◌>>=◌, ◌≡◌, refl,
}
use gostats.Bytes.{Bytes, beq, less, codes, index_byte, index_sub, count_sub}
use gostats.Tags.{Tag, TagMap, TagSet}
use gostats.Tags.Sort.{sort}

abbrev pub tag_sep : Bytes
tag_sep = codes ".__"

-- The loop `for i < len(s)`: `s` is what is left from index `i`, and `n` the last colon so far.
unfoldable pub last_colon : ℕ → ℕ → Bytes → ℕ
last_colon n i [] = n
last_colon n i (c ∷ s) = last_colon (if c == b':' then i else n) (i + 1) s

unfoldable pub remove_stat_value : Bytes → Bytes
unfolding last_colon
remove_stat_value s = elim (index_byte b':' s) [
  | none ↦ s
  | some i ↦ take (last_colon i (i + 1) (drop (i + 1) s)) s
]

-- `m[k] = v`
unfoldable pub assign : Bytes → Bytes → TagMap → TagMap
assign k v [] = (k, v) ∷ []
assign k v ((j, w) ∷ m) = if beq j k then (k, v) ∷ m else (j, w) ∷ assign k v m

-- What one segment adds: a pair if it holds `=`.
unfoldable pub read_pair : Bytes → TagMap → TagMap
unfolding assign
read_pair a m = elim (index_byte b'=' a) [
  | none ↦ m
  | some o ↦ assign (take o a) (drop (o + 1) a) m
]

-- The loop `for ; n > 0; n--` with the segment behind it.
unfoldable pub parse_pairs : ℕ → Bytes → TagMap → TagMap
unfolding read_pair
parse_pairs zero s m = read_pair s m
parse_pairs (suc n) s m = elim (index_sub tag_sep s) [
  | none ↦ read_pair s m
  | some i ↦ parse_pairs n (drop (i + length tag_sep) s) (read_pair (take i s) m)
]

-- `ParseTags` behind the removal of the value; `none` is the nil map of a text without tags.
unfoldable pub split_tags : Bytes → Bytes × Option TagMap
unfolding parse_pairs
split_tags stat = elim (index_sub tag_sep stat) [
  | none ↦ (stat, none)
  | some o ↦
      let s = drop (o + length tag_sep) stat in
      (take o stat, some (parse_pairs (count_sub tag_sep s) s []))
]

unfoldable pub parse_tags : Bytes → Bytes × Option TagMap
unfolding remove_stat_value split_tags
parse_tags stat = split_tags (remove_stat_value stat)

-- `tags[i] = Tag{…}; i++`, where `t` is `tags[:i]`. The slice has room for each segment.
unfoldable pub read_tag : Bytes → TagSet → TagSet
read_tag a t = elim (index_byte b'=' a) [
  | none ↦ t
  | some o ↦ t ++ record { key = take o a; value = drop (o + 1) a } ∷ []
]

unfoldable pub parse_loop : ℕ → Bytes → TagSet → TagSet
unfolding read_tag
parse_loop zero s t = read_tag s t
parse_loop (suc n) s t = elim (index_sub tag_sep s) [
  | none ↦ read_tag s t
  | some i ↦ parse_loop n (drop (i + length tag_sep) s) (read_tag (take i s) t)
]

-- `ParseTagSet` behind the removal of the value.
unfoldable pub split_tag_set : Bytes → Run (Bytes × TagSet)
unfolding parse_loop
split_tag_set stat = elim (index_sub tag_sep stat) [
  | none ↦ ret (stat, [])
  | some o ↦
      let s = drop (o + length tag_sep) stat in
      do tags ← sort (parse_loop (count_sub tag_sep s) s []); ret (take o stat, tags)
]

unfoldable pub parse_tag_set : Bytes → Run (Bytes × TagSet)
unfolding remove_stat_value split_tag_set
parse_tag_set stat = split_tag_set (remove_stat_value stat)
