-- ===== src/Tags/Parse/RoundTrip.antt =====
-- Parsing what `Serialize` and `SerializeTags` write.
use gostats.Prelude.{
  ◌≡◌, refl, ◌∙◌, ap, true, false, not, ◌&&◌, [], ◌∷◌, ◌++◌, map, append_assoc, append-nil, arith,
  Bool-cases, inl, inr, length, length-map, All, tally, ret,
}
use gostats.Bytes.{Bytes, beq, beq→eq, less-ne, index_byte-append, count_sub, Lacks}
use gostats.Tags.{
  Tag, TagMap, TagSet, key_less, replace_char, replace_chars, new_tag, IsOrdered, HasUniqueKeys,
}
use gostats.Tags.Sort.{insert_sorted, sort_sort, sort}
use gostats.Tags.Sort.Result.{sort-Sorts, Sorts-ret, sort_sort-Sorts, IsOrdered-eq}
use gostats.Tags.Build.{
  is_empty, valid_tags, new_tag_set, IsMap, tags_of, tags_of-IsOrdered, new_tag_set-tags_of,
}
use gostats.Tags.Serialize.{tags_text, serialize, serialize_tags}
use gostats.Tags.Serialize.Laws.{serialize-tags_text, serialize_tags-tags_text}
use gostats.Tags.Parse.{
  tag_sep, remove_stat_value, read_tag, parse_loop, split_tag_set, parse_tag_set,
}
use gostats.Tags.Parse.Segments.{
  HasNoSep, HasNoSep-equals, index_sub-append, index_sub-none, take_segment, drop_past, drop_equals,
  joined, count_sub-joined,
}
use gostats.Tags.Parse.Value.{remove_stat_value-append}

-- A key that the text format carries.
abbrev pub IsCleanKey : Bytes → Type 0
IsCleanKey k = HasNoSep k × Lacks b'=' k

-- A tag that the text format carries: `NewTag` makes the value one without a full stop.
abbrev pub IsCleanTag : Tag → Type 0
IsCleanTag p = IsCleanKey p.key × Lacks b'.' p.value

-- One segment, without the separator in front.
abbrev pub pair_text : Tag → Bytes
pair_text p = p.key ++ b'=' ∷ p.value

pub tags_text-joined :
    (p : Tag) (t : TagSet) → tags_text (p ∷ t) ≡ tag_sep ++ joined (pair_text p) (map pair_text t)
tags_text-joined p [] = rw append-nil
tags_text-joined p (q ∷ t) = ap (λ r. tag_sep ++ (pair_text p ++ r)) (tags_text-joined q t)

pub pair-HasNoSep : (p : Tag) → IsCleanTag p → HasNoSep (pair_text p)
pair-HasNoSep p (hk, hv) = HasNoSep-equals p.key p.value hk.0 hv

pub pairs-HasNoSep : (t : TagSet) → All IsCleanTag t → All HasNoSep (map pair_text t)
pairs-HasNoSep [] h = tt
pairs-HasNoSep (p ∷ t) (hp, h) = (pair-HasNoSep p hp, pairs-HasNoSep t h)

read_tag-pair : (p : Tag) (acc : TagSet) → IsCleanTag p → read_tag (pair_text p) acc ≡ acc ++ p ∷ []
unfolding read_tag
read_tag-pair p acc (hk, hv) =
    rw (index_byte-append b'=' p.key p.value hk.1, read_tag)
      (rw (take_segment p.key (b'=' ∷ p.value), drop_equals p.key p.value) refl)

parse_loop-joined :
    (p : Tag) (t acc : TagSet)
    → IsCleanTag p
    → All IsCleanTag t
    → parse_loop (length t) (joined (pair_text p) (map pair_text t)) acc ≡ acc ++ p ∷ t
unfolding parse_loop
parse_loop-joined p [] acc hp ht = read_tag-pair p acc hp
parse_loop-joined p (q ∷ t) acc hp (hq, ht) =
    let rest : Bytes = joined (pair_text q) (map pair_text t) in
    rw (index_sub-append (pair_text p) rest (pair-HasNoSep p hp), parse_loop)
      (rw
        (
          drop_past (pair_text p) rest,
          take_segment (pair_text p) (tag_sep ++ rest),
          read_tag-pair p acc hp,
        )
        (parse_loop-joined q t (acc ++ p ∷ []) hq ht ∙ append_assoc acc (p ∷ []) (q ∷ t)))

-- No key of an ordered set occurs twice.
tally-above :
    (k : Bytes) (p : Tag) (t : TagSet)
    → beq k p.key ≡ true
    → All (λ q. key_less p q ≡ true) t
    → tally (λ q. beq k q.key) t ≡ 0
tally-above k p [] e h = refl
tally-above k p (q ∷ t) e (hq, h) =
    let differs : beq k q.key ≡ false =
      ap (λ j. beq j q.key) (beq→eq k p.key e) ∙ less-ne p.key q.key hq in
    rw differs (omega (arith, tally-above k p t e h))

pub HasUniqueKeys-of_IsOrdered : (t : TagSet) → IsOrdered t → HasUniqueKeys t
HasUniqueKeys-of_IsOrdered [] h k = omega arith
HasUniqueKeys-of_IsOrdered (p ∷ t) (hp, h) k = elim (Bool-cases (beq k p.key)) [
  | inl e ↦ rw e (omega (arith, tally-above k p t e hp))
  | inr e ↦ rw e (omega (arith, HasUniqueKeys-of_IsOrdered t h k))
]

pub sort-IsOrdered : (t : TagSet) → IsOrdered t → sort t ≡ ret t
sort-IsOrdered t h =
    let (e, ordered) = Sorts-ret t (sort t) (HasUniqueKeys-of_IsOrdered t h) (sort-Sorts t) in
    e ∙ ap ret (IsOrdered-eq (sort_sort t) t ordered h (sort_sort-Sorts t).1)

split_tag_set-tags_text :
    (name : Bytes) (t : TagSet)
    → HasNoSep name
    → IsOrdered t
    → All IsCleanTag t
    → split_tag_set (name ++ tags_text t) ≡ ret (name, t)
unfolding split_tag_set
split_tag_set-tags_text name [] hn ho ht =
    rw (append-nil name) (rw (index_sub-none name hn, split_tag_set))
split_tag_set-tags_text name (p ∷ t) hn ho (hp, ht) =
    let body : Bytes = joined (pair_text p) (map pair_text t) in
    let count : count_sub tag_sep body ≡ length t =
      count_sub-joined (pair_text p) (map pair_text t) (pair-HasNoSep p hp) (pairs-HasNoSep t ht)
      ∙ length-map pair_text t in
    rw (tags_text-joined p t) (
      rw (index_sub-append name body hn, split_tag_set)
        (rw (drop_past name body, take_segment name (tag_sep ++ body))
          (rw (count, parse_loop-joined p t [] hp ht, sort-IsOrdered (p ∷ t) ho))))

parse_tag_set-tags_text :
    (text name : Bytes) (t : TagSet)
    → remove_stat_value text ≡ name ++ tags_text t
    → HasNoSep name
    → IsOrdered t
    → All IsCleanTag t
    → parse_tag_set text ≡ ret (name, t)
unfolding parse_tag_set
parse_tag_set-tags_text text name t e hn ho ht =
    ap split_tag_set e ∙ split_tag_set-tags_text name t hn ho ht

-- `ParseTagSet` reads back the name and the tags that `Serialize` wrote, from a whole stat line: the text,
-- a colon and a value that holds no colon.
pub parse_tag_set-serialize :
    (name v : Bytes) (t : TagSet)
    → HasNoSep name
    → IsOrdered t
    → All IsCleanTag t
    → Lacks b':' v
    → parse_tag_set (serialize t name ++ b':' ∷ v) ≡ ret (name, t)
parse_tag_set-serialize name v t hn ho ht hv =
    parse_tag_set-tags_text (serialize t name ++ b':' ∷ v) name t
      (remove_stat_value-append (serialize t name) v hv ∙ serialize-tags_text t name) hn ho ht

Lacks-replace_chars : (v : Bytes) → Lacks b'.' (replace_chars v)
unfolding replace_chars replace_char
Lacks-replace_chars [] = tt
Lacks-replace_chars (c ∷ v) = (ground arith, Lacks-replace_chars v)

-- The keys of a map are clean.
abbrev pub HasCleanKeys : TagMap → Type 0
HasCleanKeys = All (λ e. IsCleanKey e.0)

valid_tags-clean : (m : TagMap) → HasCleanKeys m → All IsCleanTag (valid_tags m)
unfolding valid_tags new_tag
valid_tags-clean [] h = tt
valid_tags-clean ((k, v) ∷ m) (hk, h) = elim (Bool-cases (not (is_empty k) && not (is_empty v))) [
  | inl e ↦ rw e ((hk, Lacks-replace_chars v), valid_tags-clean m h)
  | inr e ↦ rw e (valid_tags-clean m h)
]

insert_sorted-clean :
    (p : Tag) (t : TagSet) → IsCleanTag p → All IsCleanTag t → All IsCleanTag (insert_sorted p t)
unfolding insert_sorted
insert_sorted-clean p [] hp h = (hp, tt)
insert_sorted-clean p (q ∷ t) hp (hq, h) = elim (Bool-cases (key_less q p)) [
  | inl e ↦ rw e (hq, insert_sorted-clean p t hp h)
  | inr e ↦ rw e (hp, (hq, h))
]

sort_sort-clean : (t : TagSet) → All IsCleanTag t → All IsCleanTag (sort_sort t)
unfolding sort_sort
sort_sort-clean [] h = tt
sort_sort-clean (p ∷ t) (hp, h) = insert_sorted-clean p (sort_sort t) hp (sort_sort-clean t h)

pub tags_of-clean : (m : TagMap) → HasCleanKeys m → All IsCleanTag (tags_of m)
tags_of-clean m h = sort_sort-clean (valid_tags m) (valid_tags-clean m h)

-- For a name in which no `.__` begins a tag, a map with clean keys and any values, and a rest of the line without a colon:
-- from what `SerializeTags` makes of the name and the map, a colon and that rest, `ParseTagSet` reads the name
-- and the very set that `NewTagSet` makes of the map.
pub parse_tag_set-serialize_tags :
    (name v : Bytes) (m : TagMap)
    → HasNoSep name
    → IsMap m
    → HasCleanKeys m
    → Lacks b':' v
    → (u : TagSet) × (new_tag_set m ≡ ret u)
      × (parse_tag_set (serialize_tags name m ++ b':' ∷ v) ≡ ret (name, u))
parse_tag_set-serialize_tags name v m hn hm hk hv = (
  tags_of m,
  new_tag_set-tags_of m hm,
  parse_tag_set-tags_text (serialize_tags name m ++ b':' ∷ v) name (tags_of m)
      (remove_stat_value-append (serialize_tags name m) v hv ∙ serialize_tags-tags_text name m hm)
      hn (tags_of-IsOrdered m hm) (tags_of-clean m hk),
)
