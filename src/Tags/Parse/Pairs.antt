-- ===== src/Tags/Parse/Pairs.antt =====
-- `ParseTags` of internal/tags/tags.go on what `SerializeTags` writes.
use gostats.Prelude.{
  ◌≡◌, refl, ◌∙◌, ap, subst, true, Option, none, some, [], ◌∷◌, ◌++◌, map, append-nil, arith,
  if◌then◌else◌, Bool-cases, inl, inr, length, length-map, All,
}
use gostats.Bytes.{Bytes, beq, beq_refl, beq→eq, less, index_byte-append, count_sub, Lacks}
use gostats.Tags.{Tag, TagMap, TagSet, IsOrdered}
use gostats.Tags.Search.Laws.{find, find-none}
use gostats.Tags.Build.{get, IsMap, tag_value, tags_of, tags_of-IsOrdered, find-tags_of}
use gostats.Tags.Merge.Union.{or_else}
use gostats.Tags.Serialize.{tags_text, serialize_tags}
use gostats.Tags.Serialize.Laws.{serialize_tags-tags_text}
use gostats.Tags.Parse.{tag_sep, assign, read_pair, parse_pairs, split_tags, parse_tags}
use gostats.Tags.Parse.Segments.{
  HasNoSep, index_sub-append, index_sub-none, take_segment, drop_past, drop_equals, joined,
  count_sub-joined,
}
use gostats.Tags.Parse.Value.{remove_stat_value-append}
use gostats.Tags.Parse.RoundTrip.{
  IsCleanTag, HasCleanKeys, pair_text, pair-HasNoSep, pairs-HasNoSep, tags_text-joined,
  tags_of-clean,
}

get-assign :
    (k v j : Bytes) (m : TagMap) → get j (assign k v m) ≡ (if beq k j then some v else get j m)
unfolding assign
get-assign k v j [] = refl
get-assign k v j ((i, w) ∷ m) =
    ground (arith, get-assign k v j m, beq→eq i k, beq→eq k j, beq→eq i j, beq_refl k)

read_pair-pair :
    (p : Tag) (m : TagMap) → IsCleanTag p → read_pair (pair_text p) m ≡ assign p.key p.value m
unfolding read_pair
read_pair-pair p m (hk, hv) =
    rw (index_byte-append b'=' p.key p.value hk.1, read_pair)
      (rw (take_segment p.key (b'=' ∷ p.value), drop_equals p.key p.value) refl)

-- The pairs read so far are those of the set, or of the map before.
get-parse_pairs :
    (p : Tag) (t : TagSet) (m : TagMap) (k : Bytes)
    → IsOrdered (p ∷ t)
    → IsCleanTag p
    → All IsCleanTag t
    → get k (parse_pairs (length t) (joined (pair_text p) (map pair_text t)) m)
      ≡ or_else (find k (p ∷ t)) (get k m)
unfolding parse_pairs
get-parse_pairs p [] m k ho hp ht =
    ap (get k) (read_pair-pair p m hp) ∙ get-assign p.key p.value k m ∙ ground arith
get-parse_pairs p (q ∷ t) m k (above, ho) hp (hq, ht) =
    let rest : Bytes = joined (pair_text q) (map pair_text t) in
    let later = get-parse_pairs q t (assign p.key p.value m) k ho hq ht in
    rw (index_sub-append (pair_text p) rest (pair-HasNoSep p hp), parse_pairs)
      (rw
        (
          drop_past (pair_text p) rest,
          take_segment (pair_text p) (tag_sep ++ rest),
          read_pair-pair p m hp,
        )
        (later
          ∙ rw (get-assign p.key p.value k m) (elim (Bool-cases (beq p.key k)) [
            | inr e ↦ rw e
            | inl e ↦
                let same : p.key ≡ k = beq→eq p.key k e in
                let absent : find k (q ∷ t) ≡ none =
                  find-none k (q ∷ t)
                    (subst (λ j. All (λ r. less j r.key ≡ true) (q ∷ t)) same above) in
                rw (e, absent)
          ])))

-- `m[k]`, where the map may be nil.
abbrev pub get_nil : Bytes → Option TagMap → Option Bytes
get_nil k none = none
get_nil k (some m) = get k m

split_tags-tags_text :
    (name : Bytes) (t : TagSet)
    → HasNoSep name
    → IsOrdered t
    → All IsCleanTag t
    → (r : Option TagMap) × (split_tags (name ++ tags_text t) ≡ (name, r))
      × ((k : Bytes) → get_nil k r ≡ find k t)
unfolding split_tags
split_tags-tags_text name [] hn ho ht =
    (none, rw (append-nil name) (rw (index_sub-none name hn, split_tags)), λ k. refl)
split_tags-tags_text name (p ∷ t) hn ho (hp, ht) =
    let body : Bytes = joined (pair_text p) (map pair_text t) in
    let count : count_sub tag_sep body ≡ length t =
      count_sub-joined (pair_text p) (map pair_text t) (pair-HasNoSep p hp) (pairs-HasNoSep t ht)
      ∙ length-map pair_text t in
    (
      some (parse_pairs (length t) body []),
      rw (tags_text-joined p t) (
          rw (index_sub-append name body hn, split_tags)
            (rw (drop_past name body, take_segment name (tag_sep ++ body)) (rw count))),
      λ k. get-parse_pairs p t [] k ho hp ht ∙ ground arith,
    )

-- For a map with clean keys and any values, `ParseTags` reads from the stat line that `SerializeTags`
-- begins the name and a map with the same keys, less those whose key or value is empty, and with the
-- cleaned values.
pub parse_tags-serialize_tags :
    (name v : Bytes) (m : TagMap)
    → HasNoSep name
    → IsMap m
    → HasCleanKeys m
    → Lacks b':' v
    → (r : Option TagMap) × (parse_tags (serialize_tags name m ++ b':' ∷ v) ≡ (name, r))
      × ((k : Bytes) → get_nil k r ≡ tag_value k m)
unfolding parse_tags
parse_tags-serialize_tags name v m hn hm hk hv =
    let (r, e, values) =
      split_tags-tags_text name (tags_of m) hn (tags_of-IsOrdered m hm) (tags_of-clean m hk) in
    (
      r,
      ap split_tags (
            remove_stat_value-append (serialize_tags name m) v hv
            ∙ serialize_tags-tags_text name m hm)
          ∙ e,
      λ k. values k ∙ find-tags_of m k hm,
    )
