-- ===== src/Tests/TagRuns.antt =====
-- Runs and instances for internal/tags/tags.go.
use gostats.Prelude.{◌≡◌, refl, false, [], ◌∷◌, ◌++◌, arith, All, ret}
use gostats.Bytes.{Bytes, beq, less, codes, index_sub, index_byte, count_sub}
use gostats.Tags.{
  Tag, TagMap, TagSet, zero_tag, replace_char, replace_chars, IsSorted, IsOrdered, HasUniqueKeys,
  new_tag,
}
use gostats.Tags.Sort.{sort, run_network}
use gostats.Tags.Sort.Laws.{Sorts}
use gostats.Tags.Sort.Result.{sort-Sorts}
use gostats.Tags.Search.{search, contains}
use gostats.Tags.Search.Bound.{rank, search-rank}
use gostats.Tags.Search.Laws.{find}
use gostats.Tags.Build.{new_tag_set, valid_tags, IsMap, tag_value}
use gostats.Tags.Merge.{merge_tag_sets, merge_tags}
use gostats.Tags.Merge.Union.{union, or_else}
use gostats.Tags.Merge.InPlace.{merge_tag_sets-union}
use gostats.Tags.Merge.Laws.{merge_tags-find}
use gostats.Tags.Serialize.{serialize, serialize_tags}
use gostats.Tags.Serialize.Laws.{serialize_tags-serialize, serialize_tags-eq_of_SameItems}
use gostats.Tags.Parse.{parse_tag_set}
use gostats.Tags.Parse.RoundTrip.{IsCleanTag, HasCleanKeys, parse_tag_set-serialize_tags}
use gostats.Tests.Distinct.{distinct, distinct_sound}

abbrev tag : Bytes → Bytes → Tag
tag k v = record { key = k; value = v }

abbrev letters : TagSet
letters =
    tag (codes "c") (codes "1") ∷ tag (codes "a") (codes "2") ∷ tag (codes "b") (codes "3") ∷ []

abbrev letters_back : TagSet
letters_back =
    tag (codes "b") (codes "3") ∷ tag (codes "a") (codes "2") ∷ tag (codes "c") (codes "1") ∷ []

abbrev ordered : TagSet
ordered = tag (codes "a") (codes "2") ∷ tag (codes "c") (codes "1") ∷ []

abbrev pairs : TagMap
pairs = (codes "zone", codes "x.y") ∷ (codes "a", codes "1") ∷ (codes "b", []) ∷ []

abbrev pairs_back : TagMap
pairs_back = (codes "b", []) ∷ (codes "a", codes "1") ∷ (codes "zone", codes "x.y") ∷ []

sort-letters :
    sort letters
    ≡ ret (
        tag (codes "a") (codes "2")
        ∷ tag (codes "b") (codes "3")
        ∷ tag (codes "c") (codes "1")
        ∷ [])
unfolding sort run_network less
sort-letters = refl

serialize_tags-pairs : serialize_tags (codes "n") pairs ≡ codes "n.__a=1.__zone=x_y"
unfolding serialize_tags less new_tag replace_chars replace_char
serialize_tags-pairs = refl

no_reserved :
    (replace_chars (codes "a.b:c|d") ≡ codes "a_b_c_d")
    × (serialize ordered (codes "n") ≡ codes "n.__a=2.__c=1")
unfolding serialize replace_chars replace_char
no_reserved = (refl, refl)

search-ordered : (search ordered (codes "b") ≡ ret 1) × (contains ordered (codes "b") ≡ ret false)
unfolding search contains less beq
search-ordered = (refl, refl)

merge-ordered :
    merge_tags ordered pairs
    ≡ ret (
        tag (codes "a") (codes "1")
        ∷ tag (codes "c") (codes "1")
        ∷ tag (codes "zone") (codes "x_y")
        ∷ [])
unfolding merge_tags sort run_network less beq new_tag replace_chars replace_char valid_tags
merge-ordered = refl

parse-line :
    parse_tag_set (codes "n.__zone=z.__a=1:5|c")
    ≡ ret (codes "n", tag (codes "a") (codes "1") ∷ tag (codes "zone") (codes "z") ∷ [])
unfolding parse_tag_set sort run_network less index_sub index_byte count_sub
parse-line = refl

letters-HasUniqueKeys : HasUniqueKeys letters
unfolding distinct beq
letters-HasUniqueKeys k = distinct_sound (λ (q : Tag). q.key) letters k refl

pairs-IsMap : IsMap pairs
unfolding distinct beq
pairs-IsMap k = distinct_sound (λ (e : Bytes × Bytes). e.0) pairs k refl

ordered-IsOrdered : IsOrdered ordered
unfolding less
ordered-IsOrdered = ((refl, tt), (tt, tt))

ordered-IsSorted : IsSorted ordered
unfolding less
ordered-IsSorted = ((refl, tt), (tt, tt))

pairs-HasCleanKeys : HasCleanKeys pairs
pairs-HasCleanKeys = (
  ((refl, (refl, (refl, (refl, tt)))), omega arith),
  (((refl, tt), omega arith), (((refl, tt), omega arith), tt)),
)

ordered-clean : All IsCleanTag ordered
ordered-clean =
    ((((refl, tt), omega arith), omega arith), ((((refl, tt), omega arith), omega arith), tt))

-- Instances of the theorems.

sort-Sorts_example : Sorts letters (sort letters)
sort-Sorts_example = sort-Sorts letters

search-rank_example : search ordered (codes "b") ≡ ret (rank (codes "b") ordered)
search-rank_example = search-rank ordered (codes "b") ordered-IsSorted

merge_tag_sets-union_example :
    merge_tag_sets ordered 2 2 ((zero_tag ∷ zero_tag ∷ []) ++ (ordered ++ zero_tag ∷ []))
    ≡ ret (union ordered ordered)
merge_tag_sets-union_example =
    merge_tag_sets-union ordered (zero_tag ∷ zero_tag ∷ []) ordered (zero_tag ∷ []) refl

merge_tags-find_example :
    (u : TagSet) × (merge_tags ordered pairs ≡ ret u)
    × IsOrdered u
    × ((k : Bytes) → find k u ≡ or_else (tag_value k pairs) (find k ordered))
merge_tags-find_example = merge_tags-find ordered pairs ordered-IsOrdered pairs-IsMap

serialize_tags-serialize_example :
    (u : TagSet) × (new_tag_set pairs ≡ ret u)
    × (serialize_tags (codes "n") pairs ≡ serialize u (codes "n"))
serialize_tags-serialize_example = serialize_tags-serialize (codes "n") pairs pairs-IsMap

serialize_tags-eq_of_SameItems_example :
    serialize_tags (codes "n") pairs ≡ serialize_tags (codes "n") pairs_back
serialize_tags-eq_of_SameItems_example =
    serialize_tags-eq_of_SameItems (codes "n") pairs pairs_back pairs-IsMap (λ p. omega arith)

parse_tag_set-serialize_tags_example :
    (u : TagSet) × (new_tag_set pairs ≡ ret u)
    × (parse_tag_set (serialize_tags (codes "n") pairs ++ b':' ∷ codes "1|c") ≡ ret (codes "n", u))
parse_tag_set-serialize_tags_example =
    parse_tag_set-serialize_tags (codes "n") (codes "1|c") pairs (refl, tt) pairs-IsMap
      pairs-HasCleanKeys (omega arith)
