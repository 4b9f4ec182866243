-- ===== src/Tags/Serialize/Laws.antt =====
-- `SerializeTags` of internal/tags/tags.go beside `NewTagSet` and `Serialize`.
use gostats.Prelude.{
  ℕ, ◌+◌, ◌-◌, ◌≤◌, ◌≡◌, refl, sym, ◌∙◌, ap, subst, [], ◌∷◌, ◌++◌, append-nil, append_assoc, arith,
  ◌==◌, suc-==_zero, if◌then◌else◌, length, SameItems, ret,
}
use gostats.Bytes.{Bytes, beq}
use gostats.Tags.{Tag, TagMap, TagSet, zero_tag, new_tag, HasUniqueKeys}
use gostats.Tags.Sort.{network, run_network, sort_sort}
use gostats.Tags.Sort.Laws.{Sorts, network-IsNetwork, run_network-Sorts}
use gostats.Tags.Sort.Result.{Sorts-ret, sort-eq_of_SameItems}
use gostats.Tags.Build.{
  valid_tags, new_tag_set, IsMap, tags_of, new_tag_set-tags_of, valid_tags-HasUniqueKeys,
  tally-valid_tags,
}
use gostats.Tags.Serialize.{
  write_tags, serialize, num_valid, first_tag, last_two, last_three, last_four, in_order,
  order_three, order_four, tag_text, tags_text, serialize_tags,
}

write_tags-tags_text : (t : TagSet) (b : Bytes) → write_tags t b ≡ b ++ tags_text t
unfolding write_tags
write_tags-tags_text [] b = sym (append-nil b)
write_tags-tags_text (p ∷ t) b = simp (write_tags-tags_text t, append_assoc)

pub serialize-tags_text : (t : TagSet) (name : Bytes) → serialize t name ≡ name ++ tags_text t
unfolding serialize
serialize-tags_text [] name = sym (append-nil name)
serialize-tags_text (p ∷ t) name = rw (suc-==_zero (length t)) (write_tags-tags_text (p ∷ t) name)

length-valid_tags : (m : TagMap) → length (valid_tags m) ≤ length m
unfolding valid_tags
length-valid_tags [] = omega arith
length-valid_tags ((k, v) ∷ m) = ground (arith, length-valid_tags m)

num_valid-length :
    (n : ℕ) (m : TagMap) → length m ≤ n → num_valid n m + length m ≡ n + length (valid_tags m)
unfolding num_valid valid_tags
num_valid-length n [] h = refl
num_valid-length n ((k, v) ∷ m) h = ground (arith, num_valid-length (n - 1) m, num_valid-length n m)

-- The loops over the map move the valid tags through the variables.
abbrev push_two : TagSet → Tag × Tag → Tag × Tag
push_two [] s = s
push_two (p ∷ t) (t0, t1) = push_two t (p, t0)

abbrev push_three : TagSet → Tag × Tag × Tag → Tag × Tag × Tag
push_three [] s = s
push_three (p ∷ t) (t0, t1, t2) = push_three t (p, t0, t1)

abbrev push_four : TagSet → Tag × Tag × Tag × Tag → Tag × Tag × Tag × Tag
push_four [] s = s
push_four (p ∷ t) (t0, t1, t2, t3) = push_four t (p, t0, t1, t2)

last_two-push : (m : TagMap) (s : Tag × Tag) → last_two s m ≡ push_two (valid_tags m) s
unfolding last_two valid_tags
last_two-push [] s = refl
last_two-push ((k, v) ∷ m) (t0, t1) =
    ground (arith, last_two-push m (t0, t1), last_two-push m (new_tag k v, t0))

last_three-push : (m : TagMap) (s : Tag × Tag × Tag) → last_three s m ≡ push_three (valid_tags m) s
unfolding last_three valid_tags
last_three-push [] s = refl
last_three-push ((k, v) ∷ m) (t0, t1, t2) =
    ground (arith, last_three-push m (t0, t1, t2), last_three-push m (new_tag k v, t0, t1))

last_four-push :
    (m : TagMap) (s : Tag × Tag × Tag × Tag) → last_four s m ≡ push_four (valid_tags m) s
unfolding last_four valid_tags
last_four-push [] s = refl
last_four-push ((k, v) ∷ m) (t0, t1, t2, t3) =
    ground (arith, last_four-push m (t0, t1, t2, t3), last_four-push m (new_tag k v, t0, t1, t2))

first_tag-valid : (m : TagMap) (a : Tag) (t : TagSet) → valid_tags m ≡ a ∷ t → first_tag m ≡ a
unfolding first_tag valid_tags
first_tag-valid [] a t h = cc
first_tag-valid ((k, v) ∷ m) a t h = ground (arith, first_tag-valid m a t)

-- What the network of a length makes of the tags in any order is the ordered set.
network_result :
    (v w r : TagSet)
    → HasUniqueKeys w
    → SameItems v w
    → 2 ≤ length v
    → length v ≤ 8
    → run_network (network (length v)) v ≡ ret r
    → r ≡ sort_sort w
network_result v w r unique same lo hi e =
    let sorts : Sorts v (ret r) =
      subst (Sorts v) e
        (run_network-Sorts (network (length v)) v (network-IsNetwork (length v) lo hi)) in
    let same_result = (Sorts-ret w (ret r) unique (sorts.0, λ f. sorts.1 f ∙ same f)).0 in
    cc same_result

order_two-network :
    (p q : Tag)
    → run_network (network 2) (p ∷ q ∷ []) ≡ ret ((in_order p q).0 ∷ (in_order p q).1 ∷ [])
unfolding run_network in_order
order_two-network p q = ground arith

order_three-network :
    (p q r : Tag) → run_network (network 3) (p ∷ q ∷ r ∷ []) ≡ ret (order_three (p, q, r))
unfolding run_network order_three
order_three-network p q r = ground arith

order_four-network :
    (p q r s : Tag) → run_network (network 4) (p ∷ q ∷ r ∷ s ∷ []) ≡ ret (order_four (p, q, r, s))
unfolding run_network order_four
order_four-network p q r s = ground arith

five_or_more :
    (n : ℕ) (s0 s1 s2 s3 s4 s : Bytes)
    → 5 ≤ n
    → (if n == 0
        then s0
        else if n == 1
        then s1
        else if n == 2
        then s2
        else if n == 3
        then s3
        else if n == 4
        then s4
        else s)
      ≡ s
five_or_more n s0 s1 s2 s3 s4 s h = ground arith

-- The text of the tags for each number of valid pairs.
by_count :
    (name : Bytes) (m : TagMap) (w : TagSet)
    → valid_tags m ≡ w
    → num_valid (length m) m ≡ length w
    → HasUniqueKeys w
    → serialize_tags name m ≡ name ++ tags_text (sort_sort w)
unfolding serialize_tags
by_count name m [] e n u = rw n (unfold sort_sort in sym (append-nil name))
by_count name m (a ∷ []) e n u =
    rw (n, first_tag-valid m a [] e)
      (unfold sort_sort in ap (λ t. name ++ t) (sym (append-nil (tag_text a))))
by_count name m (a ∷ b ∷ []) e n u =
    rw (n, last_two-push m (zero_tag, zero_tag), e)
      (ap (λ t. name ++ tags_text t)
        (network_result (b ∷ a ∷ []) (a ∷ b ∷ []) _ u (λ f. omega arith) (omega arith) (omega arith)
          (order_two-network b a)))
by_count name m (a ∷ b ∷ c ∷ []) e n u =
    rw (n, last_three-push m (zero_tag, zero_tag, zero_tag), e)
      (ap (λ t. name ++ tags_text t)
        (network_result (c ∷ b ∷ a ∷ []) (a ∷ b ∷ c ∷ []) _ u (λ f. omega arith) (omega arith)
          (omega arith) (order_three-network c b a)))
by_count name m (a ∷ b ∷ c ∷ d ∷ []) e n u =
    rw (n, last_four-push m (zero_tag, zero_tag, zero_tag, zero_tag), e)
      (ap (λ t. name ++ tags_text t)
        (network_result (d ∷ c ∷ b ∷ a ∷ []) (a ∷ b ∷ c ∷ d ∷ []) _ u (λ f. omega arith)
          (omega arith) (omega arith) (order_four-network d c b a)))
by_count name m (a ∷ b ∷ c ∷ d ∷ f ∷ w) e n u =
    five_or_more (num_valid (length m) m) _ _ _ _ _ _ (omega (arith, n))
    ∙ ap (λ t. write_tags (sort_sort t) name) e
    ∙ write_tags-tags_text (sort_sort (a ∷ b ∷ c ∷ d ∷ f ∷ w)) name

pub serialize_tags-tags_text :
    (name : Bytes) (m : TagMap) → IsMap m → serialize_tags name m ≡ name ++ tags_text (tags_of m)
serialize_tags-tags_text name m h =
    by_count name m (valid_tags m) refl
      (omega (arith, num_valid-length (length m) m, length-valid_tags m))
      (valid_tags-HasUniqueKeys m h)

-- For every map, whatever the number of its pairs, `SerializeTags` writes what `Serialize` writes for the
-- set that `NewTagSet` makes of the map.
pub serialize_tags-serialize :
    (name : Bytes) (m : TagMap)
    → IsMap m
    → (u : TagSet) × (new_tag_set m ≡ ret u) × (serialize_tags name m ≡ serialize u name)
serialize_tags-serialize name m h = (
  tags_of m,
  new_tag_set-tags_of m h,
  serialize_tags-tags_text name m h ∙ sym (serialize-tags_text (tags_of m) name),
)

pub tags_of-eq_of_SameItems : (m n : TagMap) → IsMap m → SameItems m n → tags_of m ≡ tags_of n
tags_of-eq_of_SameItems m n h same =
    let same_tags : SameItems (valid_tags m) (valid_tags n) =
      λ p. tally-valid_tags p m ∙ same _ ∙ sym (tally-valid_tags p n) in
    let unique = valid_tags-HasUniqueKeys m h in
    let unique_n : HasUniqueKeys (valid_tags n) =
      λ k. omega (arith, unique k, same_tags (λ q. beq k q.key)) in
    let (sorts, em) = sort-eq_of_SameItems (valid_tags m) (valid_tags n) unique same_tags in
    let en = (sort-eq_of_SameItems (valid_tags n) (valid_tags n) unique_n (λ p. refl)).1 in
    cc (sorts, em, en)

-- The text does not depend on the order in which the map is visited.
pub serialize_tags-eq_of_SameItems :
    (name : Bytes) (m n : TagMap)
    → IsMap m
    → SameItems m n
    → serialize_tags name m ≡ serialize_tags name n
serialize_tags-eq_of_SameItems name m n h same =
    let map_n : IsMap n = λ k. omega (arith, h k, same (λ e. beq k e.0)) in
    serialize_tags-tags_text name m h
    ∙ ap (λ t. name ++ tags_text t) (tags_of-eq_of_SameItems m n h same)
    ∙ sym (serialize_tags-tags_text name n map_n)
