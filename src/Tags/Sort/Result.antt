-- ===== src/Tags/Sort/Result.antt =====
-- `Sort` for every length, and the one result that it has when no key occurs twice.
use gostats.Prelude.{
  ◌+◌, ◌<◌, ◌≤◌, ◌≡◌, refl, sym, ◌∙◌, ap, ap₂, true, false, [], ◌∷◌, arith, leb, leb→le, Bool-cases,
  inl, inr, length, All, All-map, tally, one_if, SameItems, Run, ret, panic,
}
use gostats.Bytes.{less_asym, le-less_trans, beq, beq_refl, less_total, beq_sym, beq→eq}
use gostats.Tags.{Tag, TagSet, key_less, tag_eq, IsSorted, IsOrdered, HasUniqueKeys}
use gostats.Tags.Sort.{network, insert_sorted, sort_sort, sort}
use gostats.Tags.Sort.Laws.{Sorts, network-IsNetwork, run_network-Sorts}

insert_sorted-SameItems : (p : Tag) (t : TagSet) → SameItems (insert_sorted p t) (p ∷ t)
unfolding insert_sorted
insert_sorted-SameItems p [] f = refl
insert_sorted-SameItems p (q ∷ t) f = elim (Bool-cases (key_less q p)) [
  | inl e ↦ rw e (omega (arith, insert_sorted-SameItems p t f))
  | inr e ↦ rw e
]

insert_sorted-All :
    (P : Tag → Type 0) (p : Tag) (t : TagSet) → P p → All P t → All P (insert_sorted p t)
unfolding insert_sorted
insert_sorted-All P p [] hp h = (hp, tt)
insert_sorted-All P p (q ∷ t) hp (hq, h) = elim (Bool-cases (key_less q p)) [
  | inl e ↦ rw e (hq, insert_sorted-All P p t hp h)
  | inr e ↦ rw e (hp, (hq, h))
]

-- Keys not below `q` are not below a tag `p` that `q` is not below.
not_below :
    (p q : Tag) (t : TagSet)
    → key_less q p ≡ false
    → All (λ r. key_less r q ≡ false) t
    → All (λ r. key_less r p ≡ false) t
not_below p q t e h =
    All-map _ _ t
      (λ r k. elim (Bool-cases (key_less r p)) [
        | inl g ↦ ground (arith, le-less_trans q.key r.key p.key)
        | inr g ↦ g
      ])
      h

insert_sorted-IsSorted : (p : Tag) (t : TagSet) → IsSorted t → IsSorted (insert_sorted p t)
unfolding insert_sorted
insert_sorted-IsSorted p [] h = (tt, tt)
insert_sorted-IsSorted p (q ∷ t) (hq, h) = elim (Bool-cases (key_less q p)) [
  | inl e ↦ rw e (
    insert_sorted-All (λ r. key_less r q ≡ false) p t (less_asym q.key p.key e) hq,
    insert_sorted-IsSorted p t h,
  )
  | inr e ↦ rw e ((e, not_below p q t e hq), (hq, h))
]

pub sort_sort-Sorts : (t : TagSet) → Sorts t (ret (sort_sort t))
unfolding sort_sort
sort_sort-Sorts [] = (tt, λ f. refl)
sort_sort-Sorts (p ∷ t) =
    let (sorted, same) = sort_sort-Sorts t in
    (
      insert_sorted-IsSorted p (sort_sort t) sorted,
      λ f. insert_sorted-SameItems p (sort_sort t) f ∙ ap (λ n. one_if (f p) + n) (same f),
    )

IsSorted-short : (t : TagSet) → length t ≤ 1 → IsSorted t
IsSorted-short [] h = tt
IsSorted-short (p ∷ []) h = (tt, tt)
IsSorted-short (p ∷ q ∷ t) h = absurd (omega arith)

-- `Sort` never panics, and returns the same tags with no smaller key behind a greater one, for every
-- number of tags and also where keys are repeated.
pub sort-Sorts : (t : TagSet) → Sorts t (sort t)
unfolding sort
sort-Sorts t = elim (Bool-cases (leb (length t) 1)) [
  | inl e ↦ rw e (IsSorted-short t (leb→le _ _ e), λ f. refl)
  | inr e ↦ rw e (elim (Bool-cases (leb (length t) 8)) [
    | inl g ↦ rw g (
        run_network-Sorts (network (length t)) t
          (network-IsNetwork (length t) (ground arith) (ground arith)))
    | inr g ↦ rw g (sort_sort-Sorts t)
  ])
]

pub tag_eq_refl : (p : Tag) → tag_eq p p ≡ true
tag_eq_refl p = rw (beq_refl p.key, beq_refl p.value)

pub tag_eq→eq : (p q : Tag) → tag_eq p q ≡ true → p ≡ q
tag_eq→eq p q h = ground (arith, beq→eq p.key q.key, beq→eq p.value q.value)

-- A tag that occurs in a list of tags has the property that all of them have.
pub All-tally : (P : Tag → Type 0) (p : Tag) (t : TagSet) → All P t → 0 < tally (tag_eq p) t → P p
All-tally P p [] h lt = absurd (omega arith)
All-tally P p (q ∷ t) (hq, h) lt = elim (Bool-cases (tag_eq p q)) [
  | inl e ↦ rw (tag_eq→eq p q e) hq
  | inr e ↦ All-tally P p t h (omega (arith, rw e at lt))
]

-- The least tags of two ordered sets of the same tags are equal.
heads-eq :
    (p q : Tag) (t u : TagSet)
    → IsOrdered (p ∷ t)
    → IsOrdered (q ∷ u)
    → SameItems (p ∷ t) (q ∷ u)
    → p ≡ q
heads-eq p q t u (below_p, ht) (below_q, hu) same = elim (Bool-cases (tag_eq p q)) [
  | inl e ↦ tag_eq→eq p q e
  | inr e ↦ elim (Bool-cases (tag_eq q p)) [
    | inl g ↦ sym (tag_eq→eq q p g)
    | inr g ↦
        let in_u : 0 < tally (tag_eq p) u =
          omega (arith, rw (tag_eq_refl p, e) at (same (tag_eq p))) in
        let in_t : 0 < tally (tag_eq q) t =
          omega (arith, rw (tag_eq_refl q, g) at (same (tag_eq q))) in
        let q_less_p = All-tally (λ r. key_less q r ≡ true) p u below_q in_u in
        let p_less_q = All-tally (λ r. key_less p r ≡ true) q t below_p in_t in
        ground (arith, less_asym q.key p.key)
  ]
]

-- Two ordered sets of the same tags are equal.
pub IsOrdered-eq : (t u : TagSet) → IsOrdered t → IsOrdered u → SameItems t u → t ≡ u
IsOrdered-eq [] [] ht hu same = refl
IsOrdered-eq [] (q ∷ u) ht hu same = absurd (omega (arith, rw (tag_eq_refl q) at (same (tag_eq q))))
IsOrdered-eq (p ∷ t) [] ht hu same = absurd (omega (arith, rw (tag_eq_refl p) at (same (tag_eq p))))
IsOrdered-eq (p ∷ t) (q ∷ u) ht hu same =
    let heads = heads-eq p q t u ht hu same in
    let tails : SameItems t u = λ f. omega (arith, same f, ap (λ r. one_if (f r)) heads) in
    ap₂ ◌∷◌ heads (IsOrdered-eq t u ht.1 hu.1 tails)

HasUniqueKeys-tail : (p : Tag) (t : TagSet) → HasUniqueKeys (p ∷ t) → HasUniqueKeys t
HasUniqueKeys-tail p t h k = omega (arith, h k)

-- A key that no tag of `t` has again is smaller than the others that are not smaller.
keys_differ :
    (p : Tag) (t : TagSet)
    → tally (λ q. beq p.key q.key) t ≡ 0
    → All (λ q. key_less q p ≡ false) t
    → All (λ q. key_less p q ≡ true) t
keys_differ p [] h s = tt
keys_differ p (q ∷ t) h (e, s) = elim (Bool-cases (beq p.key q.key)) [
  | inl g ↦ absurd (omega (arith, rw g at h))
  | inr g ↦ (
    less_total q.key p.key e (beq_sym q.key p.key ∙ g),
    keys_differ p t (omega (arith, rw g at h)) s,
  )
]

-- Sorted tags with unique keys are ordered.
pub IsOrdered-of_IsSorted : (t : TagSet) → IsSorted t → HasUniqueKeys t → IsOrdered t
IsOrdered-of_IsSorted [] s u = tt
IsOrdered-of_IsSorted (p ∷ t) (below, s) u =
    let alone : tally (λ q. beq p.key q.key) t ≡ 0 =
      omega (arith, rw (beq_refl p.key) at (u p.key)) in
    (keys_differ p t alone below, IsOrdered-of_IsSorted t s (HasUniqueKeys-tail p t u))

-- Every run that sorts tags with unique keys returns the same ordered set.
pub Sorts-ret :
    (t : TagSet) (r : Run TagSet)
    → HasUniqueKeys t
    → Sorts t r
    → (r ≡ ret (sort_sort t)) × IsOrdered (sort_sort t)
Sorts-ret t panic u s = absurd s
Sorts-ret t (ret v) u (sorted, same) =
    let (sorted', same') = sort_sort-Sorts t in
    let ordered : IsOrdered v =
      IsOrdered-of_IsSorted v sorted (λ k. omega (arith, u k, same (λ q. beq k q.key))) in
    let ordered' : IsOrdered (sort_sort t) =
      IsOrdered-of_IsSorted _ sorted' (λ k. omega (arith, u k, same' (λ q. beq k q.key))) in
    (ap ret (IsOrdered-eq v (sort_sort t) ordered ordered' (λ f. same f ∙ sym (same' f))), ordered')

-- Where no key occurs twice, `Sort` returns one ordered set, which is that of `sort.Sort`, whatever
-- order the tags stand in.
pub sort-eq_of_SameItems :
    (t u : TagSet)
    → HasUniqueKeys t
    → SameItems t u
    → (sort t ≡ sort u) × (sort t ≡ ret (sort_sort t))
sort-eq_of_SameItems t u unique same =
    let unique_u : HasUniqueKeys u = λ k. omega (arith, unique k, same (λ q. beq k q.key)) in
    let (et, ot) = Sorts-ret t (sort t) unique (sort-Sorts t) in
    let (eu, ou) = Sorts-ret u (sort u) unique_u (sort-Sorts u) in
    let st = sort_sort-Sorts t in
    let su = sort_sort-Sorts u in
    let e = IsOrdered-eq _ _ ot ou (λ f. st.1 f ∙ same f ∙ sym (su.1 f)) in
    (et ∙ ap ret e ∙ sym eu, et)
