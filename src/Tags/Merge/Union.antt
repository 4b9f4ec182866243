-- ===== src/Tags/Merge/Union.antt =====
-- The union of two ordered sets of tags: what the merges compute.
use gostats.Prelude.{
  ◌≡◌, refl, sym, true, false, Option, none, some, [], ◌∷◌, arith, Bool-cases, inl, inr, All,
  All-map,
}
use gostats.Bytes.{Bytes, beq, beq→eq, less, less-ne, less_trans, less_total}
use gostats.Tags.{Tag, TagSet, key_less, IsOrdered}
use gostats.Tags.Search.Laws.{find, find-none, place}

-- All tags of both sets in order; of two tags with one key the second set's.
unfoldable pub union : TagSet → TagSet → TagSet
union [] u = u
union (p ∷ t) [] = p ∷ t
union (p ∷ t) (q ∷ u) = elim (beq p.key q.key) [
  | true ↦ q ∷ union t u
  | false ↦ elim (less p.key q.key) [ true ↦ p ∷ union t (q ∷ u) | false ↦ q ∷ union (p ∷ t) u ]
]

pub union-nil : (t : TagSet) → union t [] ≡ t
unfolding union
union-nil [] = refl
union-nil (p ∷ t) = refl

union-All : (P : Tag → Type 0) (t u : TagSet) → All P t → All P u → All P (union t u)
unfolding union
union-All P [] u ht hu = hu
union-All P (p ∷ t) [] ht hu = ht
union-All P (p ∷ t) (q ∷ u) (hp, ht) (hq, hu) = elim (Bool-cases (beq p.key q.key)) [
  | inl e ↦ rw (e, union) (hq, union-All P t u ht hu)
  | inr e ↦
      rw (e, union)
        (elim (Bool-cases (less p.key q.key)) [
          | inl g ↦ rw (g, union) (hp, union-All P t (q ∷ u) ht (hq, hu))
          | inr g ↦ rw (g, union) (hq, union-All P (p ∷ t) u (hp, ht) hu)
        ])
]

-- Keys above `q` are above `p` when `q` is.
pub above_trans :
    (p q : Tag) (t : TagSet)
    → key_less p q ≡ true
    → All (λ r. key_less q r ≡ true) t
    → All (λ r. key_less p r ≡ true) t
above_trans p q t e h =
    All-map (λ r. key_less q r ≡ true) (λ r. key_less p r ≡ true) t
      (λ r k. less_trans p.key q.key r.key e k) h

pub union-IsOrdered : (t u : TagSet) → IsOrdered t → IsOrdered u → IsOrdered (union t u)
unfolding union
union-IsOrdered [] u ht hu = hu
union-IsOrdered (p ∷ t) [] ht hu = ht
union-IsOrdered (p ∷ t) (q ∷ u) (ap_, ht) (aq, hu) = elim (Bool-cases (beq p.key q.key)) [
  | inl e ↦
      rw (e, union)
        (
          union-All (λ r. key_less q r ≡ true) t u (rw (beq→eq p.key q.key e) at ap_) aq,
          union-IsOrdered t u ht hu,
        )
  | inr e ↦
      rw (e, union)
        (elim (Bool-cases (less p.key q.key)) [
          | inl g ↦
              rw (g, union)
                (
                  union-All (λ r. key_less p r ≡ true) t (q ∷ u) ap_ (g, above_trans p q u g aq),
                  union-IsOrdered t (q ∷ u) ht (aq, hu),
                )
          | inr g ↦
              let k = less_total p.key q.key g e in
              rw (g, union)
                (
                  union-All (λ r. key_less q r ≡ true) (p ∷ t) u (k, above_trans q p t k ap_) aq,
                  union-IsOrdered (p ∷ t) u (ap_, ht) hu,
                )
        ])
]

-- The first value that is there.
abbrev pub or_else : Option Bytes → Option Bytes → Option Bytes
or_else none o = o
or_else (some v) o = some v

pub or_else-none : (o : Option Bytes) → or_else o none ≡ o
or_else-none none = refl
or_else-none (some v) = refl

pub find-union :
    (t u : TagSet) (k : Bytes)
    → IsOrdered t
    → IsOrdered u
    → find k (union t u) ≡ or_else (find k u) (find k t)
unfolding union
find-union [] u k ht hu = sym (or_else-none (find k u))
find-union (p ∷ t) [] k ht hu = refl
find-union (p ∷ t) (q ∷ u) k (ap_, ht) (aq, hu) = elim (Bool-cases (beq p.key q.key)) [
  | inl e ↦ rw (e, union) (ground (arith, find-union t u k ht hu, beq→eq p.key q.key))
  | inr e ↦
      rw (e, union)
        (elim (Bool-cases (less p.key q.key)) [
          | inl g ↦
              rw (g, union)
                (elim (Bool-cases (beq p.key k)) [
                  | inl h ↦
                      let same : p.key ≡ k = beq→eq p.key k h in
                      let absent : find k (q ∷ u) ≡ none =
                        find-none k (q ∷ u) (rw same at g, rw same at (above_trans p q u g aq)) in
                      rw (h, absent)
                  | inr h ↦ rw h (find-union t (q ∷ u) k ht (aq, hu))
                ])
          | inr g ↦ rw (g, union) (ground (arith, find-union (p ∷ t) u k (ap_, ht) hu))
        ])
]

-- Inserting one tag is a union with one tag.
pub place-union : (p : Tag) (t : TagSet) → place p t ≡ union t (p ∷ [])
unfolding union
place-union p [] = refl
place-union p (q ∷ t) = ground (arith, place-union p t, less-ne q.key p.key, union-nil t)
