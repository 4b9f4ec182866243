-- ===== src/Tags/Search/Laws.antt =====
-- `Contains` and `Insert` against the finite map that a set of tags stands for.
use gostats.Prelude.{
  ℕ, suc, ◌≡◌, refl, ◌∙◌, ap, Bool, true, false, Option, none, some, [], ◌∷◌, arith, if◌then◌else◌,
  Bool-cases, inl, inr, length, suc-==_zero, All, All-map, ret,
}
use gostats.Bytes.{
  Bytes, beq, beq_refl, beq→eq, beq_sym, less, less-ne, less_trans, less_total, less_asym,
  less_cotrans,
}
use gostats.Tags.{Tag, TagSet, key_less, IsSorted, IsOrdered}
use gostats.Tags.Search.{is_key_at, contains, insert_at, insert}
use gostats.Tags.Search.Bound.{rank, search-rank}

-- The value of a key in a set of tags.
abbrev pub find : Bytes → TagSet → Option Bytes
find k [] = none
find k (q ∷ t) = if beq q.key k then some q.value else find k t

abbrev pub is_some : Option Bytes → Bool
is_some none = false
is_some (some v) = true

-- `t` with the value of the key of `p` set to that of `p`.
abbrev pub place : Tag → TagSet → TagSet
place p [] = p ∷ []
place p (q ∷ t) =
    if less q.key p.key then q ∷ place p t else if beq q.key p.key then p ∷ t else p ∷ q ∷ t

pub IsSorted-of_IsOrdered : (t : TagSet) → IsOrdered t → IsSorted t
IsSorted-of_IsOrdered [] h = tt
IsSorted-of_IsOrdered (p ∷ t) (above, h) = (
  All-map (λ q. key_less p q ≡ true) (λ q. key_less q p ≡ false) t (λ q e. less_asym p.key q.key e)
      above,
  IsSorted-of_IsOrdered t h,
)

-- A key below those of a set does not occur in it.
pub find-none : (k : Bytes) (t : TagSet) → All (λ q. less k q.key ≡ true) t → find k t ≡ none
find-none k [] h = refl
find-none k (q ∷ t) (e, h) = rw (beq_sym q.key k ∙ less-ne k q.key e) (find-none k t h)

is_key_at-rank :
    (k : Bytes) (t : TagSet) → IsSorted t → is_key_at t (rank k t) k ≡ is_some (find k t)
unfolding is_key_at
is_key_at-rank k [] s = refl
is_key_at-rank k (q ∷ t) (below, s) = elim (Bool-cases (less q.key k)) [
  | inl e ↦ rw (e, less-ne q.key k e) (is_key_at-rank k t s)
  | inr e ↦ rw e (elim (Bool-cases (beq q.key k)) [
    | inl g ↦ rw g
    | inr g ↦
        let k_less = less_total q.key k e g in
        let after : All (λ r. less k r.key ≡ true) t =
          All-map (λ r. key_less r q ≡ false) (λ r. less k r.key ≡ true) t
            (λ r h. less_cotrans k r.key q.key k_less h) below in
        rw (g, find-none k t after)
  ])
]

insert_at-suc : (p q : Tag) (t : TagSet) (i : ℕ) → insert_at (q ∷ t) (suc i) p ≡ q ∷ insert_at t i p
unfolding insert_at
insert_at-suc p q t i = ground arith

insert_at-rank : (p : Tag) (t : TagSet) → insert_at t (rank p.key t) p ≡ place p t
unfolding insert_at
insert_at-rank p [] = refl
insert_at-rank p (q ∷ t) = elim (Bool-cases (less q.key p.key)) [
  | inl e ↦ rw e (insert_at-suc p q t (rank p.key t) ∙ ap (◌∷◌ q) (insert_at-rank p t))
  | inr e ↦ rw e (ground (arith, beq→eq q.key p.key, beq→eq q.value p.value))
]

place-All : (P : Tag → Type 0) (p : Tag) (t : TagSet) → P p → All P t → All P (place p t)
place-All P p [] hp h = (hp, tt)
place-All P p (q ∷ t) hp (hq, h) = elim (Bool-cases (less q.key p.key)) [
  | inl e ↦ rw e (hq, place-All P p t hp h)
  | inr e ↦
      rw e
        (elim (Bool-cases (beq q.key p.key)) [ inl g ↦ rw g (hp, h) | inr g ↦ rw g (hp, (hq, h)) ])
]

pub place-IsOrdered : (p : Tag) (t : TagSet) → IsOrdered t → IsOrdered (place p t)
place-IsOrdered p [] h = (tt, tt)
place-IsOrdered p (q ∷ t) (above, h) = elim (Bool-cases (less q.key p.key)) [
  | inl e ↦ rw e (place-All (λ r. key_less q r ≡ true) p t e above, place-IsOrdered p t h)
  | inr e ↦ rw e (elim (Bool-cases (beq q.key p.key)) [
    | inl g ↦ rw g (rw (beq→eq q.key p.key g) at above, h)
    | inr g ↦
        let p_less = less_total q.key p.key e g in
        rw g (
          (
            p_less,
            All-map (λ r. key_less q r ≡ true) (λ r. key_less p r ≡ true) t
                (λ r k. less_trans p.key q.key r.key p_less k) above,
          ),
          (above, h),
        )
  ])
]

pub find-place :
    (p : Tag) (t : TagSet) (k : Bytes)
    → find k (place p t) ≡ (if beq p.key k then some p.value else find k t)
find-place p [] k = refl
find-place p (q ∷ t) k =
    ground
      (arith, find-place p t k, less-ne q.key p.key, beq→eq q.key p.key, beq→eq p.key k, beq_refl k)

-- On a sorted set `Contains` returns whether some tag has the key, and does not panic.
pub contains-find : (t : TagSet) (k : Bytes) → IsSorted t → contains t k ≡ ret (is_some (find k t))
unfolding contains
contains-find [] k s = refl
contains-find (q ∷ t) k s =
    rw (suc-==_zero (length t), search-rank (q ∷ t) k s) (ap ret (is_key_at-rank k (q ∷ t) s))

pub insert-place : (t : TagSet) (p : Tag) → IsSorted t → insert t p ≡ ret (place p t)
unfolding insert
insert-place [] p s = refl
insert-place (q ∷ t) p s =
    rw (suc-==_zero (length t), search-rank (q ∷ t) p.key s) (ap ret (insert_at-rank p (q ∷ t)))

-- On an ordered set `Insert` does not panic: it returns an ordered set in which the key of the new tag
-- has the new value, and every other key the value that it had.
pub insert-find :
    (t : TagSet) (p : Tag)
    → IsOrdered t
    → (u : TagSet) × (insert t p ≡ ret u)
      × IsOrdered u
      × ((k : Bytes) → find k u ≡ (if beq p.key k then some p.value else find k t))
insert-find t p h =
    (place p t, insert-place t p (IsSorted-of_IsOrdered t h), place-IsOrdered p t h, find-place p t)
