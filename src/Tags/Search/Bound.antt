-- ===== src/Tags/Search/Bound.antt =====
-- `Search` of internal/tags/tags.go on a sorted set, and the number of tags whose keys are smaller.
use gostats.Prelude.{
  ℕ, zero, suc, ◌+◌, ◌-◌, ◌/◌, ◌≤◌, ◌≡◌, ap, false, some, [], ◌∷◌, arith, ltb, ltb→lt, le→ltb,
  if◌then◌else◌, Bool-cases, inl, inr, length, subst, get_elem?, get_elem?-some, All, ret,
}
use gostats.Bytes.{Bytes, less, le-less_trans}
use gostats.Tags.{Tag, TagSet, key_less, IsSorted}
use gostats.Tags.Search.{search_loop, search}

-- How many tags stand before the first whose key is not below `k`.
abbrev pub rank : Bytes → TagSet → ℕ
rank k [] = 0
rank k (q ∷ t) = if less q.key k then suc (rank k t) else 0

pub rank-le : (k : Bytes) (t : TagSet) → rank k t ≤ length t
rank-le k [] = omega arith
rank-le k (q ∷ t) = ground (arith, rank-le k t)

All-get_elem? :
    (P : Tag → Type 0) (t : TagSet) (h : ℕ) (p : Tag) → All P t → get_elem? t h ≡ some p → P p
All-get_elem? P [] h p a e = absurd (cc)
All-get_elem? P (q ∷ t) zero p (a, _) e = let same : q ≡ p = cc in subst P same a
All-get_elem? P (q ∷ t) (suc h) p (_, a) e = All-get_elem? P t h p a e

-- In a sorted set the key at an index is below `k` exactly when the index is below the rank.
pub less-rank :
    (k : Bytes) (t : TagSet) (h : ℕ) (p : Tag)
    → IsSorted t
    → get_elem? t h ≡ some p
    → less p.key k ≡ ltb h (rank k t)
less-rank k [] h p s e = absurd (cc)
less-rank k (q ∷ t) zero p s e = ground arith
less-rank k (q ∷ t) (suc h) p (below, s) e =
    let after : key_less p q ≡ false = All-get_elem? (λ r. key_less r q ≡ false) t h p below e in
    elim (Bool-cases (less q.key k)) [
      | inl g ↦ rw (g, less-rank k t h p s e) (ground arith)
      | inr g ↦ rw g (ground (arith, le-less_trans q.key p.key k))
    ]

search_loop-rank :
    (fuel : ℕ) (t : TagSet) (k : Bytes) (i j : ℕ)
    → IsSorted t
    → i ≤ rank k t
    → rank k t ≤ j
    → j ≤ length t
    → j - i ≤ fuel
    → search_loop fuel t k i j ≡ ret (rank k t)
unfolding search_loop
search_loop-rank zero t k i j s lo hi fits enough =
    rw (le→ltb i j (omega arith)) (ap ret (omega arith))
search_loop-rank (suc fuel) t k i j s lo hi fits enough = elim (Bool-cases (ltb i j)) [
  | inr e ↦ rw (e, search_loop) (ap ret (ground arith))
  | inl e ↦
      let lt = ltb→lt i j e in
      let (p, ep) = get_elem?-some t ((i + j) / 2) (omega arith) in
      let split = less-rank k t ((i + j) / 2) p s ep in
      rw (e, search_loop)
        (rw (ep, search_loop)
          (elim (Bool-cases (less p.key k)) [
            | inl g ↦
                rw (g, search_loop)
                  (search_loop-rank fuel t k ((i + j) / 2 + 1) j s (ground arith) hi fits
                    (omega arith))
            | inr g ↦
                rw (g, search_loop)
                  (search_loop-rank fuel t k i ((i + j) / 2) s lo (ground arith) (omega arith)
                    (omega arith))
          ]))
]

-- On a sorted set `Search` ends within `len(t)` rounds, reads no index out of range, and returns the
-- number of leading tags whose keys are below the one sought.
pub search-rank : (t : TagSet) (k : Bytes) → IsSorted t → search t k ≡ ret (rank k t)
unfolding search
search-rank t k s =
    search_loop-rank (length t) t k 0 (length t) s (omega arith) (rank-le k t) (omega arith)
      (omega arith)
