-- ===== src/Tags/Sort.antt =====
-- `TagSet.Sort` of internal/tags/tags.go: a sorting network for each length up to 8, and the
-- standard library's `sort.Sort` above that.
pub mod Network
pub mod Laws
pub mod Result
use gostats.Prelude.{
  ℕ, Bool, true, false, Option, none, some, List, [], ◌∷◌, leb, ◌==◌, if◌then◌else◌, length,
  get_elem?, set, Run, ret, panic, ◌>>=◌, ◌≡◌, refl,
}
use gostats.Bytes.{less, codes}
use gostats.Tags.{Tag, TagSet, key_less}

-- `t[i], t[j] = t[j], t[i]`; an index out of range panics.
unfoldable pub swap : TagSet → ℕ → ℕ → Run TagSet
swap t i j = elim (get_elem? t i) [
  | none ↦ panic
  | some a ↦ elim (get_elem? t j) [ none ↦ panic | some b ↦ ret (set (set t i b) j a) ]
]

unfoldable pub cas : TagSet → ℕ → ℕ → Run TagSet
unfolding swap
cas t i j = elim (get_elem? t i) [
  | none ↦ panic
  | some a ↦ elim (get_elem? t j) [
    | none ↦ panic
    | some b ↦ if less b.key a.key then swap t i j else ret t
  ]
]

-- The calls of `cas` in each case of the `switch`, in order.
abbrev pub network : ℕ → List (ℕ × ℕ)
network n =
    if n == 2
    then (0, 1) ∷ []
    else if n == 3
    then (1, 2) ∷ (0, 2) ∷ (0, 1) ∷ []
    else if n == 4
    then (0, 1) ∷ (2, 3) ∷ (0, 2) ∷ (1, 3) ∷ (1, 2) ∷ []
    else if n == 5
    then (0, 1) ∷ (3, 4) ∷ (2, 4) ∷ (2, 3) ∷ (0, 3) ∷ (0, 2) ∷ (1, 4) ∷ (1, 3) ∷ (1, 2) ∷ []
    else if n == 6
    then (1, 2)
      ∷ (0, 2)
      ∷ (0, 1)
      ∷ (4, 5)
      ∷ (3, 5)
      ∷ (3, 4)
      ∷ (0, 3)
      ∷ (1, 4)
      ∷ (2, 5)
      ∷ (2, 4)
      ∷ (1, 3)
      ∷ (2, 3)
      ∷ []
    else if n == 7
    then (1, 2)
      ∷ (0, 2)
      ∷ (0, 1)
      ∷ (3, 4)
      ∷ (5, 6)
      ∷ (3, 5)
      ∷ (4, 6)
      ∷ (4, 5)
      ∷ (0, 4)
      ∷ (0, 3)
      ∷ (1, 5)
      ∷ (2, 6)
      ∷ (2, 5)
      ∷ (1, 3)
      ∷ (2, 4)
      ∷ (2, 3)
      ∷ []
    else if n == 8
    then (0, 1)
      ∷ (2, 3)
      ∷ (0, 2)
      ∷ (1, 3)
      ∷ (1, 2)
      ∷ (4, 5)
      ∷ (6, 7)
      ∷ (4, 6)
      ∷ (5, 7)
      ∷ (5, 6)
      ∷ (0, 4)
      ∷ (1, 5)
      ∷ (1, 4)
      ∷ (2, 6)
      ∷ (3, 7)
      ∷ (3, 6)
      ∷ (2, 4)
      ∷ (3, 5)
      ∷ (3, 4)
      ∷ []
    else []

unfoldable pub run_network : List (ℕ × ℕ) → TagSet → Run TagSet
unfolding cas
run_network [] t = ret t
run_network ((i, j) ∷ ops) t = do u ← cas t i j; run_network ops u

-- The standard library's `sort.Sort` by `Less`, as an insertion sort. Which of two tags with one key
-- comes first is not documented; here it is the first.
unfoldable pub insert_sorted : Tag → TagSet → TagSet
insert_sorted p [] = p ∷ []
insert_sorted p (q ∷ t) = if key_less q p then q ∷ insert_sorted p t else p ∷ q ∷ t

unfoldable pub sort_sort : TagSet → TagSet
unfolding insert_sorted
sort_sort [] = []
sort_sort (p ∷ t) = insert_sorted p (sort_sort t)

unfoldable pub sort : TagSet → Run TagSet
sort t =
    if leb (length t) 1
    then ret t
    else if leb (length t) 8
    then run_network (network (length t)) t
    else ret (sort_sort t)
