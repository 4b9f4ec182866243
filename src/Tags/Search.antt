-- ===== src/Tags/Search.antt =====
-- `Search`, `Contains` and `Insert` of internal/tags/tags.go.
pub mod Bound
pub mod Laws
use gostats.Prelude.{
  ℕ, zero, suc, ◌+◌, ◌/◌, Bool, true, false, Option, none, some, List, [], ◌∷◌, ◌++◌, ltb, ◌==◌,
  if◌then◌else◌, length, get_elem?, set, take, drop, Run, ret, panic, ◌>>=◌, ◌≡◌, refl,
}
use gostats.Bytes.{Bytes, beq, less, codes}
use gostats.Tags.{Tag, TagSet}

-- The loop `for i < j`, on fuel; an index out of range and running out of fuel both end in `panic`.
unfoldable pub search_loop : ℕ → TagSet → Bytes → ℕ → ℕ → Run ℕ
search_loop zero t key i j = if ltb i j then panic else ret i
search_loop (suc fuel) t key i j =
    let h = (i + j) / 2 in
    elim (ltb i j) [
      | false ↦ ret i
      | true ↦ elim (get_elem? t h) [
        | none ↦ panic
        | some p ↦ elim (less p.key key) [
          | true ↦ search_loop fuel t key (h + 1) j
          | false ↦ search_loop fuel t key i h
        ]
      ]
    ]

-- The range shrinks in each round, so its first width is fuel enough.
unfoldable pub search : TagSet → Bytes → Run ℕ
unfolding search_loop
search t key = search_loop (length t) t key 0 (length t)

-- `i < len(t) && t[i].Key == key`
unfoldable pub is_key_at : TagSet → ℕ → Bytes → Bool
is_key_at t i key = elim (get_elem? t i) [ none ↦ false | some q ↦ beq q.key key ]

unfoldable pub contains : TagSet → Bytes → Run Bool
unfolding search is_key_at
contains t key = if length t == 0 then ret false else do i ← search t key; ret (is_key_at t i key)

-- What `Insert` returns once the index is found: the set itself, a copy with the value replaced, or a
-- longer copy.
unfoldable pub insert_at : TagSet → ℕ → Tag → TagSet
insert_at t i p = elim (get_elem? t i) [
  | none ↦ take i t ++ p ∷ drop i t
  | some q ↦
      if beq q.key p.key
      then (if beq q.value p.value then t else set t i (record q { value = p.value }))
      else take i t ++ p ∷ drop i t
]

unfoldable pub insert : TagSet → Tag → Run TagSet
unfolding search insert_at
insert t p = if length t == 0 then ret (p ∷ []) else do i ← search t p.key; ret (insert_at t i p)
