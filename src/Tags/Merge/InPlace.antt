-- ===== src/Tags/Merge/InPlace.antt =====
-- `mergeTagSets` of internal/tags/tags.go in place: the slice that is merged lies at the end of the array that
-- is written.
use gostats.Prelude.{
  ℕ, zero, suc, ◌+◌, ◌-◌, ◌≤◌, ◌≡◌, refl, sym, ◌∙◌, ap, true, some, [], ◌∷◌, ◌++◌, append_assoc,
  arith, ltb, lt→ltb, Bool-cases, inl, inr, length, length-append, get_elem?, set, take, drop, ret,
}
use native.Mathlib.Nat.{zero-add, suc-add}
use gostats.Bytes.{beq, less}
use gostats.Tags.{Tag, TagSet}
use gostats.Tags.Merge.{min, overlay, finish, merge_loop, merge_tag_sets}
use gostats.Tags.Merge.Union.{union}

overlay-nil : (a : TagSet) (k : ℕ) → overlay a k [] ≡ a
unfolding overlay
overlay-nil [] k = refl
overlay-nil (x ∷ a) k = refl

length-overlay : (a : TagSet) (k : ℕ) (ys : TagSet) → length (overlay a k ys) ≡ length a
unfolding overlay
length-overlay [] k ys = refl
length-overlay (x ∷ a) k [] = refl
length-overlay (x ∷ a) zero (y ∷ ys) = ap suc (length-overlay a zero ys)
length-overlay (x ∷ a) (suc k) (y ∷ ys) = ap suc (length-overlay a k (y ∷ ys))

-- What a copy that fits leaves in front of its end.
take-overlay :
    (d e ys : TagSet)
    → length ys ≤ length e
    → take (length d + length ys) (overlay (d ++ e) (length d) ys) ≡ d ++ ys
unfolding overlay
take-overlay [] e [] h = refl
take-overlay [] [] (y ∷ ys) h = absurd (omega arith)
take-overlay [] (x ∷ e) (y ∷ ys) h =
    rw zero-add (ap (◌∷◌ y) (rw zero-add at (take-overlay [] e ys (omega arith))))
take-overlay (x ∷ d) e [] h = rw (suc-add) (ap (◌∷◌ x) (rw overlay-nil at (take-overlay d e [] h)))
take-overlay (x ∷ d) e (y ∷ ys) h = rw (suc-add) (ap (◌∷◌ x) (take-overlay d e (y ∷ ys) h))

drop-append : (d e : TagSet) (n : ℕ) → n ≡ length d → drop n (d ++ e) ≡ e
drop-append [] e n h = rw h
drop-append (x ∷ d) e zero h = absurd (omega arith)
drop-append (x ∷ d) e (suc n) h = drop-append d e n (omega arith)

take-append : (d e : TagSet) (n : ℕ) → n ≡ length d → take n (d ++ e) ≡ d
take-append [] e n h = rw h
take-append (x ∷ d) e zero h = absurd (omega arith)
take-append (x ∷ d) e (suc n) h = ap (◌∷◌ x) (take-append d e n (omega arith))

get_elem?-append :
    (d : TagSet) (y : Tag) (e : TagSet) (n : ℕ) → n ≡ length d → get_elem? (d ++ y ∷ e) n ≡ some y
get_elem?-append [] y e n h = rw h
get_elem?-append (x ∷ d) y e zero h = absurd (omega arith)
get_elem?-append (x ∷ d) y e (suc n) h = get_elem?-append d y e n (omega arith)

set-append :
    (d : TagSet) (x v : Tag) (e : TagSet) (n : ℕ)
    → n ≡ length d
    → set (d ++ x ∷ e) n v ≡ (d ++ v ∷ []) ++ e
set-append [] x v e n h = rw h
set-append (z ∷ d) x v e zero h = absurd (omega arith)
set-append (z ∷ d) x v e (suc n) h = ap (◌∷◌ z) (set-append d x v e n (omega arith))

min-eq : (a b : ℕ) → b ≤ a → min a b ≡ b
min-eq a b h = ground arith

length-room : (d g e : TagSet) → length (d ++ (g ++ e)) ≡ length d + (length g + length e)
length-room d g e = omega (arith, length-append d (g ++ e), length-append g e)

finish-nil :
    (d gap ys tail : TagSet) (q k : ℕ)
    → q ≡ length d + length gap
    → k ≡ length d
    → finish [] (length ys) q k (d ++ (gap ++ (ys ++ tail))) ≡ ret (d ++ ys)
unfolding finish
finish-nil d gap ys tail q k hq hk =
    let a : TagSet = d ++ (gap ++ (ys ++ tail)) in
    let size = length-room d gap (ys ++ tail) in
    let size' = length-append ys tail in
    let there : drop q a ≡ ys ++ tail =
      ap (drop q) (sym (append_assoc d gap (ys ++ tail)))
      ∙ drop-append (d ++ gap) (ys ++ tail) q (omega (arith, length-append d gap)) in
    let rest : take (length ys) (drop q a) ≡ ys =
      ap (take (length ys)) there ∙ take-append ys tail (length ys) refl in
    let first : k + min (length a - k) 0 ≡ length d =
      ap (λ n. k + n) (min-eq (length a - k) 0 (omega arith)) ∙ omega arith in
    let copied : min (length a - length d) (length ys) ≡ length ys =
      min-eq (length a - length d) (length ys) (omega arith) in
    rw (overlay-nil, rest, first, copied)
      (ap ret
        (take-overlay d (gap ++ (ys ++ tail)) ys (omega (arith, length-append gap (ys ++ tail)))))

-- What follows the loop once `s2` is used up: the rest of `s1` is copied.
finish_left :
    (d xs room : TagSet) (q k : ℕ)
    → k ≡ length d
    → length xs ≤ length room
    → finish xs 0 q k (d ++ room) ≡ ret (d ++ xs)
unfolding finish
finish_left d xs room q k hk fits =
    let size = length-append d room in
    let first : k + min (length (d ++ room) - k) (length xs) ≡ length d + length xs =
      ap (λ n. k + n) (min-eq (length (d ++ room) - k) (length xs) (omega arith)) ∙ omega arith in
    let second : (n : ℕ) → length d + length xs + min n 0 ≡ length d + length xs =
      λ n. ap (λ m. length d + length xs + m) (min-eq n 0 (omega arith)) ∙ omega arith in
    rw (first, second, overlay-nil, hk) (ap ret (take-overlay d room xs fits))

-- The loop: the array holds the merged tags, a gap that is as long as the rest of `s1` or longer, and
-- the rest of `s2`.
merge_loop-union :
    (xs d gap ys tail : TagSet) (q k : ℕ)
    → q ≡ length d + length gap
    → k ≡ length d
    → length xs ≤ length gap
    → merge_loop xs (length ys) q k (d ++ (gap ++ (ys ++ tail))) ≡ ret (d ++ union xs ys)
unfolding merge_loop union
merge_loop-union [] d gap ys tail q k hq hk fits = finish-nil d gap ys tail q k hq hk
merge_loop-union (x ∷ xs) d gap [] tail q k hq hk fits =
    finish_left d (x ∷ xs) (gap ++ tail) q k hk (omega (arith, length-append gap tail))
merge_loop-union (x ∷ xs) d [] (y ∷ ys) tail q k hq hk fits = absurd (omega arith)
merge_loop-union (x ∷ xs) d (g ∷ gap) (y ∷ ys) tail q k hq hk fits =
    let rest : TagSet = ys ++ tail in
    let a : TagSet = d ++ ((g ∷ gap) ++ (y ∷ rest)) in
    let in_range : ltb k (length a) ≡ true =
      lt→ltb k (length a) (omega (arith, length-room d (g ∷ gap) (y ∷ rest))) in
    let read : get_elem? a q ≡ some y =
      ap (λ b. get_elem? b q) (sym (append_assoc d (g ∷ gap) (y ∷ rest)))
      ∙ get_elem?-append (d ++ (g ∷ gap)) y rest q (omega (arith, length-append d (g ∷ gap))) in
    let write : (v : Tag) → set a k v ≡ (d ++ v ∷ []) ++ (gap ++ (y ∷ rest)) =
      λ v. set-append d g v (gap ++ (y ∷ rest)) k hk in
    let longer : (v : Tag) → length (d ++ v ∷ []) ≡ length d + 1 =
      λ v. omega (arith, length-append d (v ∷ [])) in
    let shift : gap ++ (y ∷ rest) ≡ (gap ++ y ∷ []) ++ rest =
      sym (append_assoc gap (y ∷ []) rest) in
    let size = length-append gap (y ∷ []) in
    elim (Bool-cases (beq x.key y.key)) [
      | inl e ↦
          rw (in_range, merge_loop)
            (rw (read, merge_loop)
              (rw (e, merge_loop, union)
                (rw (write y, shift)
                  (merge_loop-union xs (d ++ y ∷ []) (gap ++ y ∷ []) ys tail (q + 1) (k + 1)
                      (omega (arith, longer y)) (omega (arith, longer y)) (omega arith)
                    ∙ ap ret (append_assoc d (y ∷ []) (union xs ys))))))
      | inr e ↦
          rw (in_range, merge_loop)
            (rw (read, merge_loop)
              (rw (e, merge_loop, union)
                (elim (Bool-cases (less x.key y.key)) [
                  | inl h ↦
                      rw (h, merge_loop, union)
                        (rw (write x) (
                          merge_loop-union xs (d ++ x ∷ []) gap (y ∷ ys) tail q (k + 1)
                            (omega (arith, longer x)) (omega (arith, longer x)) (omega arith)
                          ∙ ap ret (append_assoc d (x ∷ []) (union xs (y ∷ ys)))))
                  | inr h ↦
                      rw (h, merge_loop, union)
                        (rw (write y, shift)
                          (merge_loop-union (x ∷ xs) (d ++ y ∷ []) (gap ++ y ∷ []) ys tail (q + 1)
                              (k + 1) (omega (arith, longer y)) (omega (arith, longer y))
                              (omega arith)
                            ∙ ap ret (append_assoc d (y ∷ []) (union (x ∷ xs) ys))))
                ])))
    ]

-- `mergeTagSets` reads and writes within the scratch slice and returns the union of the two sets, though
-- the second lies in the slice that is written: at the offset `len(s1)`, with anything behind it.
pub merge_tag_sets-union :
    (s1 gap s2 tail : TagSet)
    → length gap ≡ length s1
    → merge_tag_sets s1 (length s1) (length s2) (gap ++ (s2 ++ tail)) ≡ ret (union s1 s2)
unfolding merge_tag_sets
merge_tag_sets-union s1 gap s2 tail h =
    merge_loop-union s1 [] gap s2 tail (length s1) 0 (omega arith) refl (omega arith)
