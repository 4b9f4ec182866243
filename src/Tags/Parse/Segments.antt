-- ===== src/Tags/Parse/Segments.antt =====
-- Where `Index` and `Count` find the separator in a text that is written in segments.
use gostats.Prelude.{
  ℕ, zero, suc, ◌+◌, ◌≤◌, ◌≡◌, refl, ◌∙◌, ap, false, none, some, List, [], ◌∷◌, ◌++◌, arith, length,
  length-append, take, drop, All,
}
use native.Mathlib.Nat.{zero-add, suc-add}
use gostats.Bytes.{Bytes, index_sub, count_loop, count_sub, has_prefix, shift, Lacks}
use gostats.Tags.Parse.{tag_sep}

-- The separator begins nowhere in the text.
abbrev pub HasNoSep : Bytes → Type 0
HasNoSep [] = Unit
HasNoSep (c ∷ s) = (has_prefix tag_sep (c ∷ s) ≡ false) × HasNoSep s

index_sub_skip :
    (c : ℕ) (s : Bytes)
    → has_prefix tag_sep (c ∷ s) ≡ false
    → index_sub tag_sep (c ∷ s) ≡ shift (index_sub tag_sep s)
unfolding index_sub
index_sub_skip c s h = rw h

-- The separator does not begin in a text and end in the separator behind it.
prefix-append :
    (c : ℕ) (s rest : Bytes)
    → has_prefix tag_sep (c ∷ s) ≡ false
    → has_prefix tag_sep ((c ∷ s) ++ (tag_sep ++ rest)) ≡ false
prefix-append c [] rest h = ground arith
prefix-append c (d ∷ []) rest h = ground arith
prefix-append c (d ∷ e ∷ s) rest h = h

pub index_sub-append :
    (s rest : Bytes) → HasNoSep s → index_sub tag_sep (s ++ (tag_sep ++ rest)) ≡ some (length s)
index_sub-append [] rest h = unfold index_sub in refl
index_sub-append (c ∷ s) rest (hc, h) =
    index_sub_skip c (s ++ (tag_sep ++ rest)) (prefix-append c s rest hc)
    ∙ ap shift (index_sub-append s rest h)

pub index_sub-none : (s : Bytes) → HasNoSep s → index_sub tag_sep s ≡ none
index_sub-none [] h = unfold index_sub in refl
index_sub-none (c ∷ s) (hc, h) = index_sub_skip c s hc ∙ ap shift (index_sub-none s h)

-- A text without a full stop has no separator.
HasNoSep-of_Lacks : (s : Bytes) → Lacks b'.' s → HasNoSep s
HasNoSep-of_Lacks [] h = tt
HasNoSep-of_Lacks (c ∷ s) (hc, h) = (ground arith, HasNoSep-of_Lacks s h)

prefix-equals :
    (c : ℕ) (s v : Bytes)
    → has_prefix tag_sep (c ∷ s) ≡ false
    → has_prefix tag_sep ((c ∷ s) ++ b'=' ∷ v) ≡ false
prefix-equals c [] v h = ground arith
prefix-equals c (d ∷ []) v h = ground arith
prefix-equals c (d ∷ e ∷ s) v h = h

-- A key without a separator, `=` and a value without a full stop have no separator together.
pub HasNoSep-equals : (k v : Bytes) → HasNoSep k → Lacks b'.' v → HasNoSep (k ++ b'=' ∷ v)
HasNoSep-equals [] v hk hv = (refl, HasNoSep-of_Lacks v hv)
HasNoSep-equals (c ∷ k) v (hc, hk) hv = (prefix-equals c k v hc, HasNoSep-equals k v hk hv)

pub take_segment : (s rest : Bytes) → take (length s) (s ++ rest) ≡ s
take_segment [] rest = refl
take_segment (c ∷ s) rest = ap (◌∷◌ c) (take_segment s rest)

pub drop_segment : (s rest : Bytes) (n : ℕ) → drop (length s + n) (s ++ rest) ≡ drop n rest
drop_segment [] rest n = rw zero-add
drop_segment (c ∷ s) rest n = rw suc-add (drop_segment s rest n)

pub drop_past : (s rest : Bytes) → drop (length s + length tag_sep) (s ++ (tag_sep ++ rest)) ≡ rest
drop_past s rest = drop_segment s (tag_sep ++ rest) 3

pub drop_equals : (k v : Bytes) → drop (length k + 1) (k ++ b'=' ∷ v) ≡ v
drop_equals k v = drop_segment k (b'=' ∷ v) 1

-- Segments with separators between them.
abbrev pub joined : Bytes → List Bytes → Bytes
joined s [] = s
joined s (r ∷ rs) = s ++ (tag_sep ++ joined r rs)

length-joined : (s : Bytes) (rs : List Bytes) → length rs ≤ length (joined s rs)
length-joined s [] = omega arith
length-joined s (r ∷ rs) =
    omega (arith, length-joined r rs, length-append s (tag_sep ++ joined r rs))

count_loop-joined :
    (fuel : ℕ) (s : Bytes) (rs : List Bytes)
    → HasNoSep s
    → All HasNoSep rs
    → length rs ≤ fuel
    → count_loop fuel tag_sep (joined s rs) ≡ length rs
unfolding count_loop
count_loop-joined zero s [] hs hr h = refl
count_loop-joined zero s (r ∷ rs) hs hr h = absurd (omega arith)
count_loop-joined (suc fuel) s [] hs hr h = rw (index_sub-none s hs, count_loop)
count_loop-joined (suc fuel) s (r ∷ rs) hs (hr, hrs) h =
    rw (index_sub-append s (joined r rs) hs, count_loop)
      (rw (drop_past s (joined r rs)) (ap suc (count_loop-joined fuel r rs hr hrs (omega arith))))

-- `Count` finds one separator for each segment behind the first.
pub count_sub-joined :
    (s : Bytes) (rs : List Bytes)
    → HasNoSep s
    → All HasNoSep rs
    → count_sub tag_sep (joined s rs) ≡ length rs
unfolding count_sub
count_sub-joined s rs hs hr =
    count_loop-joined (length (joined s rs)) s rs hs hr (length-joined s rs)
