-- ===== src/Tags/Parse/Value.antt =====
-- `removeStatValue` cuts a stat line at its last colon.
use gostats.Prelude.{
  ℕ, ◌+◌, ◌≡◌, ◌⊎◌, refl, ◌∙◌, ap, some, [], ◌∷◌, ◌++◌, append_assoc, arith, ◌==◌, if◌then◌else◌,
  Bool-cases, inl, inr, length, length-append, drop,
}
use gostats.Bytes.{Bytes, index_byte, index_byte-append, index_byte-none, Lacks}
use gostats.Tags.Parse.{last_colon, remove_stat_value}
use gostats.Tags.Parse.Segments.{take_segment, drop_segment}

-- No colon, or the first one with what stands before and behind it.
abbrev FirstColon : Bytes → Type 0
FirstColon s = Lacks b':' s ⊎ ((a : Bytes) × (b : Bytes) × (s ≡ a ++ b':' ∷ b) × Lacks b':' a)

first_colon : (s : Bytes) → FirstColon s
first_colon [] = inl tt
first_colon (c ∷ s) = elim (Bool-cases (c == b':')) [
  | inl e ↦ inr ([], s, ground arith, tt)
  | inr e ↦ elim (first_colon s) [
    | inl h ↦ inl (ground arith, h)
    | inr (a, b, eq, h) ↦ inr (c ∷ a, b, ap (◌∷◌ c) eq, (ground arith, h))
  ]
]

last_colon-none : (n i : ℕ) (s : Bytes) → Lacks b':' s → last_colon n i s ≡ n
unfolding last_colon
last_colon-none n i [] h = refl
last_colon-none n i (c ∷ s) (hc, h) = ground (arith, last_colon-none n (i + 1) s)

last_colon-append :
    (n i : ℕ) (s v : Bytes) → Lacks b':' v → last_colon n i (s ++ b':' ∷ v) ≡ i + length s
unfolding last_colon
last_colon-append n i [] v h = last_colon-none i (i + 1) v h ∙ omega arith
last_colon-append n i (c ∷ s) v h =
    last_colon-append (if c == b':' then i else n) (i + 1) s v h ∙ omega arith

pub remove_stat_value-append : (s v : Bytes) → Lacks b':' v → remove_stat_value (s ++ b':' ∷ v) ≡ s
unfolding remove_stat_value
remove_stat_value-append s v hv = elim (first_colon s) [
  | inl h ↦
      rw (index_byte-append b':' s v h, remove_stat_value)
        (rw (drop_segment s (b':' ∷ v) 1, last_colon-none (length s) (length s + 1) v hv)
          (take_segment s (b':' ∷ v)))
  | inr (a, b, eq, h) ↦
      let whole : s ++ b':' ∷ v ≡ a ++ b':' ∷ (b ++ b':' ∷ v) =
        ap (λ r. r ++ b':' ∷ v) eq ∙ append_assoc a (b':' ∷ b) (b':' ∷ v) in
      let long : length a + 1 + length b ≡ length s =
        omega (arith, ap length eq, length-append a (b':' ∷ b)) in
      let first : index_byte b':' (s ++ b':' ∷ v) ≡ some (length a) =
        ap (index_byte b':') whole ∙ index_byte-append b':' a (b ++ b':' ∷ v) h in
      let rest : drop (length a + 1) (s ++ b':' ∷ v) ≡ b ++ b':' ∷ v =
        ap (drop (length a + 1)) whole ∙ drop_segment a (b':' ∷ (b ++ b':' ∷ v)) 1 in
      rw (first, remove_stat_value)
        (rw (rest, last_colon-append (length a) (length a + 1) b v hv, long)
          (take_segment s (b':' ∷ v)))
]

pub remove_stat_value-none : (s : Bytes) → Lacks b':' s → remove_stat_value s ≡ s
unfolding remove_stat_value
remove_stat_value-none s h = rw (index_byte-none b':' s h, remove_stat_value)
