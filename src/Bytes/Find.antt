-- ===== src/Bytes/Find.antt =====
-- `IndexByte`, `Index` and `Count` of the standard library's `strings`; `none` is the result -1.
use gostats.Prelude.{
  ℕ, zero, suc, ◌+◌, ◌≡◌, refl, ◌≢◌, Bool, true, false, ◌&&◌, Option, none, some, [], ◌∷◌, ◌++◌,
  ◌==◌, if◌then◌else◌, length, drop, All, arith,
}
use gostats.Bytes.Defs.{Bytes}

abbrev pub shift : Option ℕ → Option ℕ
shift none = none
shift (some i) = some (suc i)

unfoldable pub index_byte : ℕ → Bytes → Option ℕ
index_byte b [] = none
index_byte b (c ∷ s) = let rest = shift (index_byte b s) in if c == b then some 0 else rest

abbrev pub has_prefix : Bytes → Bytes → Bool
has_prefix [] s = true
has_prefix (b ∷ p) [] = false
has_prefix (b ∷ p) (c ∷ s) = (c == b) && has_prefix p s

-- `Index(s, p)`, for a `p` that is not empty.
unfoldable pub index_sub : Bytes → Bytes → Option ℕ
index_sub p [] = none
index_sub p (c ∷ s) =
    let rest = shift (index_sub p s) in if has_prefix p (c ∷ s) then some 0 else rest

-- The occurrences of `p` one behind the other, on fuel: the text is shorter after each.
unfoldable pub count_loop : ℕ → Bytes → Bytes → ℕ
unfolding index_sub
count_loop zero p s = 0
count_loop (suc fuel) p s = elim (index_sub p s) [
  | none ↦ 0
  | some i ↦ suc (count_loop fuel p (drop (i + length p) s))
]

unfoldable pub count_sub : Bytes → Bytes → ℕ
unfolding count_loop
count_sub p s = count_loop (length s) p s

-- The text does not hold the byte.
abbrev pub Lacks : ℕ → Bytes → Type 0
Lacks b = All (λ c. c ≢ b)

pub index_byte-append :
    (b : ℕ) (s t : Bytes) → Lacks b s → index_byte b (s ++ b ∷ t) ≡ some (length s)
unfolding index_byte
index_byte-append b [] t h = ground arith
index_byte-append b (c ∷ s) t (hc, h) = ground (arith, index_byte-append b s t h)

pub index_byte-none : (b : ℕ) (s : Bytes) → Lacks b s → index_byte b s ≡ none
unfolding index_byte
index_byte-none b [] h = refl
index_byte-none b (c ∷ s) (hc, h) = ground (arith, index_byte-none b s h)
