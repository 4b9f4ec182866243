-- ===== src/Tags/Clean.antt =====
-- `ReplaceChars` of internal/tags/tags.go: what it changes and what it keeps.
use gostats.Prelude.{ℕ, ◌≡◌, ◌≢◌, refl, [], ◌∷◌, arith, All, ap₂}
use gostats.Bytes.{Bytes}
use gostats.Tags.{replace_char, replace_chars}

-- The bytes that end a tag or a value in the text format.
abbrev pub IsValid : ℕ → Type 0
IsValid c = (c ≢ b'.') × (c ≢ b':') × (c ≢ b'|')

-- Two texts of one length, where a byte of the second is that of the first if it is valid, else `_`.
abbrev pub Replaces : Bytes → Bytes → Type 0
Replaces [] [] = Unit
Replaces [] (d ∷ t) = ⊥
Replaces (c ∷ s) [] = ⊥
Replaces (c ∷ s) (d ∷ t) = ((IsValid c → d ≡ c) × (¬ IsValid c → d ≡ b'_')) × Replaces s t

replace_char_lem :
    (c : ℕ) → (IsValid c → replace_char c ≡ c) × (¬ IsValid c → replace_char c ≡ b'_')
unfolding replace_char
replace_char_lem c = (λ h. ground arith, λ h. ground arith)

Replaces-replace_chars : (s : Bytes) → Replaces s (replace_chars s)
unfolding replace_chars
Replaces-replace_chars [] = tt
Replaces-replace_chars (c ∷ s) = (replace_char_lem c, Replaces-replace_chars s)

IsValid-replace_chars : (s : Bytes) → All IsValid (replace_chars s)
unfolding replace_chars replace_char
IsValid-replace_chars [] = tt
IsValid-replace_chars (c ∷ s) = (ground arith, IsValid-replace_chars s)

replace_chars_idem : (s : Bytes) → replace_chars (replace_chars s) ≡ replace_chars s
unfolding replace_chars replace_char
replace_chars_idem [] = refl
replace_chars_idem (c ∷ s) = ap₂ ◌∷◌ (ground arith) (replace_chars_idem s)

-- `ReplaceChars` keeps the length and every byte but `.`, `:` and `|`, which it replaces by `_`; no such
-- byte is left, and cleaning again changes nothing.
pub replace_chars_lem :
    (s : Bytes)
    → Replaces s (replace_chars s)
      × All IsValid (replace_chars s)
      × (replace_chars (replace_chars s) ≡ replace_chars s)
replace_chars_lem s = (Replaces-replace_chars s, IsValid-replace_chars s, replace_chars_idem s)
