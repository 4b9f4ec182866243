-- ===== src/Settings/Decimals.antt =====
-- `envInt` of settings.go on decimal texts.
use gostats.Prelude.{
  ℕ, zero, suc, ◌+◌, ◌-◌, ◌*◌, ◌/◌, ◌%◌, ◌^◌, ◌<◌, ◌≡◌, refl, sym, ◌∙◌, ap, ltb, leb, ◌==◌, lt→ltb,
  le→leb, Bool, true, false, none, some, [], ◌∷◌, arith, if_true, if_false, Bool-cases, inl, inr,
}
use gostats.Bytes.{Bytes, decimal}
use gostats.Handler.Responses.{itoa}
use gostats.Settings.{
  ℤ, i64, in_range, is_digit, digits, signed_digits, atoi, Env, env_parse, env_int,
}

-- What a number of digits is enough for.
abbrev limit : ℕ → ℕ
limit zero = 1
limit (suc fuel) = 10 * limit fuel

-- `digits` reads the digits of a number before it goes on.
digits-decimal :
    (fuel n : ℕ) (tail : Bytes) → n < limit fuel → digits 0 (decimal fuel n tail) ≡ digits n tail
unfolding digits decimal
digits-decimal zero n tail h =
    let none : n ≡ 0 = omega arith in ap (λ (k : ℕ). digits k tail) (sym none)
digits-decimal (suc fuel) n tail h = elim (Bool-cases (ltb n 10)) [
  | inl e ↦
      let is : is_digit (48 + n) ≡ true = ground arith in
      let same : 0 * 10 + (48 + n - 48) ≡ n = omega arith in
      rw e (rw is (ap (λ (k : ℕ). digits k tail) same))
  | inr e ↦
      let is : is_digit (48 + n % 10) ≡ true = ground arith in
      let same : n / 10 * 10 + (48 + n % 10 - 48) ≡ n = omega arith in
      let step = digits-decimal fuel (n / 10) ((48 + n % 10) ∷ tail) (omega arith) in
      rw e (step ∙ rw is (ap (λ (k : ℕ). digits k tail) same))
]

digits_end : (n : ℕ) → digits n [] ≡ some n
unfolding digits
digits_end n = refl

-- A text begins with a digit.
abbrev HeadIsDigit : Bytes → Type 0
HeadIsDigit [] = ⊥
HeadIsDigit (c ∷ s) = is_digit c ≡ true

decimal-HeadIsDigit :
    (fuel n : ℕ) (tail : Bytes) → HeadIsDigit tail → HeadIsDigit (decimal fuel n tail)
unfolding decimal
decimal-HeadIsDigit zero n tail h = h
decimal-HeadIsDigit (suc fuel) n tail h = elim (Bool-cases (ltb n 10)) [
  | inl e ↦ rw e (ground arith)
  | inr e ↦ rw e (decimal-HeadIsDigit fuel (n / 10) ((48 + n % 10) ∷ tail) (ground arith))
]

some-HeadIsDigit : (fuel n : ℕ) (tail : Bytes) → HeadIsDigit (decimal (suc fuel) n tail)
unfolding decimal
some-HeadIsDigit fuel n tail = elim (Bool-cases (ltb n 10)) [
  | inl e ↦ rw e (ground arith)
  | inr e ↦ rw e (decimal-HeadIsDigit fuel (n / 10) ((48 + n % 10) ∷ tail) (ground arith))
]

signed_digits-digits :
    (negative : Bool) (s : Bytes)
    → HeadIsDigit s
    → signed_digits negative s ≡ in_range negative (digits 0 s)
unfolding signed_digits
signed_digits-digits negative [] h = absurd h
signed_digits-digits negative (c ∷ s) h = refl

-- A text without a sign is read as a number, and one after a minus as its negative.
atoi-plain : (s : Bytes) → HeadIsDigit s → atoi s ≡ signed_digits false s
unfolding atoi
atoi-plain [] h = absurd h
atoi-plain (c ∷ s) h =
    let minus : (c == 45) ≡ false = ground arith in
    let plus : (c == 43) ≡ false = ground arith in
    if_false (c == 45) _ _ minus ∙ if_false (c == 43) _ _ plus

atoi-minus : (s : Bytes) → atoi (45 ∷ s) ≡ signed_digits true s
unfolding atoi
atoi-minus s = refl

digits-all : (n : ℕ) → n < 2 ^ 64 → digits 0 (decimal 20 n []) ≡ some n
digits-all n h = digits-decimal 20 n [] (omega arith) ∙ digits_end n

-- The `int`s: from `-i64` to `i64 - 1`.
abbrev pub IsInt : ℤ → Type 0
IsInt (ℤ.pos n) = n < i64
IsInt (ℤ.negsuc n) = n < i64

atoi-itoa : (i : ℤ) → IsInt i → atoi (itoa i) ≡ some i
unfolding itoa
atoi-itoa (ℤ.pos n) h =
    let starts = some-HeadIsDigit 19 n [] in
    atoi-plain (decimal 20 n []) starts
    ∙ signed_digits-digits false (decimal 20 n []) starts
    ∙ ap (in_range false) (digits-all n (omega (arith, h)))
    ∙ if_true (ltb n i64) _ _ (lt→ltb n i64 h)
atoi-itoa (ℤ.negsuc n) h =
    let starts = some-HeadIsDigit 19 (suc n) [] in
    atoi-minus (decimal 20 (suc n) [])
    ∙ signed_digits-digits true (decimal 20 (suc n) []) starts
    ∙ ap (in_range true) (digits-all (suc n) (omega (arith, h)))
    ∙ if_true (leb (suc n) i64) _ _ (le→leb (suc n) i64 h)

atoi_nil : atoi [] ≡ none
unfolding atoi
atoi_nil = refl

env_int-atoi :
    (s key : Bytes) (def i : ℤ) (env : Env)
    → env key ≡ s
    → atoi s ≡ some i
    → env_int key def env ≡ (i, none)
unfolding env_int env_parse
env_int-atoi [] key def i env e g = absurd (cc (atoi_nil))
env_int-atoi (c ∷ s) key def i env e g = rw (e, env_parse) (rw g refl)

-- `envInt` reads a variable that holds the decimal text of an `int`, also a negative one, as that `int` and
-- without an error.
pub env_int-itoa :
    (key : Bytes) (def i : ℤ) (env : Env)
    → IsInt i
    → env key ≡ itoa i
    → env_int key def env ≡ (i, none)
env_int-itoa key def i env h e = env_int-atoi (itoa i) key def i env e (atoi-itoa i h)
