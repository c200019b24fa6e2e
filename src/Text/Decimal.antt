-- ===== src/Text/Decimal.antt =====
-- `str(n)`, `str.isdigit` and `int` on a text of ASCII digits.
use deploygenus.Text.Chars.{Text, is_digit}
use deploygenus.Base.{
  ltb, if◌then◌else◌, Bool-cases, All, all, is_empty, length, ◌≤◌, ℕ, zero, suc, ◌+◌, ◌-◌, ◌*◌, ◌/◌,
  ◌%◌, ◌<◌, ◌≡◌, refl, ap, ◌∙◌, inl, inr, Bool, true, false, not, ◌&&◌, [], ◌∷◌, arith,
}

unfoldable pub isdigit : Text → Bool
unfolding is_digit
isdigit s = not (is_empty s) && all is_digit s

value_onto : ℕ → Text → ℕ
value_onto n [] = n
value_onto n (c ∷ s) = value_onto (n * 10 + (c - 48)) s

-- `int(s)` where `s.isdigit()`
unfoldable pub int_of : Text → ℕ
unfolding value_onto
int_of = value_onto 0

digits_onto : ℕ → ℕ → Text → Text
digits_onto zero n s = s
digits_onto (suc f) n s =
    let rest = digits_onto f (n / 10) ((48 + n % 10) ∷ s) in if ltb n 10 then (48 + n) ∷ s else rest

-- `str(n)`
unfoldable pub decimal : ℕ → Text
unfolding digits_onto
decimal n = digits_onto (suc n) n []

value_onto-digits_onto :
    (f n : ℕ) (s : Text) → n < f → value_onto 0 (digits_onto f n s) ≡ value_onto n s
unfolding value_onto digits_onto
value_onto-digits_onto zero n s h = elim h [ ]
value_onto-digits_onto (suc f) n s h = elim (Bool-cases (ltb n 10)) [
  | inl e ↦ rw e (ap (λ k. value_onto k s) (omega arith))
  | inr e ↦ rw e (
      value_onto-digits_onto f (n / 10) ((48 + n % 10) ∷ s) (ground arith)
      ∙ ap (λ k. value_onto k s) (omega arith))
]

-- Reading what was printed.
pub int_of-decimal : (n : ℕ) → int_of (decimal n) ≡ n
unfolding int_of decimal value_onto
int_of-decimal n = value_onto-digits_onto (suc n) n [] (omega arith)

digit_char : (d : ℕ) → d < 10 → is_digit (48 + d) ≡ true
unfolding is_digit
digit_char d h = ground arith

digits_onto-All :
    (f n : ℕ) (s : Text)
    → All (λ c. is_digit c ≡ true) s
    → All (λ c. is_digit c ≡ true) (digits_onto f n s)
unfolding digits_onto
digits_onto-All zero n s h = h
digits_onto-All (suc f) n s h = elim (Bool-cases (ltb n 10)) [
  | inl e ↦ rw e (digit_char n (ground arith), h)
  | inr e ↦
      rw e (digits_onto-All f (n / 10) ((48 + n % 10) ∷ s) (digit_char (n % 10) (omega arith), h))
]

pub decimal-All : (n : ℕ) → All (λ c. is_digit c ≡ true) (decimal n)
unfolding decimal
decimal-All n = digits_onto-All (suc n) n [] tt

digits_onto-nonempty : (f n c : ℕ) (s : Text) → is_empty (digits_onto f n (c ∷ s)) ≡ false
unfolding digits_onto
digits_onto-nonempty zero n c s = refl
digits_onto-nonempty (suc f) n c s = elim (Bool-cases (ltb n 10)) [
  | inl e ↦ rw e
  | inr e ↦ rw e (digits_onto-nonempty f (n / 10) (48 + n % 10) (c ∷ s))
]

pub decimal-nonempty : (n : ℕ) → is_empty (decimal n) ≡ false
unfolding decimal digits_onto
decimal-nonempty n = elim (Bool-cases (ltb n 10)) [
  | inl e ↦ rw e
  | inr e ↦ rw e (digits_onto-nonempty n (n / 10) (48 + n % 10) [])
]

-- The powers of ten.
abbrev pub tens : ℕ → ℕ
tens zero = 1
tens (suc k) = 10 * tens k

length-digits_onto :
    (f k n : ℕ) (s : Text) → n < tens (suc k) → length (digits_onto f n s) ≤ suc k + length s
unfolding digits_onto
length-digits_onto zero k n s h = omega arith
length-digits_onto (suc f) zero n s h = ground arith
length-digits_onto (suc f) (suc k) n s h = elim (Bool-cases (ltb n 10)) [
  | inl e ↦ rw e (omega arith)
  | inr e ↦ rw e (
      let shorter = length-digits_onto f k (n / 10) ((48 + n % 10) ∷ s) (omega arith) in
      omega (arith, shorter))
]

-- A number below a power of ten has no more digits than its exponent.
pub length-decimal : (k n : ℕ) → n < tens (suc k) → length (decimal n) ≤ suc k
unfolding decimal
length-decimal k n h = omega (arith, length-digits_onto (suc n) k n [] h)
