-- ===== src/Utils/Decimal.antt =====
-- The decimal digits of a number, as an f-string prints it, read back by `int`.
use config_manager.Prelude.{
  ℕ, zero, suc, ◌+◌, ◌*◌, ◌/◌, ◌%◌, ◌<◌, ◌≤◌, ◌≡◌, refl, ap, ◌∙◌, Bool, true, false, some, [], ◌∷◌,
  All, All-weaken, arith, ltb, if◌then◌else◌, Bool-cases, inl, inr,
}
use config_manager.Prelude.Text.{Text, strip, strip_cons, rstrip_solid, is_space}
use config_manager.Prelude.Case.{Unicode, digit_char}
use config_manager.Utils.Numbers.{pos, digits_from, signed, int}

-- The digits of `n` before `rest`. The first argument bounds their number.
unfoldable pub decimal_before : ℕ → ℕ → Text → Text
decimal_before zero n rest = rest
decimal_before (suc fuel) n rest =
    let more = decimal_before fuel (n / 10) ((48 + n % 10) ∷ rest) in
    if ltb n 10 then (48 + n) ∷ rest else more

-- `str(n)`: a number has no more digits than its value and one.
unfoldable pub decimal : ℕ → Text
unfolding decimal_before
decimal n = decimal_before (suc n) n []

abbrev pub IsDigit : ℕ → Type 0
IsDigit c = (48 ≤ c) × (c < 58)

decimal_before-IsDigit :
    (fuel n : ℕ) (rest : Text) → All IsDigit rest → All IsDigit (decimal_before fuel n rest)
unfolding decimal_before
decimal_before-IsDigit zero n rest h = h
decimal_before-IsDigit (suc fuel) n rest h = elim (Bool-cases (ltb n 10)) [
  | inl small ↦ rw small ((omega arith, ground arith), h)
  | inr large ↦
      rw large (
        decimal_before-IsDigit fuel (n / 10) ((48 + n % 10) ∷ rest) ((omega arith, omega arith), h))
]

pub decimal-IsDigit : (n : ℕ) → All IsDigit (decimal n)
unfolding decimal
decimal-IsDigit n = decimal_before-IsDigit (suc n) n [] tt

module _ (u : Unicode) where
  digit_char-IsDigit : (k : ℕ) → k < 10 → digit_char u (48 + k) ≡ some k
  unfolding digit_char
  digit_char-IsDigit k h = ground arith

  -- One digit is read.
  read_digit :
      (value k : ℕ) (after : Bool) (rest : Text)
      → k < 10
      → digits_from u value after ((48 + k) ∷ rest) ≡ digits_from u (value * 10 + k) true rest
  unfolding digits_from
  read_digit value k after rest h = rw (digit_char-IsDigit k h, digits_from) refl

  digits_from-decimal_before :
      (fuel n : ℕ) (after : Bool) (rest : Text)
      → n < fuel
      → digits_from u 0 after (decimal_before fuel n rest) ≡ digits_from u n true rest
  unfolding decimal_before
  digits_from-decimal_before zero n after rest h = absurd (omega arith)
  digits_from-decimal_before (suc fuel) n after rest h = elim (Bool-cases (ltb n 10)) [
    | inl small ↦
        let below : n < 10 = ground arith in
        let value : 0 * 10 + n ≡ n = omega arith in
        rw small (read_digit 0 n after rest below ∙ ap (λ (v : ℕ). digits_from u v true rest) value)
    | inr large ↦
        let big : 10 ≤ n = ground arith in
        let value : n / 10 * 10 + n % 10 ≡ n = omega arith in
        rw large (
          digits_from-decimal_before fuel (n / 10) after ((48 + n % 10) ∷ rest) (omega arith)
          ∙ read_digit (n / 10) (n % 10) true rest (omega arith)
          ∙ ap (λ (v : ℕ). digits_from u v true rest) value)
  ]

  IsDigit-is_space : (c : ℕ) → IsDigit c → is_space c ≡ false
  unfolding is_space
  IsDigit-is_space c h = ground arith

  strip-digits : (t : Text) → All IsDigit t → strip t ≡ t
  unfolding strip
  strip-digits [] h = refl
  strip-digits (c ∷ t) h =
      strip_cons c t (IsDigit-is_space c h.0)
      ∙ ap (λ (r : Text). c ∷ r)
          (rstrip_solid t (All-weaken IsDigit (λ c. is_space c ≡ false) IsDigit-is_space t h.1))

  -- Digits are read without a sign.
  signed-digits :
      (t : Text) (n : ℕ)
      → All IsDigit t
      → digits_from u 0 false t ≡ some n
      → signed u t ≡ some (pos n)
  unfolding signed
  signed-digits [] n h e = unfold digits_from in cc
  signed-digits (c ∷ t) n h e = ground arith

  -- What is printed is read back.
  pub int-decimal : (n : ℕ) → int u (decimal n) ≡ some (pos n)
  unfolding int decimal
  int-decimal n =
      let digits = decimal_before-IsDigit (suc n) n [] tt in
      let read = digits_from-decimal_before (suc n) n false [] (omega arith) in
      rw (strip-digits (decimal_before (suc n) n []) digits)
        (signed-digits (decimal_before (suc n) n []) n digits (read ∙ unfold digits_from in refl))
