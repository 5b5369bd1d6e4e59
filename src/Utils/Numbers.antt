-- ===== src/Utils/Numbers.antt =====
-- Python's integers, and `int(text)`, which reads what a user types.
use config_manager.Prelude.{
  ℕ, zero, suc, ◌+◌, ◌*◌, ◌≡◌, Bool, true, false, ◌&&◌, Option, none, some, [], ◌∷◌, arith, leb,
  nat_beq, if◌then◌else◌,
}
use config_manager.Prelude.Text.{Text, strip}
use config_manager.Prelude.Case.{Unicode, digit_char}

pub data ℤ : Type 0 where
  pos negsuc : ℕ → ℤ

-- the negative of a natural number
unfoldable pub negated : ℕ → ℤ
negated zero = pos 0
negated (suc n) = negsuc n

-- Decimal digits, with single underscores between them. The first argument is the value of the
-- digits read, the second tells whether the last code point was a digit.
unfoldable pub digits_from : Unicode → ℕ → Bool → Text → Option ℕ
digits_from u value after_digit [] = if after_digit then some value else none
digits_from u value after_digit (c ∷ s) =
    let next = digits_from u value false s in
    elim (digit_char u c) [
      | some d ↦ digits_from u (value * 10 + d) true s
      | none ↦ if nat_beq c b'_' && after_digit then next else none
    ]

-- a sign, and digits
unfoldable pub signed : Unicode → Text → Option ℤ
unfolding digits_from negated
signed u [] = none
signed u (c ∷ s) =
    if nat_beq c b'-'
    then elim (digits_from u 0 false s) [ none ↦ none | some n ↦ some (negated n) ]
    else let unsigned = if nat_beq c b'+' then s else c ∷ s in
      elim (digits_from u 0 false unsigned) [ none ↦ none | some n ↦ some (pos n) ]

-- `int(text)`; `none` is the ValueError.
unfoldable pub int : Unicode → Text → Option ℤ
unfolding signed
int u text = signed u (strip text)

-- The number of a user, coded as a natural number: the tables only compare these numbers.
unfoldable pub user_key : ℤ → ℕ
user_key (pos n) = 2 * n
user_key (negsuc n) = 2 * n + 1

-- No two numbers have one code.
pub user_key_inj : (a b : ℤ) → user_key a ≡ user_key b → a ≡ b
unfolding user_key
user_key_inj (pos n) (pos m) h = let e : n ≡ m = omega arith in cc
user_key_inj (pos n) (negsuc m) h = absurd (omega arith)
user_key_inj (negsuc n) (pos m) h = absurd (omega arith)
user_key_inj (negsuc n) (negsuc m) h = let e : n ≡ m = omega arith in cc

-- `int(text)` if it lies within the bounds, as a natural number
unfoldable pub within : ℕ → ℕ → ℤ → Option ℕ
within low high (pos n) = if leb low n && leb n high then some n else none
within low high (negsuc n) = none
