-- ===== src/Utils/Flag.antt =====
-- core/utils.py, `get_flag`: the flag of a country code, from two regional indicator symbols.
use config_manager.Prelude.{
  Bool-cases, inl, inr, ℕ, ◌+◌, ◌≤◌, ◌≡◌, ◌&&◌, [], ◌∷◌, arith, if◌then◌else◌, ◌==◌, All,
}
use config_manager.Prelude.Text.{Text, codes, text_eq, strip}
use config_manager.Prelude.Case.{Unicode, upper, is_alpha_char}

-- U+1F3F3 U+FE0F
abbrev pub white_flag : Text
white_flag = 0x1f3f3 ∷ 0xfe0f ∷ []

-- `len(code) == 2 and code.isalpha()`, and the two indicators
flag_of : Unicode → Text → Text
flag_of u (a ∷ b ∷ []) =
    if is_alpha_char u a && is_alpha_char u b
    then (0x1f1e5 + a) ∷ (0x1f1e5 + b) ∷ []
    else white_flag
flag_of u _ = white_flag

unfoldable pub get_flag : Unicode → Text → Text
unfolding flag_of is_alpha_char
get_flag u country_code =
    let code = strip (upper u country_code) in
    if code == codes "UN" then white_flag else flag_of u code

-- U+1F1E6 to U+1F1FF, the symbols of which a flag is made
abbrev pub IsIndicator : ℕ → Type 0
IsIndicator c = (0x1f1e6 ≤ c) × (c ≤ 0x1f1ff)

stripped : (a b : ℕ) → b'A' ≤ a → a ≤ b'Z' → b'A' ≤ b → b ≤ b'Z' → strip (a ∷ b ∷ []) ≡ a ∷ b ∷ []
unfolding strip
stripped a b ha ha' hb hb' = ground arith

upper_capitals :
    (u : Unicode) (a b : ℕ)
    → b'A' ≤ a
    → a ≤ b'Z'
    → b'A' ≤ b
    → b ≤ b'Z'
    → upper u (a ∷ b ∷ []) ≡ a ∷ b ∷ []
unfolding upper
upper_capitals u a b ha ha' hb hb' = ground arith

-- For every code of two capital letters, UN included, `get_flag` returns no regional indicator
-- symbol (U+1F1E6 to U+1F1FF): what it returns for a country is above that block.
pub get_flag-not-IsIndicator :
    (u : Unicode) (a b : ℕ)
    → b'A' ≤ a
    → a ≤ b'Z'
    → b'A' ≤ b
    → b ≤ b'Z'
    → All (λ c. ¬ (IsIndicator c)) (get_flag u (a ∷ b ∷ []))
unfolding get_flag
get_flag-not-IsIndicator u a b ha ha' hb hb' =
    rw (upper_capitals u a b ha ha' hb hb', stripped a b ha ha' hb hb')
      (elim (Bool-cases ((a ∷ b ∷ []) == codes "UN")) [
        | inl e ↦ rw e (λ h. omega arith, (λ h. omega arith, tt))
        | inr e ↦ rw e (elim (Bool-cases (is_alpha_char u a && is_alpha_char u b)) [
          | inl f ↦ rw f (λ h. omega arith, (λ h. omega arith, tt))
          | inr f ↦ rw f (λ h. omega arith, (λ h. omega arith, tt))
        ])
      ])
