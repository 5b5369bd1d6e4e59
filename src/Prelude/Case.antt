-- ===== src/Prelude/Case.antt =====
-- Letter case and character classes of Python's `str`. The ASCII part is written out; the rest is
-- the Unicode database that the interpreter ships, a parameter.
use mathlib.Core.Path.{◌≡◌, refl}
use mathlib.Core.Bool.{Bool, false, ◌&&◌, ◌||◌}
use mathlib.Core.List.{[], ◌∷◌, ◌++◌, append_assoc}
use mathlib.Core.Option.{Option, none, some}
use Prim.Native.Nat.{ℕ, ◌+◌, ◌-◌}
use config_manager.Prelude.Tests.{if◌then◌else◌, ltb, leb}
use config_manager.Prelude.Text.{Text}

-- What the tables say of the code points above 127.
pub record Unicode : Type 0 where
  pub lower_of : ℕ → Text
  pub upper_of : ℕ → Text
  pub is_letter : ℕ → Bool
  pub digit_of : ℕ → Option ℕ

-- Tables that know no letter and no digit above ASCII.
abbrev pub ascii_only : Unicode
ascii_only = record {
  lower_of = λ c. c ∷ [];
  upper_of = λ c. c ∷ [];
  is_letter = λ c. false;
  digit_of = λ c. none;
}

module _ (u : Unicode) where
  unfoldable pub lower_char : ℕ → Text
  lower_char c =
      if ltb c 128
      then (if leb b'A' c && leb c b'Z' then (c + 32) ∷ [] else c ∷ [])
      else u.lower_of c

  unfoldable pub upper_char : ℕ → Text
  upper_char c =
      if ltb c 128
      then (if leb b'a' c && leb c b'z' then (c - 32) ∷ [] else c ∷ [])
      else u.upper_of c

  -- `s.lower()`
  unfoldable pub lower : Text → Text
  unfolding lower_char
  lower [] = []
  lower (c ∷ s) = lower_char c ++ lower s

  -- `s.upper()`
  unfoldable pub upper : Text → Text
  unfolding upper_char
  upper [] = []
  upper (c ∷ s) = upper_char c ++ upper s

  unfoldable pub is_alpha_char : ℕ → Bool
  is_alpha_char c =
      if ltb c 128 then (leb b'A' c && leb c b'Z') || (leb b'a' c && leb c b'z') else u.is_letter c

  -- the value of a decimal digit, which `\d` matches and `int` reads
  unfoldable pub digit_char : ℕ → Option ℕ
  digit_char c =
      if ltb c 128 then (if leb b'0' c && leb c b'9' then some (c - 48) else none) else u.digit_of c

pub lower-append : (u : Unicode) (s t : Text) → lower u (s ++ t) ≡ lower u s ++ lower u t
unfolding lower
lower-append u [] t = refl
lower-append u (c ∷ s) t = simp (lower-append u s t, append_assoc)
