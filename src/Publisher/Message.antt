-- ===== src/Publisher/Message.antt =====
-- The text of a message.
use config_manager.Prelude.{ℕ, ◌≡◌, Bool, false, ◌||◌, [], ◌∷◌, All, All-append, arith, nat_beq}
use config_manager.Prelude.Text.{Text}
use config_manager.Publisher.{escape, escape_char}

-- a code point of Telegram's markup
abbrev pub is_markup : ℕ → Bool
is_markup c = nat_beq c b'<' || nat_beq c b'>' || nat_beq c b'"' || nat_beq c b'\''

escape_char-plain : (c : ℕ) → All (λ d. is_markup d ≡ false) (escape_char c)
unfolding escape_char
escape_char-plain c = ground arith

-- A config, whatever its text, brings no markup into the message.
pub escape-plain : (s : Text) → All (λ d. is_markup d ≡ false) (escape s)
unfolding escape
escape-plain [] = tt
escape-plain (c ∷ s) =
    All-append _ (escape_char c) (escape s) (escape_char-plain c) (escape-plain s)
