-- ===== src/Utils/Quote.antt =====
-- `urllib.parse.quote(text, safe="")`, which the watermark goes through: the bytes of the UTF-8 form,
-- those outside the unreserved characters as `%XX`.
use config_manager.Prelude.{
  ℕ, ◌+◌, ◌/◌, ◌%◌, Bool, ◌||◌, ◌&&◌, List, [], ◌∷◌, ◌++◌, ltb, leb, nat_beq, if◌then◌else◌,
}
use config_manager.Prelude.Text.{Text}

utf8 : ℕ → List ℕ
utf8 c =
    if ltb c 0x80
    then c ∷ []
    else if ltb c 0x800
    then (0xc0 + c / 64) ∷ (0x80 + c % 64) ∷ []
    else if ltb c 0x10000
    then (0xe0 + c / 4096) ∷ (0x80 + c / 64 % 64) ∷ (0x80 + c % 64) ∷ []
    else (0xf0 + c / 262144) ∷ (0x80 + c / 4096 % 64) ∷ (0x80 + c / 64 % 64) ∷ (0x80 + c % 64) ∷ []

unreserved : ℕ → Bool
unreserved c =
    (leb b'A' c && leb c b'Z')
    || (leb b'a' c && leb c b'z')
    || (leb b'0' c && leb c b'9')
    || nat_beq c b'_'
    || nat_beq c b'.'
    || nat_beq c b'-'
    || nat_beq c b'~'

hex_digit : ℕ → ℕ
hex_digit n = if ltb n 10 then b'0' + n else b'7' + n

quote_byte : ℕ → Text
unfolding unreserved hex_digit
quote_byte b = if unreserved b then b ∷ [] else b'%' ∷ hex_digit (b / 16) ∷ hex_digit (b % 16) ∷ []

quote_bytes : List ℕ → Text
quote_bytes [] = []
quote_bytes (b ∷ bs) = quote_byte b ++ quote_bytes bs

unfoldable pub quote : Text → Text
unfolding quote_bytes utf8 quote_byte
quote [] = []
quote (c ∷ s) = quote_bytes (utf8 c) ++ quote s
