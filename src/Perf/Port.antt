-- ===== src/Perf/Port.antt =====
-- core/utils.py, `extract_port`: the port of a config, from the pattern `:(\d+)(?:\?|#|$|/)` or from the
-- payload of a vmess link.
use config_manager.Prelude.{
  ℕ, ◌+◌, ◌*◌, Bool, true, false, ◌||◌, Option, none, some, [], ◌∷◌, nat_beq, if◌then◌else◌,
}
use config_manager.Prelude.Text.{Text, codes, starts_with}
use config_manager.Prelude.Case.{Unicode, digit_char}
use config_manager.Utils.Codec.{
  Codec, Value, null, str, scalar, container, truthy, get_field, vmess_payload,
}
use config_manager.Utils.Numbers.{ℤ, pos, int}

-- `(?:\?|#|$|/)` at a place; `$` also stands before a line feed at the end.
unfoldable pub ends_port : Text → Bool
ends_port [] = true
ends_port (c ∷ []) = nat_beq c b'?' || nat_beq c b'#' || nat_beq c b'/' || nat_beq c b'\n'
ends_port (c ∷ d ∷ s) = nat_beq c b'?' || nat_beq c b'#' || nat_beq c b'/'

-- the digits at the front of a text, as a number, if there is one and the pattern fits behind them
unfoldable pub port_from : Unicode → ℕ → Bool → Text → Option ℕ
port_from u value any [] = if any then some value else none
port_from u value any (c ∷ s) = elim (digit_char u c) [
  | some d ↦ port_from u (value * 10 + d) true s
  | none ↦ if any then (if ends_port (c ∷ s) then some value else none) else none
]

-- `re.search`: the leftmost colon at which the pattern fits
unfoldable pub search_port : Unicode → Text → Option ℕ
unfolding port_from ends_port
search_port u [] = none
search_port u (c ∷ s) =
    let later = search_port u s in
    if nat_beq c b':'
    then elim (port_from u 0 false s) [ none ↦ later | some n ↦ some n ]
    else later

-- `int(port) if port else None`
unfoldable pub port_value : Unicode → (Text → Option ℤ) → Value → Option ℤ
port_value u number null = none
port_value u number (str t) = if truthy (str t) then int u t else none
port_value u number (scalar b t) = if truthy (scalar b t) then number t else none
port_value u number (container b t) = none

unfoldable pub extract_port : Unicode → Codec → (Text → Option ℤ) → Text → Option ℤ
unfolding search_port port_value
extract_port u codec number config =
    if starts_with (codes "vmess://") config
    then elim (codec.decode_ignore (vmess_payload config)) [
      | none ↦ none
      | some o ↦ elim (get_field (codes "port") o) [ none ↦ none | some v ↦ port_value u number v ]
    ]
    else elim (search_port u config) [ none ↦ none | some n ↦ some (pos n) ]
