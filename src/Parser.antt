-- ===== src/Parser.antt =====
-- processor/parser.py: the watermark of the channel, and the metadata of a config.
pub mod Laws
use config_manager.Prelude.{
  ℕ, ◌≡◌, Bool, true, false, Option, none, some, List, [], ◌∷◌, ◌++◌, nat_beq, if◌then◌else◌,
}
use config_manager.Prelude.Text.{Text, codes, starts_with, strip}
use config_manager.Prelude.Case.{Unicode}
use config_manager.Utils.Codec.{Value, str, Object, Codec, set_field, vmess_payload}
use config_manager.Utils.Dedup.{normalized}
use config_manager.Utils.Flag.{get_flag}
use config_manager.Utils.Host.{extract_host}
use config_manager.Utils.Protocol.{detect_protocol}
use config_manager.Utils.Quote.{quote}

-- `channel_username.lstrip("@")`
unfoldable pub channel_name : Text → Text
channel_name [] = []
channel_name (c ∷ s) = if nat_beq c b'@' then channel_name s else c ∷ s

unfoldable pub watermark_text : Unicode → Text → Text → Text
unfolding channel_name
watermark_text u channel country_code =
    get_flag u country_code ++ (codes " t.me/" ++ channel_name channel)

-- the config with its fragment replaced
unfoldable pub watermark_fragment : Text → Text → Text
watermark_fragment config watermark = normalized config ++ b'#' ∷ quote watermark

-- `_watermark_vmess`
unfoldable pub watermark_vmess : Codec → Text → Text → Text
watermark_vmess codec config watermark = elim (codec.decode (vmess_payload config)) [
  | none ↦ watermark_fragment config watermark
  | some o ↦ codes "vmess://" ++ codec.encode (set_field (codes "ps") (str watermark) o)
]

unfoldable pub inject_watermark : Unicode → Codec → Text → Text → Text → Text
inject_watermark u codec channel config country_code =
    let watermark = watermark_text u channel country_code in
    if starts_with (codes "vmess://") config
    then watermark_vmess codec config watermark
    else watermark_fragment config watermark

pub record Metadata : Type 0 where
  pub protocol : Text
  pub host : Option Value

unfoldable pub parse_metadata : Unicode → Codec → Text → Metadata
parse_metadata u codec config = record {
  protocol = detect_protocol u config;
  host = extract_host codec config;
}
