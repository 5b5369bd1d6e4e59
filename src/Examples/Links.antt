-- ===== src/Examples/Links.antt =====
-- core/utils.py and processor/parser.py at concrete links.
use config_manager.Prelude.{◌≡◌, ◌≢◌, ◌↔◌, refl, true, some, [], ◌∷◌, arith}
use config_manager.Prelude.Text.{
  Text, text_eq, text_beq, codes, starts_with, strip, lstrip, rstrip, is_space,
}
use config_manager.Prelude.Case.{ascii_only}
use config_manager.Utils.Codec.{str, Object, Codec, get_field, set_field, vmess_payload, RoundTrips}
use config_manager.Utils.Limiter.{acquire, Granted, acquire-Granted}
use config_manager.Utils.Ip.{is_valid_ip, Quad, is_valid_ip_iff}
use config_manager.Utils.Dedup.{config_hash}
use config_manager.Parser.{inject_watermark, watermark_text}
use config_manager.Parser.Laws.{config_hash-inject_watermark, inject_watermark-vmess}
use config_manager.Examples.Values.{same_text, sample_object, two_objects, no_codec, link}

is_valid_ip_iff_example :
    (is_valid_ip (codes " 10.0.0.1 ") ≡ true) ↔ Quad (strip (codes " 10.0.0.1 "))
is_valid_ip_iff_example = is_valid_ip_iff (codes " 10.0.0.1 ")

acquire-Granted_example : Granted 2 599 601 (0 ∷ 599 ∷ []) (acquire 2 599 601 (0 ∷ 599 ∷ []))
acquire-Granted_example = acquire-Granted 2 599 601 (0 ∷ 599 ∷ []) (omega arith) (omega arith)

config_hash-inject_watermark_example :
    config_hash same_text (inject_watermark ascii_only no_codec (codes "@chan") link (codes "DE"))
    ≡ config_hash same_text link
unfolding starts_with
config_hash-inject_watermark_example =
    config_hash-inject_watermark same_text ascii_only no_codec (codes "@chan") link (codes "DE")
      refl

-- the codec of the example, whose link has the payload "wxyz"
abbrev marking : Codec
marking =
    two_objects
      (set_field (codes "ps") (str (watermark_text ascii_only (codes "@chan") (codes "DE")))
        sample_object)
      sample_object

marking-RoundTrips : RoundTrips marking (
    set_field
      (codes "ps")
      (str (watermark_text ascii_only (codes "@chan") (codes "DE")))
      sample_object)
unfolding strip lstrip rstrip is_space set_field text_beq
marking-RoundTrips = record {
  no_space = refl;
  aligned = refl;
  decoded = refl;
  decoded_ignore = refl;
}

inject_watermark-vmess_example :
    (o' : Object) × (marking.decode (
        vmess_payload
          (inject_watermark ascii_only marking (codes "@chan") (codes "vmess://wxyz") (codes "DE")))
      ≡ some o')
    × (get_field (codes "ps") o'
        ≡ some (str (watermark_text ascii_only (codes "@chan") (codes "DE"))))
    × ((key : Text) → key ≢ codes "ps" → get_field key o' ≡ get_field key sample_object)
unfolding starts_with vmess_payload strip lstrip rstrip is_space text_beq
inject_watermark-vmess_example =
    inject_watermark-vmess ascii_only marking (codes "@chan") (codes "vmess://wxyz") (codes "DE")
      sample_object refl refl marking-RoundTrips
