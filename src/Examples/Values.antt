-- ===== src/Examples/Values.antt =====
-- Values for the examples: MD5 as the identity, tables that know only ASCII, and a codec of vmess
-- payloads that knows one object.
use config_manager.Prelude.{if◌then◌else◌, false, true, none, some, [], ◌∷◌, ◌==◌, Bool}
use config_manager.Prelude.Text.{Text, text_eq, codes}
use config_manager.Prelude.Case.{ascii_only}
use config_manager.Utils.Codec.{Value, str, scalar, Object, Codec}
use config_manager.Database.Models.{ProcessedConfig}
use config_manager.Database.Configs.{ConfigTable, Validated}
use config_manager.Validator.{Context, Validator}

abbrev pub same_text : Text → Text
same_text t = t

-- a payload with a host
abbrev pub sample_object : Object
sample_object =
    (codes "add", str (codes "1.2.3.4")) ∷ (codes "port", scalar true (codes "443")) ∷ []

-- A codec that writes one text, which reads as the object `new`; any other text reads as `old`.
abbrev pub two_objects : Object → Object → Codec
two_objects new old = record {
  decode = λ t. some (if t == codes "abcd" then new else old);
  decode_ignore = λ t. some (if t == codes "abcd" then new else old);
  sub_escapes = λ template t. none;
  encode = λ x. codes "abcd";
}

abbrev pub no_codec : Codec
no_codec = record {
  decode = λ t. none;
  decode_ignore = λ t. none;
  encode = λ x. [];
  sub_escapes = λ template t. none;
}

abbrev pub link : Text
link = codes "vless://u@a.b:443?x=1#old"

abbrev pub other_link : Text
other_link = codes "trojan://p@c.d:80#new"

abbrev pub same_value : Value → Value → Bool
same_value (str a) (str b) = a == b
same_value _ _ = false

abbrev pub plain_context : Context
plain_context = record {
  unicode = ascii_only;
  codec = no_codec;
  channel = codes "@chan";
  md5 = same_text;
  same_key = same_value;
}

abbrev pub new_validator : Validator
new_validator = record { seen_hashes = []; country_cache = [] }

abbrev pub empty_table : ConfigTable
empty_table = record { rows = []; next_id = 1 }

abbrev pub first_item : Validated
first_item = record {
  raw_config = link;
  watermarked_config = codes "vless://u@a.b:443?x=1#w";
  config_hash = codes "h1";
  country_code = codes "DE";
  protocol = codes "vless";
  host = some (str (codes "a.b"));
}

abbrev pub second_item : Validated
second_item = record {
  raw_config = other_link;
  watermarked_config = codes "trojan://p@c.d:80#w";
  config_hash = codes "h2";
  country_code = codes "US";
  protocol = codes "trojan";
  host = some (str (codes "c.d"));
}

abbrev pub stored_row : ProcessedConfig
stored_row = record {
  id = 1;
  raw_config = link;
  watermarked_config = some (codes "vless://u@a.b:443?x=1#w");
  config_hash = codes "h1";
  country_code = some (codes "DE");
  protocol = some (codes "vless");
  host = some (str (codes "a.b"));
  source = none;
  is_valid = true;
  created_at = 5;
}

abbrev pub one_row : ConfigTable
one_row = record { rows = stored_row ∷ []; next_id = 2 }
