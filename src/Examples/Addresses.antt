-- ===== src/Examples/Addresses.antt =====
-- core/ip_manager.py at concrete addresses and configs.
use config_manager.Prelude.{
  ℕ, ◌≡◌, ◌<◌, ◌*◌, ◌+◌, ◌%◌, refl, some, [], ◌∷◌, arith, length, get_elem?, get_or,
}
use config_manager.Prelude.Text.{
  Text, text_eq, text_beq, after, codes, starts_with, strip, lstrip, rstrip, has, is_space, before,
}
use config_manager.Utils.Codec.{str, Codec, set_field, vmess_payload, RoundTrips}
use config_manager.Utils.Host.{search_host, extract_host, host_here}
use config_manager.Utils.Ip.{dotted, octet}
use config_manager.IpManager.{
  parse_ips_from_text, format_configs_as_text, apply_ip_to_config, apply_ips_to_configs, applied,
  sub_host, sub_hosts, with_fragment, apply_ip_link, new_fragment, replace,
}
use config_manager.IpManager.Hosts.{search_host-apply_ip_to_config, extract_host-apply_ip_to_config}
use config_manager.IpManager.Rotation.{apply_ips_to_configs-rotation}
use config_manager.IpManager.Reading.{parse_ips_from_text-format_configs_as_text}
use config_manager.Examples.Values.{sample_object, two_objects, no_codec, link, stored_row}

parse_ips_from_text-format_configs_as_text_example :
    parse_ips_from_text (format_configs_as_text (codes "10.0.0.1" ∷ codes "192.168.1.255" ∷ []))
    ≡ codes "10.0.0.1" ∷ codes "192.168.1.255" ∷ []
unfolding dotted octet
parse_ips_from_text-format_configs_as_text_example =
    parse_ips_from_text-format_configs_as_text (codes "10.0.0.1" ∷ codes "192.168.1.255" ∷ []) (
      record {
        a = 10;
        b = 0;
        c = 0;
        d = 1;
        a_le = omega arith;
        b_le = omega arith;
        c_le = omega arith;
        d_le = omega arith;
        printed = refl;
      },
      (
        record {
          a = 192;
          b = 168;
          c = 1;
          d = 255;
          a_le = omega arith;
          b_le = omega arith;
          c_le = omega arith;
          d_le = omega arith;
          printed = refl;
        },
        tt,
      ),
    )

apply_ips_to_configs-rotation_example :
    (length (
        apply_ips_to_configs no_codec
          (codes "1.1.1.1" ∷ codes "2.2.2.2" ∷ [])
          (stored_row ∷ stored_row ∷ [])
          3)
      ≡ length (codes "1.1.1.1" ∷ codes "2.2.2.2" ∷ []) * 3)
    × ((j k : ℕ) (ip : Text)
        → get_elem? (codes "1.1.1.1" ∷ codes "2.2.2.2" ∷ []) j ≡ some ip
        → k < 3
        → get_elem?
            (apply_ips_to_configs no_codec
              (codes "1.1.1.1" ∷ codes "2.2.2.2" ∷ [])
              (stored_row ∷ stored_row ∷ [])
              3)
            (j * 3 + k)
          ≡ some (
              applied no_codec ip (
                get_or
                  (stored_row ∷ stored_row ∷ [])
                  (k % length (stored_row ∷ stored_row ∷ []))
                  stored_row)))
apply_ips_to_configs-rotation_example =
    apply_ips_to_configs-rotation no_codec (codes "1.1.1.1" ∷ codes "2.2.2.2" ∷ []) stored_row
      (stored_row ∷ []) 3

search_host-apply_ip_to_config_example :
    search_host (codes "vless://u@1.1.1.1:443?x=1#old") ≡ some (codes "1.1.1.1")
unfolding apply_ip_to_config starts_with strip lstrip rstrip is_space before has search_host
    host_here sub_host sub_hosts with_fragment apply_ip_link after text_beq new_fragment replace
search_host-apply_ip_to_config_example =
    search_host-apply_ip_to_config no_codec link b'1' (codes ".1.1.1") (codes "a.b")
      (codes "vless://u@1.1.1.1:443?x=1#old") refl refl refl refl refl

-- the codec of the example, whose link has the payload "wxyz"
abbrev moving : Codec
moving = two_objects (set_field (codes "add") (str (codes "1.1.1.1")) sample_object) sample_object

moving-RoundTrips :
    RoundTrips moving (set_field (codes "add") (str (codes "1.1.1.1")) sample_object)
unfolding strip lstrip rstrip is_space set_field text_beq
moving-RoundTrips = record {
  no_space = refl;
  aligned = refl;
  decoded = refl;
  decoded_ignore = refl;
}

extract_host-apply_ip_to_config_example :
    (result : Text) × (apply_ip_to_config moving (codes "vmess://wxyz") (codes "1.1.1.1")
      ≡ some result)
    × (extract_host moving result ≡ some (str (codes "1.1.1.1")))
unfolding starts_with vmess_payload strip lstrip rstrip is_space text_beq
extract_host-apply_ip_to_config_example =
    extract_host-apply_ip_to_config moving (codes "vmess://wxyz") (codes "1.1.1.1") sample_object
      refl refl moving-RoundTrips
