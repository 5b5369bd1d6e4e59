-- ===== src/Utils/Protocol.antt =====
-- core/utils.py, `detect_protocol`.
use config_manager.Prelude.{ℕ, ◌≡◌, refl, false, ◌∷◌, ◌++◌, if◌then◌else◌, All}
use config_manager.Prelude.Text.{
  rstrip-append, Text, codes, starts_with, strip, is_space, rstrip, strip_cons,
}
use config_manager.Prelude.Case.{Unicode, lower, lower-append}

-- the values that the function returns
abbrev pub vless_name : Text
vless_name = codes "vless"

abbrev pub vmess_name : Text
vmess_name = codes "vmess"

abbrev pub trojan_name : Text
trojan_name = codes "trojan"

abbrev pub shadowsocks_name : Text
shadowsocks_name = codes "shadowsocks"

abbrev pub unknown_name : Text
unknown_name = codes "unknown"

unfoldable pub detect_protocol : Unicode → Text → Text
detect_protocol u config =
    let lowered = strip (lower u config) in
    if starts_with (codes "vless://") lowered
    then vless_name
    else if starts_with (codes "vmess://") lowered
    then vmess_name
    else if starts_with (codes "trojan://") lowered
    then trojan_name
    else if starts_with (codes "ss://") lowered
    then shadowsocks_name
    else unknown_name

-- The four protocols, their schemes, and the names that the database stores.
pub data Protocol : Type 0 where
  vless vmess trojan shadowsocks : Protocol

abbrev pub scheme : Protocol → Text
scheme vless = codes "vless://"
scheme vmess = codes "vmess://"
scheme trojan = codes "trojan://"
scheme shadowsocks = codes "ss://"

abbrev pub protocol_name : Protocol → Text
protocol_name vless = vless_name
protocol_name vmess = vmess_name
protocol_name trojan = trojan_name
protocol_name shadowsocks = shadowsocks_name

strip-append :
    (c : ℕ) (p t : Text)
    → All (λ d. is_space d ≡ false) (c ∷ p)
    → strip (c ∷ (p ++ t)) ≡ c ∷ (p ++ rstrip t)
strip-append c p t h = rw (strip_cons c (p ++ t) h.0, rstrip-append p t h.1)

pub strip-scheme : (k : Protocol) (t : Text) → strip (scheme k ++ t) ≡ scheme k ++ rstrip t
unfolding is_space
strip-scheme vless t =
    strip-append b'v' (codes "less://") t
      (refl, (refl, (refl, (refl, (refl, (refl, (refl, (refl, tt))))))))
strip-scheme vmess t =
    strip-append b'v' (codes "mess://") t
      (refl, (refl, (refl, (refl, (refl, (refl, (refl, (refl, tt))))))))
strip-scheme trojan t =
    strip-append b't' (codes "rojan://") t
      (refl, (refl, (refl, (refl, (refl, (refl, (refl, (refl, (refl, tt)))))))))
strip-scheme shadowsocks t =
    strip-append b's' (codes "s://") t (refl, (refl, (refl, (refl, (refl, tt)))))

detect_lowered :
    (u : Unicode) (k : Protocol) (config t : Text)
    → strip (lower u config) ≡ scheme k ++ t
    → detect_protocol u config ≡ protocol_name k
unfolding detect_protocol starts_with
detect_lowered u vless config t h = rw h
detect_lowered u vmess config t h = rw h
detect_lowered u trojan config t h = rw h
detect_lowered u shadowsocks config t h = rw h

-- A link that begins with one of the four schemes, in any letter case, is of that protocol.
pub detect_protocol-scheme :
    (u : Unicode) (k : Protocol) (prefix rest : Text)
    → lower u prefix ≡ scheme k
    → detect_protocol u (prefix ++ rest) ≡ protocol_name k
detect_protocol-scheme u k prefix rest h =
    detect_lowered u k (prefix ++ rest) (rstrip (lower u rest))
      (rw (lower-append u prefix rest, h) (strip-scheme k (lower u rest)))
