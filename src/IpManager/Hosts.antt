-- ===== src/IpManager/Hosts.antt =====
-- The host of a config after a clean address was put into it.
use config_manager.Prelude.{
  ℕ, ◌++◌, List-cases, ◌∙◌, ap, inr, Option-cases, inl, Bool-cases, ◌≡◌, true, false, none, some,
  [], ◌∷◌, arith, nat_beq,
}
use config_manager.Prelude.Text.{
  rstrip_of_strip, strip, before, after, starts_with, codes, Text, has, text_eq,
}
use config_manager.Utils.Protocol.{strip-scheme, vmess}
use config_manager.Utils.Codec.{
  Object, Codec, str, set_field, get_field, get_field-set_field_self, vmess_payload,
  vmess_payload-encode, RoundTrips,
}
use config_manager.Utils.Host.{
  search_host-append_left, extract_host, colon_of_host_here, has_of_search_host, host_here_colon,
  host_here, search_host, host_here-append,
}
use config_manager.IpManager.{
  sub_hosts, with_fragment, new_fragment, apply_ip_vmess, apply_ip_to_config, apply_ip_link,
  sub_host,
}

sub_host-colon : (ip s : Text) → host_here (sub_host false ip (b':' ∷ s)) ≡ none
unfolding sub_host
sub_host-colon ip s = host_here_colon (sub_host false ip s)

-- A text in which the pattern finds a host: with the hosts replaced it finds the new one.
pub search_host-sub_host :
    (c : ℕ) (ip s host : Text)
    → has b':' (c ∷ ip) ≡ false
    → search_host s ≡ some host
    → search_host (sub_host false (c ∷ ip) s) ≡ some (c ∷ ip)
unfolding search_host sub_host
search_host-sub_host c ip [] host clean h = cc
search_host-sub_host c ip (d ∷ s) host clean h = elim (Bool-cases (nat_beq d b'@')) [
  | inl at ↦ elim (Option-cases (host_here s)) [
    | inl off ↦
        let colon = has_of_search_host s host (ground arith) in
        let (r, e) = colon_of_host_here s off colon in
        let ih = search_host-sub_host c ip s host clean (ground arith) in
        let kept : host_here (sub_host false (c ∷ ip) s) ≡ none =
          rw e (sub_host-colon (c ∷ ip) r) in
        ground arith
    | inr (x, on) ↦ ground (arith, host_here-append c ip (sub_host true (c ∷ ip) s) clean)
  ]
  | inr other ↦ ground (arith, search_host-sub_host c ip s host clean)
]

strip-vmess : (s : Text) → strip s ≡ s → strip (codes "vmess://" ++ s) ≡ codes "vmess://" ++ s
strip-vmess s h =
    strip-scheme vmess s ∙ ap (λ (t : Text). codes "vmess://" ++ t) (rstrip_of_strip s h)

extract_host-vmess :
    (codec : Codec) (o : Object)
    → RoundTrips codec o
    → extract_host codec (codes "vmess://" ++ codec.encode o) ≡ get_field (codes "add") o
unfolding extract_host starts_with
extract_host-vmess codec o r =
    rw (strip-vmess (codec.encode o) r.no_space)
      (rw (vmess_payload-encode codec o r) (rw r.decoded_ignore))

-- A vless, trojan or ss link whose main part has a host, and an address without a colon or a backslash: when `apply_ip_to_config` returns a config,
-- the pattern finds the new address in it as the host, and not the old one.
pub search_host-apply_ip_to_config :
    (codec : Codec) (given : Text) (c : ℕ) (ip host result : Text)
    → starts_with (codes "vmess://") (strip given) ≡ false
    → search_host (strip (before b'#' (strip given))) ≡ some host
    → has b':' (c ∷ ip) ≡ false
    → has 92 (c ∷ ip) ≡ false
    → apply_ip_to_config codec given (c ∷ ip) ≡ some result
    → search_host result ≡ some (c ∷ ip)
unfolding apply_ip_to_config apply_ip_link sub_hosts with_fragment
search_host-apply_ip_to_config codec given c ip host result link found clean plain e =
    let base = strip (before b'#' (strip given)) in
    let new = search_host-sub_host c ip base host clean found in
    elim (List-cases (after b'#' (strip given))) [
      | inl none_left ↦ ground (arith, new)
      | inr (d, (f, some_left)) ↦ ground (
        arith,
        search_host-append_left (sub_host false (c ∷ ip) base)
            (b'#' ∷ new_fragment base (d ∷ f) (c ∷ ip)) (c ∷ ip) new,
      )
    ]

-- A vmess link whose payload reads as the object `o`: the config that `apply_ip_to_config` returns
-- has the new address for its host.
pub extract_host-apply_ip_to_config :
    (codec : Codec) (given ip : Text) (o : Object)
    → starts_with (codes "vmess://") (strip given) ≡ true
    → codec.decode (vmess_payload (strip given)) ≡ some o
    → RoundTrips codec (set_field (codes "add") (str ip) o)
    → (result : Text) × (apply_ip_to_config codec given ip ≡ some result)
      × (extract_host codec result ≡ some (str ip))
unfolding apply_ip_to_config apply_ip_vmess
extract_host-apply_ip_to_config codec given ip o v d r =
    let o' = set_field (codes "add") (str ip) o in
    (
      codes "vmess://" ++ codec.encode o',
      rw v (rw (d, apply_ip_vmess)),
      extract_host-vmess codec o' r ∙ get_field-set_field_self (codes "add") ip o,
    )
