-- ===== src/IpManager.antt =====
-- core/ip_manager.py: reading clean addresses, and putting them into configs.
pub mod Hosts
pub mod Rotation
pub mod Reading
use config_manager.Prelude.{
  ℕ, zero, suc, ◌+◌, ◌-◌, ◌%◌, ◌≡◌, Bool, true, false, ◌||◌, ◌&&◌, Option, none, some, List, [],
  ◌∷◌, ◌++◌, nat_beq, if◌then◌else◌, length, filter_where, ◌==◌, get_or,
}
use config_manager.Prelude.Text.{
  Text, text_eq, codes, starts_with, strip, before, after, is_space, has,
}
use config_manager.Utils.Codec.{str, Codec, set_field, vmess_payload}
use config_manager.Utils.Host.{host_here, search_host}
use config_manager.Utils.Ip.{is_valid_ip}
use config_manager.Database.Models.{ProcessedConfig, config_text}

-- a separator of `[\n\r,\s]+`
unfoldable pub is_separator : ℕ → Bool
is_separator c = is_space c || nat_beq c b','

-- The candidates of `re.split`, without the empty ones, which the loop passes over. `word` holds
-- what was read of the current candidate.
flush : Text → List Text → List Text
flush [] rest = rest
flush (c ∷ w) rest = (c ∷ w) ∷ rest

unfoldable pub candidates : Text → Text → List Text
unfolding flush
candidates word [] = flush word []
candidates word (c ∷ s) =
    let next = candidates [] s in
    let more = candidates (word ++ c ∷ []) s in if is_separator c then flush word next else more

unfoldable pub parse_ips_from_text : Text → List Text
parse_ips_from_text text = filter_where is_valid_ip (candidates [] (strip text))

-- `re.sub(r"@[^:]+:", f"@{ip}:", s)`; the first argument tells whether a host is being skipped. The replacement is a
-- template: this is what it does for an `ip` without a backslash.
unfoldable pub sub_host : Bool → Text → Text → Text
sub_host skipping ip [] = []
sub_host true ip (c ∷ s) = sub_host (if nat_beq c b':' then false else true) ip s
sub_host false ip (c ∷ s) =
    let replaced = b'@' ∷ (ip ++ b':' ∷ sub_host true ip s) in
    let kept = c ∷ sub_host false ip s in
    if nat_beq c b'@' then elim (host_here s) [ none ↦ kept | some h ↦ replaced ] else kept

-- `s.replace(old, new)`; the first argument counts the code points of a match still to be dropped.
unfoldable pub replace : ℕ → Text → Text → Text → Text
replace skip old new [] = []
replace (suc skip) old new (c ∷ s) = replace skip old new s
replace zero old new (c ∷ s) =
    let found = new ++ replace (length old - 1) old new s in
    let kept = c ∷ replace zero old new s in if starts_with old (c ∷ s) then found else kept

-- `_apply_ip_vmess`
unfoldable pub apply_ip_vmess : Codec → Text → Text → Option Text
apply_ip_vmess codec config ip = elim (codec.decode (vmess_payload config)) [
  | none ↦ none
  | some o ↦ some (codes "vmess://" ++ codec.encode (set_field (codes "add") (str ip) o))
]

-- the fragment with the old host replaced
unfoldable pub new_fragment : Text → Text → Text → Text
new_fragment base fragment ip = elim (search_host base) [
  | none ↦ fragment
  | some oldhost ↦ replace zero (b'-' ∷ oldhost) (b'-' ∷ ip) fragment
]

-- `re.sub(r"@[^:]+:", f"@{ip}:", s)` for any `ip`; an exception ends in `None`.
unfoldable pub sub_hosts : Codec → Text → Text → Option Text
unfolding sub_host has
sub_hosts codec ip s =
    if has 92 ip then codec.sub_escapes (b'@' ∷ (ip ++ b':' ∷ [])) s else some (sub_host false ip s)

-- from `if fragment:` on
unfoldable pub with_fragment : Text → Text → Text → Text → Option Text
with_fragment config base ip result_base = elim (after b'#' config) [
  | [] ↦ if result_base == base then none else some result_base
  | c ∷ f ↦
      let result = result_base ++ b'#' ∷ new_fragment base (c ∷ f) ip in
      if result == config then none else some result
]

-- the branch for vless, trojan and ss
unfoldable pub apply_ip_link : Codec → Text → Text → Option Text
unfolding sub_hosts with_fragment
apply_ip_link codec config ip =
    let base = strip (before b'#' config) in
    elim (sub_hosts codec ip base) [
      | none ↦ none
      | some result_base ↦ with_fragment config base ip result_base
    ]

unfoldable pub apply_ip_to_config : Codec → Text → Text → Option Text
apply_ip_to_config codec given ip =
    let config = strip given in
    if starts_with (codes "vmess://") config
    then apply_ip_vmess codec config ip
    else apply_ip_link codec config ip

-- The text that the loop appends for one address and one row.
unfoldable pub applied : Codec → Text → ProcessedConfig → Text
applied codec ip row = elim (apply_ip_to_config codec (config_text row) ip) [
  | none ↦ config_text row
  | some modified ↦ elim modified [ [] ↦ config_text row | c ∷ s ↦ c ∷ s ]
]

-- `for i in range(apply_per_ip)`, from round `i` on, with `left` rounds to go
unfoldable pub rounds : Codec → Text → ProcessedConfig → List ProcessedConfig → ℕ → ℕ → List Text
rounds codec ip first configs i zero = []
rounds codec ip first configs i (suc left) =
    applied codec ip (get_or configs (i % length configs) first)
    ∷ rounds codec ip first configs (i + 1) left

for_ips : Codec → List Text → ProcessedConfig → List ProcessedConfig → ℕ → List Text
for_ips codec [] first configs per_ip = []
for_ips codec (ip ∷ ips) first configs per_ip =
    rounds codec ip first configs 0 per_ip ++ for_ips codec ips first configs per_ip

unfoldable pub apply_ips_to_configs : Codec → List Text → List ProcessedConfig → ℕ → List Text
unfolding for_ips
apply_ips_to_configs codec ips [] per_ip = []
apply_ips_to_configs codec ips (c ∷ cs) per_ip = for_ips codec ips c (c ∷ cs) per_ip

-- `"\n\n".join(configs)`
unfoldable pub format_configs_as_text : List Text → Text
format_configs_as_text [] = []
format_configs_as_text (c ∷ []) = c
format_configs_as_text (c ∷ d ∷ cs) = c ++ (codes "\n\n" ++ format_configs_as_text (d ∷ cs))
