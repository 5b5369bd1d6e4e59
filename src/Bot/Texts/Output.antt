-- ===== src/Bot/Texts/Output.antt =====
-- app/handlers/admin.py, `handle_admin_text`: the performance test, and configs with clean addresses.
-- Each handler has popped its flag: `d` is what is left.
use config_manager.Prelude.{
  length, ℕ, zero, suc, ◌+◌, Bool, false, not, ◌&&◌, Option, none, some, List, [], ◌∷◌, member,
  take, leb, filter_where, ◌==◌, if◌then◌else◌,
}
use config_manager.Prelude.Text.{Text, text_eq, codes, strip}
use config_manager.Prelude.Sort.{sort_desc}
use config_manager.Utils.Numbers.{int, within}
use config_manager.Utils.Codec.{Value, null, str, scalar, container}
use config_manager.Utils.Protocol.{detect_protocol}
use config_manager.Database.Models.{ProcessedConfig}
use config_manager.Database.Sources.{get_clean_ips}
use config_manager.IpManager.{apply_ips_to_configs, format_configs_as_text}
use config_manager.Perf.{Setting, evaluate_white_configs, export_perf_results_to_txt}
use config_manager.Bot.Context.{
  awaiting_ip_count, UserData, set_flag, Store, denied, bad_number, out_of_range, nothing_found,
  no_xray, all_trojan, empty_output, count_set, outputs, file, HandlerResult, Env, require_admin,
  reply,
}

-- the clock of a row
abbrev pub made : ProcessedConfig → ℕ
made r = r.created_at

module _ (e : Env) (user_id : ℕ) (text : Text) (s : Store) (d : UserData) where
  unfoldable pub count_within : ℕ → ℕ → Option ℕ
  unfolding int within
  count_within low high = elim (int e.unicode text) [ none ↦ none | some n ↦ within low high n ]

  -- `user_data.get("ping_operator", "unknown")`, with its replacement
  unfoldable pub operator_title : Text
  operator_title = elim d.ping_operator [
    | none ↦ codes "white-perf"
    | some t ↦ if t == codes "unknown" then codes "white-perf" else t
  ]

  -- the newest 500 valid rows
  unfoldable pub newest_valid : List ProcessedConfig
  newest_valid =
      take 500 (sort_desc made (filter_where (λ (r : ProcessedConfig). r.is_valid) s.configs.rows))

  unfoldable pub setting : Setting
  setting = record { unicode = e.unicode; codec = e.codec; number = e.number; machine = e.machine }

  -- the file of the results
  unfoldable pub perf_file : List ProcessedConfig → ℕ → Text
  unfolding operator_title setting
  perf_file rows top_n =
      export_perf_results_to_txt operator_title e.stamp
        (evaluate_white_configs setting e.completed rows top_n)

  -- No right is asked for.
  unfoldable pub take_white_perf_count : HandlerResult
  unfolding count_within newest_valid perf_file reply
  take_white_perf_count = elim (count_within 100 1000) [
    | none ↦ reply s d (out_of_range ∷ [])
    | some top_n ↦ if not e.has_xray then reply s d (no_xray ∷ []) else elim newest_valid [
      | [] ↦ reply s d (nothing_found ∷ [])
      | r ∷ rs ↦ reply s d (file (perf_file (r ∷ rs) top_n) ∷ [])
    ]
  ]

  unfoldable pub take_config_count : HandlerResult
  unfolding require_admin int within set_flag reply
  take_config_count =
      if not (require_admin e user_id s)
      then reply s d (denied ∷ [])
      else elim (int e.unicode text) [
        | none ↦ reply s d (bad_number ∷ [])
        | some i ↦ elim (within 1 20 i) [
          | none ↦ reply s d (out_of_range ∷ [])
          | some n ↦
              reply s (set_flag awaiting_ip_count (record d { config_count_per_ip = some n }))
                (count_set n ∷ [])
        ]
      ]

  -- `user_data.get("config_count_per_ip", 1)`, at least 1
  unfoldable pub per_ip : ℕ
  per_ip = elim d.config_count_per_ip [ none ↦ 1 | some n ↦ elim n [ zero ↦ 1 | suc m ↦ suc m ] ]

  -- a host that is none of the addresses; a null host is not selected
  unfoldable pub host_outside : List Text → Option Value → Bool
  host_outside ips none = false
  host_outside ips (some null) = false
  host_outside ips (some (str h)) = not (member h ips)
  host_outside ips (some (scalar b t)) = not (member t ips)
  host_outside ips (some (container b t)) = not (member t ips)

  -- `ProcessedConfig.protocol != "trojan"`; a null protocol is not selected.
  unfoldable pub not_trojan : Option Text → Bool
  not_trojan none = false
  not_trojan (some p) = not (p == codes "trojan")

  -- valid rows of the last day, by the two tests above, the newest
  unfoldable pub base_configs : List Text → List ProcessedConfig
  unfolding host_outside not_trojan per_ip
  base_configs ips = take per_ip (
      sort_desc made (
        filter_where
          (λ (r : ProcessedConfig).
            leb e.now (r.created_at + 86400)
            && r.is_valid
            && not_trojan r.protocol
            && host_outside ips r.host)
          s.configs.rows))

  -- The loop that strips the texts, and drops the empty ones and those of trojan.
  unfoldable pub filtered_texts : List Text → List Text
  filtered_texts [] = []
  filtered_texts (t ∷ ts) =
      let rest = filtered_texts ts in
      elim (strip t) [
        | [] ↦ rest
        | c ∷ cfg ↦
            if detect_protocol e.unicode (c ∷ cfg) == codes "trojan" then rest else (c ∷ cfg) ∷ rest
      ]

  -- `[c for c in output_configs if c]`
  unfoldable pub nonempty : List Text → List Text
  nonempty [] = []
  nonempty ([] ∷ ts) = nonempty ts
  nonempty ((c ∷ t) ∷ ts) = (c ∷ t) ∷ nonempty ts

  unfoldable pub write_outputs : List Text → HandlerResult
  unfolding filtered_texts reply
  write_outputs [] = reply s d (empty_output ∷ [])
  write_outputs (t ∷ ts) = elim (filtered_texts (t ∷ ts)) [
    | [] ↦ reply s d (all_trojan ∷ [])
    | c ∷ cs ↦ reply s d (outputs (length (c ∷ cs)) ∷ file (format_configs_as_text (c ∷ cs)) ∷ [])
  ]

  unfoldable pub generate : List Text → HandlerResult
  unfolding base_configs write_outputs nonempty per_ip reply
  generate ips = elim (base_configs ips) [
    | [] ↦ reply s d (nothing_found ∷ [])
    | r ∷ rs ↦ write_outputs (nonempty (apply_ips_to_configs e.codec ips (r ∷ rs) per_ip))
  ]

  unfoldable pub take_ip_count : HandlerResult
  unfolding require_admin int within generate reply
  take_ip_count =
      if not (require_admin e user_id s)
      then reply s d (denied ∷ [])
      else elim (int e.unicode text) [
        | none ↦ reply s d (bad_number ∷ [])
        | some i ↦ elim (within 1 50 i) [
          | none ↦ reply s d (out_of_range ∷ [])
          | some n ↦ elim (get_clean_ips s.clean_ips n) [
            | [] ↦ reply s d (nothing_found ∷ [])
            | ip ∷ ips ↦ generate (ip ∷ ips)
          ]
        ]
      ]
