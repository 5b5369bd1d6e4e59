-- ===== src/Bot/Buttons.antt =====
-- app/handlers/admin.py, `admin_callback`: the buttons of the administrators. The chain of tests is cut
-- into the parts of the panel; each takes what the tests after it give.
use config_manager.Prelude.{
  ℕ, ◌+◌, Bool, true, false, not, ◌&&◌, ◌||◌, Option, none, some, List, [], ◌∷◌, leb, take,
  filter_where, member, ◌==◌, if◌then◌else◌,
}
use config_manager.Prelude.Text.{Text, text_eq, codes, starts_with}
use config_manager.Prelude.Sort.{sort_desc}
use config_manager.Utils.Ip.{split_on}
use config_manager.Database.Models.{ProcessedConfig}
use config_manager.Database.Users.{count_users, total_starts, list_admins_with_info, list_vips}
use config_manager.Database.Configs.{count_configs}
use config_manager.Database.Sources.{
  list_scraper_sources, toggle_scraper_source, count_clean_ips, SourceTable,
}
use config_manager.Utils.Numbers.{ℤ, pos, negsuc, int}
use config_manager.Bot.Context.{
  Flag, awaiting_admin_id, awaiting_remove_admin, awaiting_vip_id, awaiting_vip_remove,
  awaiting_ip_single, awaiting_ip_bulk, awaiting_scraper_tg, awaiting_scraper_sub, broadcast_mode,
  vip_broadcast_mode, awaiting_white_perf_count, awaiting_config_count, awaiting_clean_ip,
  awaiting_ping_threshold, UserData, set_flag, Store, Shown, denied, owner_only, panel, asks_for,
  nothing_found, admin_list, vip_list, source_list, config_list, number_of_users, number_of_ips,
  totals, health_summary, scraper_state, source_toggled, HandlerResult, Env, is_owner,
  require_admin, scraper_is_enabled, scraper_known, reply, decline, throw,
}

-- `admin_routes`
abbrev pub admin_routes : List Text
admin_routes =
    codes "admin_panel"
    ∷ codes "add_admin"
    ∷ codes "admin_users"
    ∷ codes "admin_stats"
    ∷ codes "admin_broadcast"
    ∷ codes "vip_panel"
    ∷ codes "vip_add"
    ∷ codes "vip_remove"
    ∷ codes "vip_list"
    ∷ codes "vip_broadcast"
    ∷ codes "clean_ip_menu"
    ∷ codes "clean_ip_upload"
    ∷ codes "list_clean_ip"
    ∷ codes "scraper_status"
    ∷ codes "scraper_toggle"
    ∷ codes "scraper_menu"
    ∷ codes "scraper_add_tg"
    ∷ codes "scraper_add_sub"
    ∷ codes "scraper_remove"
    ∷ codes "scraper_list"
    ∷ codes "ip_management_menu"
    ∷ codes "ip_single"
    ∷ codes "ip_bulk"
    ∷ codes "ip_file"
    ∷ codes "list_admins"
    ∷ codes "remove_admin"
    ∷ codes "health_check"
    ∷ codes "ip_config_count"
    ∷ codes "ip_generated_configs"
    ∷ codes "white_configs_menu"
    ∷ codes "request_white_configs_perf"
    ∷ []

-- the negation of the first test
unfoldable pub is_admin_route : Text → Bool
is_admin_route query =
    member query admin_routes || starts_with (codes "scraper_toggle_source") query

module _ (e : Env) (user_id : ℕ) (query : Text) (s : Store) (d : UserData) where
  -- `user_data[flag] = True`, and the question
  unfoldable pub ask : Flag → HandlerResult
  unfolding set_flag reply
  ask f = reply s (set_flag f d) (asks_for f ∷ [])

  unfoldable pub people_buttons : HandlerResult → HandlerResult
  unfolding ask reply is_owner scraper_is_enabled scraper_known
  people_buttons rest =
      if query == codes "admin_panel"
      then reply s d (panel (codes "admin_panel") ∷ [])
      else if query == codes "add_admin"
      then (if is_owner e user_id then ask awaiting_admin_id else reply s d (owner_only ∷ []))
      else if query == codes "list_admins"
      then (elim (list_admins_with_info s.admins) [
        | [] ↦ reply s d (nothing_found ∷ [])
        | a ∷ others ↦ reply s d (admin_list (a ∷ others) ∷ [])
      ])
      else if query == codes "remove_admin"
      then ask awaiting_remove_admin
      else if query == codes "admin_users"
      then reply s d (number_of_users (count_users s.users) ∷ [])
      else if query == codes "admin_stats"
      then reply s d (totals (count_users s.users) (total_starts s.stats) ∷ [])
      else if query == codes "admin_broadcast"
      then ask broadcast_mode
      else if query == codes "health_check"
      then reply (scraper_known s) d (
          health_summary e.database_answers (count_users s.users) (count_configs s.configs)
            (scraper_is_enabled s)
          ∷ [])
      else rest

  -- The last two tests are never reached, since their texts are no routes.
  unfoldable pub white_buttons : HandlerResult → HandlerResult
  unfolding ask reply set_flag
  white_buttons rest =
      if query == codes "white_configs_menu"
      then reply s d (panel (codes "white_configs_menu") ∷ [])
      else if query == codes "request_white_configs_perf"
      then ask awaiting_white_perf_count
      else if query == codes "ping_irancell"
      then reply s
          (set_flag awaiting_ping_threshold (record d { ping_operator = some (codes "irancell") }))
          (asks_for awaiting_ping_threshold ∷ [])
      else if query == codes "ping_mci"
      then reply s
          (set_flag awaiting_ping_threshold (record d { ping_operator = some (codes "mci") }))
          (asks_for awaiting_ping_threshold ∷ [])
      else rest

  unfoldable pub vip_buttons : HandlerResult → HandlerResult
  unfolding ask reply
  vip_buttons rest =
      if query == codes "vip_panel"
      then reply s d (panel (codes "vip_panel") ∷ [])
      else if query == codes "vip_add"
      then ask awaiting_vip_id
      else if query == codes "vip_remove"
      then ask awaiting_vip_remove
      else if query == codes "vip_list"
      then (elim (list_vips s.vips 50) [
        | [] ↦ reply s d (nothing_found ∷ [])
        | v ∷ vs ↦ reply s d (vip_list (take 50 (v ∷ vs)) ∷ [])
      ])
      else if query == codes "vip_broadcast"
      then ask vip_broadcast_mode
      else rest

  -- the rows with a host that are at most a day old, the newest 50
  unfoldable pub generated_configs : List ProcessedConfig
  generated_configs =
      let recent =
        filter_where
          (λ (r : ProcessedConfig).
            leb e.now (r.created_at + 86400) && elim r.host [ none ↦ false | some h ↦ true ])
          s.configs.rows in
      take 50 (sort_desc (λ (r : ProcessedConfig). r.created_at) recent)

  unfoldable pub address_buttons : HandlerResult → HandlerResult
  unfolding ask reply generated_configs
  address_buttons rest =
      if query == codes "clean_ip_menu"
      then reply s d (panel (codes "clean_ip_menu") ∷ [])
      else if query == codes "clean_ip_upload"
      then ask awaiting_clean_ip
      else if query == codes "list_clean_ip"
      then reply s d (number_of_ips (count_clean_ips s.clean_ips) ∷ [])
      else if query == codes "ip_config_count"
      then ask awaiting_config_count
      else if query == codes "ip_generated_configs"
      then (elim generated_configs [
        | [] ↦ reply s d (nothing_found ∷ [])
        | r ∷ rs ↦ reply s d (config_list (r ∷ rs) ∷ [])
      ])
      else if query == codes "ip_single"
      then ask awaiting_ip_single
      else if query == codes "ip_bulk"
      then ask awaiting_ip_bulk
      else if query == codes "ip_file"
      then ask awaiting_clean_ip
      else rest

  -- `int(data.split(":")[1])`; `none` is the exception.
  unfoldable pub source_id_of : Option ℤ
  unfolding split_on int
  source_id_of = elim (split_on b':' query) [
    | [] ↦ none
    | w ∷ ws ↦ elim ws [ [] ↦ none | v ∷ vs ↦ int e.unicode v ]
  ]

  -- the list of the sources, as it is shown
  unfoldable pub shown_sources : SourceTable → Shown
  shown_sources t = source_list (list_scraper_sources e.order t)

  -- No row has a negative number.
  unfoldable pub toggle_source : HandlerResult
  unfolding source_id_of reply throw toggle_scraper_source shown_sources
  toggle_source = elim source_id_of [
    | none ↦ throw s d
    | some i ↦ elim i [
      | negsuc n ↦ reply s d (source_toggled none ∷ shown_sources s.sources ∷ [])
      | pos n ↦ elim (toggle_scraper_source n s.sources) [
        | none ↦ throw s d
        | some r ↦
            reply (record s { sources = r.1 }) d (source_toggled r.0 ∷ shown_sources r.1 ∷ [])
      ]
    ]
  ]

  unfoldable pub scraper_buttons : HandlerResult → HandlerResult
  unfolding ask reply scraper_is_enabled scraper_known toggle_source shown_sources
  scraper_buttons rest =
      if query == codes "scraper_status"
      then reply (scraper_known s) d (scraper_state (scraper_is_enabled s) ∷ [])
      else if query == codes "scraper_toggle"
      then (let turned = not (scraper_is_enabled s) in
          reply (record s { scraper_enabled = some turned }) d (scraper_state turned ∷ []))
      else if query == codes "scraper_menu"
      then reply (scraper_known s) d (scraper_state (scraper_is_enabled s) ∷ [])
      else if query == codes "scraper_add_tg"
      then ask awaiting_scraper_tg
      else if query == codes "scraper_add_sub"
      then ask awaiting_scraper_sub
      else if query == codes "scraper_remove"
      then (elim (list_scraper_sources e.order s.sources) [
        | [] ↦ reply s d (nothing_found ∷ [])
        | r ∷ rs ↦ reply s d (source_list (r ∷ rs) ∷ [])
      ])
      else if starts_with (codes "scraper_toggle_source") query
      then toggle_source
      else if query == codes "scraper_list"
      then (elim (list_scraper_sources e.order s.sources) [
        | [] ↦ reply s d (nothing_found ∷ [])
        | r ∷ rs ↦ reply s d (source_list (r ∷ rs) ∷ [])
      ])
      else rest

  unfoldable pub admin_callback : HandlerResult
  unfolding is_admin_route require_admin people_buttons white_buttons vip_buttons address_buttons
      scraper_buttons reply decline
  admin_callback =
      if not (is_admin_route query)
      then decline s d
      else if not (require_admin e user_id s)
      then reply s d (denied ∷ [])
      else people_buttons
          (white_buttons (vip_buttons (address_buttons (scraper_buttons (decline s d)))))
