-- ===== src/Bot/Menus.antt =====
-- app/bot/menus_refactor.py: the keyboards, as rows of the data that a button sends. The labels are left out.
pub mod Taken
pub mod Reached
pub mod Sources
use config_manager.Prelude.{ℕ, Bool, true, false, List, [], ◌∷◌, ◌++◌, map, if◌then◌else◌}
use config_manager.Prelude.Text.{Text, codes}

abbrev pub Keyboard : Type 0
Keyboard = List (List Text)

-- the loop over a list in steps of two
unfoldable pub rows_of_two : List Text → Keyboard
rows_of_two [] = []
rows_of_two (a ∷ []) = (a ∷ []) ∷ []
rows_of_two (a ∷ b ∷ rest) = (a ∷ b ∷ []) ∷ rows_of_two rest

unfoldable pub back : Text → Keyboard
back callback_data = (callback_data ∷ []) ∷ []

unfoldable pub main_menu : Bool → Keyboard
main_menu is_admin_user =
    (codes "menu_country" ∷ codes "menu_protocol" ∷ [])
      ∷ (codes "last_20" ∷ codes "menu_custom" ∷ [])
      ∷ (if is_admin_user then (codes "admin_panel" ∷ []) ∷ [] else [])
    ++ (codes "back_main" ∷ []) ∷ []

-- with the keys of COUNTRY_LABELS
unfoldable pub country_menu : List Text → Text → Keyboard
unfolding rows_of_two
country_menu countries back_callback =
    rows_of_two (map (λ (code : Text). codes "country_" ++ code) countries)
    ++ (back_callback ∷ []) ∷ []

-- with PROTOCOLS, each of which has a label
unfoldable pub protocol_menu : List Text → Text → Keyboard
unfolding rows_of_two
protocol_menu protocols back_callback =
    rows_of_two (map (λ (protocol : Text). codes "proto_" ++ protocol) protocols)
    ++ (back_callback ∷ []) ∷ []

unfoldable pub admin_panel_menu : Keyboard
admin_panel_menu =
    (codes "add_admin" ∷ codes "remove_admin" ∷ [])
    ∷ (codes "list_admins" ∷ codes "admin_stats" ∷ [])
    ∷ (codes "admin_broadcast" ∷ codes "vip_panel" ∷ [])
    ∷ (codes "clean_ip_menu" ∷ codes "scraper_menu" ∷ [])
    ∷ (codes "white_configs_menu" ∷ codes "health_check" ∷ [])
    ∷ (codes "back_main" ∷ [])
    ∷ []

unfoldable pub vip_panel_menu : Keyboard
vip_panel_menu =
    (codes "vip_add" ∷ codes "vip_remove" ∷ [])
    ∷ (codes "vip_list" ∷ codes "vip_broadcast" ∷ [])
    ∷ (codes "admin_panel" ∷ [])
    ∷ []

unfoldable pub clean_ip_menu : Keyboard
clean_ip_menu =
    (codes "ip_single" ∷ codes "ip_bulk" ∷ [])
    ∷ (codes "ip_file" ∷ codes "list_clean_ip" ∷ [])
    ∷ (codes "ip_config_count" ∷ codes "ip_generated_configs" ∷ [])
    ∷ (codes "admin_panel" ∷ [])
    ∷ []

-- The state of the scraper changes a label only.
unfoldable pub scraper_management_menu : Keyboard
scraper_management_menu =
    (codes "scraper_toggle" ∷ codes "scraper_status" ∷ [])
    ∷ (codes "scraper_add_tg" ∷ [])
    ∷ (codes "scraper_add_sub" ∷ [])
    ∷ (codes "scraper_remove" ∷ [])
    ∷ (codes "scraper_list" ∷ [])
    ∷ (codes "admin_panel" ∷ [])
    ∷ []

unfoldable pub scraper_menu : Keyboard
scraper_menu =
    (codes "scraper_add_tg" ∷ codes "scraper_add_sub" ∷ [])
    ∷ (codes "scraper_list" ∷ codes "scraper_remove" ∷ [])
    ∷ (codes "scraper_status" ∷ codes "scraper_toggle" ∷ [])
    ∷ (codes "admin_panel" ∷ [])
    ∷ []

-- the keyboard of the branch "scraper_status" of admin.py
unfoldable pub scraper_status_menu : Keyboard
scraper_status_menu = (codes "scraper_toggle" ∷ []) ∷ (codes "admin_panel" ∷ []) ∷ []

unfoldable pub confirm_menu : Text → Text → Keyboard
confirm_menu yes_data no_data = (yes_data ∷ no_data ∷ []) ∷ []

unfoldable pub white_configs_menu : Keyboard
white_configs_menu = (codes "request_white_configs_perf" ∷ []) ∷ (codes "admin_panel" ∷ []) ∷ []

-- PROTOCOLS
abbrev pub protocols : List Text
protocols = codes "vless" ∷ codes "vmess" ∷ codes "trojan" ∷ codes "shadowsocks" ∷ []
