-- ===== src/Bot/Users.antt =====
-- app/handlers/user.py, and the commands /start and /health.
use config_manager.Prelude.{
  map, ℕ, not, ◌&&◌, Option, none, some, List, [], ◌∷◌, ◌++◌, length, take, ltb, ◌==◌,
  if◌then◌else◌,
}
use config_manager.Prelude.Text.{Text, text_eq, codes, starts_with, strip}
use config_manager.IpManager.{replace, format_configs_as_text}
use config_manager.Utils.Numbers.{int, within}
use config_manager.Database.Models.{ProcessedConfig, config_text}
use config_manager.Database.Configs.{get_last_configs, filter_configs, count_configs}
use config_manager.Database.Users.{upsert_user, bump_user_start, count_users, total_starts}
use config_manager.Bot.Context.{
  awaiting_count, UserData, no_data, set_flag, pop_flag, Store, Shown, denied, out_of_range, panel,
  asks_for, welcome, main_menu, nothing_found, health, inline_text, file, HandlerResult, Env,
  require_admin, scraper_is_enabled, scraper_known, reply, decline,
}

-- `_build_export_text`
unfoldable pub build_export_text : List ProcessedConfig → Text
unfolding format_configs_as_text
build_export_text configs = format_configs_as_text (map config_text configs)

-- what `_build_export_file` writes
unfoldable pub build_export_file : List ProcessedConfig → Text
build_export_file [] = []
build_export_file (r ∷ rs) = config_text r ++ (codes "\n\n" ++ build_export_file rs)

-- `start_command`: the tables after it
unfoldable pub start_command :
    Env → ℕ → Option Text → Option Text → Store → UserData → HandlerResult
unfolding upsert_user bump_user_start reply
start_command e user_id first_name username s d =
    reply
      (record s {
        users = upsert_user e.now user_id first_name username s.users;
        stats = bump_user_start e.now user_id s.stats;
      })
      d (welcome ∷ [])

-- `health_command` of app/handlers/admin.py
unfoldable pub health_command : Env → ℕ → Store → UserData → HandlerResult
unfolding require_admin reply scraper_is_enabled scraper_known
health_command e user_id s d =
    if not (require_admin e user_id s)
    then reply s d (denied ∷ [])
    else reply (scraper_known s) d (
        health e.database_answers (count_users s.users) (total_starts s.stats)
          (count_configs s.configs) (scraper_is_enabled s)
        ∷ [])

-- A short text is sent inline if Telegram takes it, all else as a file.
unfoldable pub shown_configs : Env → List ProcessedConfig → Shown
unfolding build_export_text build_export_file
shown_configs e rows =
    let text = build_export_text rows in
    if ltb (length text) 3800 && e.accepts text
    then inline_text text
    else file (build_export_file rows)

-- the branch of "last_20", for the rows that the database gives
unfoldable pub send_last : Env → List ProcessedConfig → Store → UserData → HandlerResult
unfolding shown_configs reply
send_last e [] s d = reply s d (nothing_found ∷ [])
send_last e (r ∷ rs) s d = reply s d (shown_configs e (take 20 (r ∷ rs)) ∷ main_menu ∷ [])

-- the branch of a protocol
unfoldable pub send_filtered : Env → List ProcessedConfig → Store → UserData → HandlerResult
unfolding shown_configs reply
send_filtered e [] s d = reply s d (nothing_found ∷ [])
send_filtered e (r ∷ rs) s d = reply s d (shown_configs e (r ∷ rs) ∷ main_menu ∷ [])

unfoldable pub user_callback : Env → Text → Store → UserData → HandlerResult
unfolding set_flag no_data reply decline send_last send_filtered
user_callback e query s d =
    if query == codes "back_main"
    then reply s no_data (main_menu ∷ [])
    else if query == codes "menu_country"
    then reply s d (panel (codes "menu_country") ∷ [])
    else if query == codes "menu_protocol"
    then reply s (record d { country = none }) (panel (codes "menu_protocol") ∷ [])
    else if query == codes "menu_custom"
    then reply s (set_flag awaiting_count d) (asks_for awaiting_count ∷ [])
    else if query == codes "last_20"
    then send_last e (get_last_configs s.configs 40) s d
    else if starts_with (codes "country_") query
    then reply s (record d { country = some (replace 0 (codes "country_") [] query) })
        (panel (codes "country_") ∷ [])
    else if starts_with (codes "proto_") query
    then send_filtered e
        (filter_configs e.unicode s.configs d.country (some (replace 0 (codes "proto_") [] query))
          1000)
        s d
    else decline s d

-- the rest of the handler of a number, once it is within the bounds
unfoldable pub send_custom : List ProcessedConfig → Store → UserData → HandlerResult
unfolding build_export_file reply
send_custom [] s d = reply s d (nothing_found ∷ [])
send_custom (r ∷ rs) s d = reply s d (file (build_export_file (r ∷ rs)) ∷ main_menu ∷ [])

abbrev pub export_min_count : ℕ
export_min_count = 1

abbrev pub export_max_count : ℕ
export_max_count = 10000

unfoldable pub handle_user_text : Env → Text → Store → UserData → HandlerResult
unfolding pop_flag reply decline send_custom int within
handle_user_text e given s d =
    let left = pop_flag awaiting_count d in
    if not (d.flags awaiting_count) then decline s d else elim (int e.unicode (strip given)) [
      | none ↦ reply s left (out_of_range ∷ [])
      | some i ↦ elim (within export_min_count export_max_count i) [
        | none ↦ reply s left (out_of_range ∷ [])
        | some count ↦ send_custom (get_last_configs s.configs count) s left
      ]
    ]
