-- ===== src/Bot/Texts.antt =====
-- app/handlers/admin.py, `handle_admin_text`: the first flag that is set decides, and is popped.
pub mod People
pub mod Addresses
pub mod Output
use config_manager.Prelude.{ℕ, Bool, true, false, if◌then◌else◌}
use config_manager.Prelude.Text.{Text, strip}
use config_manager.Bot.Context.{
  awaiting_admin_id, awaiting_remove_admin, awaiting_vip_id, awaiting_vip_remove,
  awaiting_ip_single, awaiting_ip_bulk, awaiting_scraper_tg, awaiting_scraper_sub, broadcast_mode,
  vip_broadcast_mode, awaiting_white_perf_count, awaiting_config_count, awaiting_ip_count, UserData,
  pop_flag, Store, HandlerResult, Env, decline,
}
use config_manager.Bot.Texts.People.{
  take_admin_id, take_remove_admin, take_vip_id, take_vip_remove, take_broadcast,
  take_vip_broadcast,
}
use config_manager.Bot.Texts.Addresses.{
  take_ip_single, take_ip_bulk, take_scraper_tg, take_scraper_sub,
}
use config_manager.Bot.Texts.Output.{take_white_perf_count, take_config_count, take_ip_count}

unfoldable pub handle_admin_text : Env → ℕ → Text → Store → UserData → HandlerResult
unfolding pop_flag decline
handle_admin_text e user_id given s d =
    let text = strip given in
    if d.flags awaiting_admin_id
    then take_admin_id e user_id text s (pop_flag awaiting_admin_id d)
    else if d.flags awaiting_remove_admin
    then take_remove_admin e user_id text s (pop_flag awaiting_remove_admin d)
    else if d.flags awaiting_vip_id
    then take_vip_id e user_id text s (pop_flag awaiting_vip_id d)
    else if d.flags awaiting_vip_remove
    then take_vip_remove e user_id text s (pop_flag awaiting_vip_remove d)
    else if d.flags awaiting_ip_single
    then take_ip_single e user_id text s (pop_flag awaiting_ip_single d)
    else if d.flags awaiting_ip_bulk
    then take_ip_bulk e user_id text s (pop_flag awaiting_ip_bulk d)
    else if d.flags awaiting_scraper_tg
    then take_scraper_tg e user_id text s (pop_flag awaiting_scraper_tg d)
    else if d.flags awaiting_scraper_sub
    then take_scraper_sub e user_id text s (pop_flag awaiting_scraper_sub d)
    else if d.flags broadcast_mode
    then take_broadcast e user_id text s (pop_flag broadcast_mode d)
    else if d.flags vip_broadcast_mode
    then take_vip_broadcast e user_id text s (pop_flag vip_broadcast_mode d)
    else if d.flags awaiting_white_perf_count
    then take_white_perf_count e user_id text s (pop_flag awaiting_white_perf_count d)
    else if d.flags awaiting_config_count
    then take_config_count e user_id text s (pop_flag awaiting_config_count d)
    else if d.flags awaiting_ip_count
    then take_ip_count e user_id text s (pop_flag awaiting_ip_count d)
    else decline s d
