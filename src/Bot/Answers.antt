-- ===== src/Bot/Answers.antt =====
-- Every text and every button is answered.
mod Texts
use config_manager.Prelude.{
  ap, ◌∙◌, ◌⊎◌, Bool, true, not, ◌||◌, Option, none, some, List, [], ◌∷◌, if◌then◌else◌,
  Option-cases, List-cases, ◌==◌, ◌+◌, Distinct, map,
}
use config_manager.Prelude.Text.{Text, text_eq}
use config_manager.Database.Sources.Laws.{add_scraper_source-Distinct}
use config_manager.Bot.Context.{
  awaiting_admin_id, awaiting_remove_admin, awaiting_vip_id, awaiting_vip_remove,
  awaiting_ip_single, awaiting_ip_bulk, awaiting_scraper_tg, awaiting_scraper_sub, broadcast_mode,
  vip_broadcast_mode, awaiting_white_perf_count, awaiting_config_count, awaiting_ip_count, pop_flag,
}
use config_manager.Bot.Texts.People.{
  take_admin_id, take_remove_admin, take_vip_id, take_vip_remove, take_broadcast,
  take_vip_broadcast,
}
use config_manager.Bot.Texts.Addresses.{
  lstrip_at, name_of_url, take_ip_single, take_ip_bulk, save_source, take_scraper_tg,
  take_scraper_sub,
}
use config_manager.Bot.Texts.Output.{take_white_perf_count, take_config_count, take_ip_count}
use config_manager.Bot.Router.{button}
