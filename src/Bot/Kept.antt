-- ===== src/Bot/Kept.antt =====
-- What every handler of app/handlers keeps: a property of the tables that each operation keeps.
mod Texts
mod Handlers
pub mod Sources
pub mod Tables
use config_manager.Prelude.{ℕ, ◌≡◌, Bool, true, Option, none, some}
use config_manager.Prelude.Text.{Text, strip}
use config_manager.Utils.Ip.{is_valid_ip}
use config_manager.Database.Models.{ScraperSource}
use config_manager.Database.Users.{
  upsert_user, bump_user_start, insert_admin, delete_admin, insert_vip, delete_vip,
}
use config_manager.Database.Sources.{Added, SourceTable, add_scraper_source, toggle_scraper_source}
use config_manager.Bot.Context.{
  Store, source_toggled, admin_added, admin_removed, vip_added, vip_removed, ip_saved,
}
use config_manager.Bot.Texts.Addresses.{save_ip}
use config_manager.Bot.Documents.{without_old}

-- The operations on the tables that the handlers call, each with what the handler has tested before.
pub record IsKept (P : Store → Type 0) : Type 0 where
  pub admin_added :
      (now n by : ℕ) (s : Store)
      → P s
      → P (record s { admins = (insert_admin now n by s.admins).1 })
  pub admin_removed :
      (n : ℕ) (s : Store) → P s → P (record s { admins = (delete_admin n s.admins).1 })
  pub vip_added : (now n : ℕ) (s : Store) → P s → P (record s { vips = insert_vip now n s.vips })
  pub vip_removed : (n : ℕ) (s : Store) → P s → P (record s { vips = (delete_vip n s.vips).1 })
  pub ip_saved :
      (now : ℕ) (given : Text) (s : Store)
      → is_valid_ip (strip given) ≡ true
      → P s
      → P (save_ip now (strip given) s)
  pub old_deleted : (now : ℕ) (s : Store) → P s → P (without_old now s)
  pub source_saved :
      (now : ℕ) (name url source_type : Text) (s : Store) (r : Added × SourceTable)
      → add_scraper_source now name url source_type s.sources ≡ some r
      → P s
      → P (record s { sources = r.1 })
  pub source_toggled :
      (n : ℕ) (s : Store) (r : Option ScraperSource × SourceTable)
      → toggle_scraper_source n s.sources ≡ some r
      → P s
      → P (record s { sources = r.1 })
  pub started :
      (now user_id : ℕ) (first_name username : Option Text) (s : Store)
      → P s
      → P (record s {
        users = upsert_user now user_id first_name username s.users;
        stats = bump_user_start now user_id s.stats;
      })
  pub switched : (b : Bool) (s : Store) → P s → P (record s { scraper_enabled = some b })
