-- ===== src/Bot/Context.antt =====
-- What a handler of app/handlers reads and writes: the tables, `context.bot_data`, `context.user_data`
-- of the sender, and what it sends. The calls of Telegram are taken to succeed, but where the code
-- catches their failure.
use config_manager.Prelude.{
  [], ℕ, Bool, true, false, not, ◌&&◌, ◌||◌, Option, none, some, List, nat_beq, nat_eq, ◌==◌,
  member,
}
use config_manager.Prelude.Text.{Text}
use config_manager.Prelude.Case.{Unicode}
use config_manager.Utils.Codec.{Codec}
use config_manager.Database.Models.{
  User, Admin, VipUser, UserStat, CleanIp, ScraperSource, ProcessedConfig,
}
use config_manager.Database.Configs.{ConfigTable}
use config_manager.Database.Sources.{SourceTable, Added}
use config_manager.Database.Users.{get_admin_ids}
use config_manager.Utils.Numbers.{ℤ}
use config_manager.Perf.{Machine, PerfResult}

-- The keys of `user_data` whose value is `True`.
pub data Flag : Type 0 where
  awaiting_admin_id awaiting_remove_admin awaiting_vip_id awaiting_vip_remove : Flag
  awaiting_ip_single awaiting_ip_bulk awaiting_scraper_tg awaiting_scraper_sub : Flag
  broadcast_mode vip_broadcast_mode awaiting_white_perf_count awaiting_config_count : Flag
  awaiting_ip_count awaiting_clean_ip awaiting_count awaiting_ping_threshold : Flag

unfoldable pub flag_number : Flag → ℕ
flag_number awaiting_admin_id = 0
flag_number awaiting_remove_admin = 1
flag_number awaiting_vip_id = 2
flag_number awaiting_vip_remove = 3
flag_number awaiting_ip_single = 4
flag_number awaiting_ip_bulk = 5
flag_number awaiting_scraper_tg = 6
flag_number awaiting_scraper_sub = 7
flag_number broadcast_mode = 8
flag_number vip_broadcast_mode = 9
flag_number awaiting_white_perf_count = 10
flag_number awaiting_config_count = 11
flag_number awaiting_ip_count = 12
flag_number awaiting_clean_ip = 13
flag_number awaiting_count = 14
flag_number awaiting_ping_threshold = 15

-- `context.user_data`
pub record UserData : Type 0 where
  pub flags : Flag → Bool
  pub country : Option Text
  pub config_count_per_ip : Option ℕ
  pub ping_operator : Option Text

unfoldable pub no_data : UserData
no_data = record {
  flags = λ g. false;
  country = none;
  config_count_per_ip = none;
  ping_operator = none;
}

-- `context.user_data[key] = True`
unfoldable pub set_flag : Flag → UserData → UserData
unfolding flag_number
set_flag f d = record {
  flags = λ g. nat_beq (flag_number f) (flag_number g) || d.flags g;
  country = d.country;
  config_count_per_ip = d.config_count_per_ip;
  ping_operator = d.ping_operator;
}

-- `context.user_data.pop(key, None)`
unfoldable pub pop_flag : Flag → UserData → UserData
unfolding flag_number
pop_flag f d = record {
  flags = λ g. not (nat_beq (flag_number f) (flag_number g)) && d.flags g;
  country = d.country;
  config_count_per_ip = d.config_count_per_ip;
  ping_operator = d.ping_operator;
}

-- the tables, the number of the next clean address, and `bot_data["scraper_enabled"]`
pub record Store : Type 0 where
  pub users : List User
  pub stats : List UserStat
  pub admins : List Admin
  pub vips : List VipUser
  pub sources : SourceTable
  pub clean_ips : List CleanIp
  pub next_ip : ℕ
  pub configs : ConfigTable
  pub scraper_enabled : Option Bool

-- What a message to the user says; texts, keyboards and notes of progress are left out.
pub data Shown : Type 0 where
  denied owner_only bad_number bad_ip bad_name bad_link only_txt out_of_range invalid_option : Shown
  panel : Text → Shown
  asks_for : Flag → Shown
  welcome main_menu nothing_found not_readable no_xray all_trojan empty_output : Shown
  admin_list : List Admin → Shown
  vip_list : List VipUser → Shown
  source_list : List ScraperSource → Shown
  config_list : List ProcessedConfig → Shown
  number_of_users number_of_ips : ℕ → Shown
  totals : ℕ → ℕ → Shown
  health : Bool → ℕ → ℕ → ℕ → Bool → Shown
  health_summary : Bool → ℕ → ℕ → Bool → Shown
  scraper_state : Bool → Shown
  source_toggled : Option ScraperSource → Shown
  admin_added admin_removed : Bool → Shown
  vip_added vip_removed : ℤ → Shown
  ip_saved : Text → Shown
  ips_saved : ℕ → ℕ → Shown
  source_added : Added → Text → Shown
  broadcast_sent : ℕ → ℕ → Shown
  count_set outputs : ℕ → Shown
  inline_text : Text → Shown
  file : Text → Shown

-- How a handler ends: it returns True or False, or it raises an exception.
pub data Ending : Type 0 where
  handled declined raised : Ending

-- `sent` holds the messages that reached other users.
pub record HandlerResult : Type 0 where
  pub ending : Ending
  pub store : Store
  pub session : UserData
  pub shown : List Shown
  pub sent : List (ℕ × Text)

-- What an update meets outside the program: the clock, the owner's number of the settings, the
-- interpreter's tables, the JSON library, the collation of the database, whether a message reaches a
-- user, whether Telegram takes a text as
-- HTML, whether the database answers, whether the xray binary is there, `int` of a JSON number, and
-- the machine, the order of completion and the written time of the performance test.
pub record Env : Type 0 where
  pub now : ℕ
  pub owner_id : ℕ
  pub unicode : Unicode
  pub codec : Codec
  pub order : List ScraperSource → List ScraperSource
  pub reaches : ℕ → Text → Bool
  pub accepts : Text → Bool
  pub database_answers : Bool
  pub has_xray : Bool
  pub number : Text → Option ℤ
  pub machine : Machine
  pub completed : List PerfResult → List PerfResult
  pub stamp : Text

unfoldable pub is_owner : Env → ℕ → Bool
is_owner e user_id = user_id == e.owner_id

-- `is_admin`, which `require_admin` calls
unfoldable pub is_admin : Env → ℕ → Store → Bool
unfolding is_owner get_admin_ids
is_admin e user_id s = is_owner e user_id || member user_id (get_admin_ids s.admins)

unfoldable pub require_admin : Env → ℕ → Store → Bool
unfolding is_admin
require_admin e user_id s = is_admin e user_id s

-- `_get_scraper_state`, which writes the default
unfoldable pub scraper_is_enabled : Store → Bool
scraper_is_enabled s = elim s.scraper_enabled [ none ↦ true | some b ↦ b ]

-- `bot_data` after that call
unfoldable pub scraper_known : Store → Store
unfolding scraper_is_enabled
scraper_known s = record s { scraper_enabled = some (scraper_is_enabled s) }

-- A handler that answers and returns True.
unfoldable pub reply : Store → UserData → List Shown → HandlerResult
reply s d shown = record { ending = handled; store = s; session = d; shown = shown; sent = [] }

unfoldable pub decline : Store → UserData → HandlerResult
decline s d = record { ending = declined; store = s; session = d; shown = []; sent = [] }

unfoldable pub throw : Store → UserData → HandlerResult
throw s d = record { ending = raised; store = s; session = d; shown = []; sent = [] }
