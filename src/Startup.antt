-- ===== src/Startup.antt =====
-- main.py: what the start of the program puts into the tables, migrate_admins_json and seed_default_sources.
-- BotService has the same two functions. Both catch every exception, so that they end with the table as it is then.
pub mod Laws
pub mod Seeds
use config_manager.Prelude.{
  ℕ, Bool, true, false, Option, none, some, List, [], ◌∷◌, ◌++◌, ◌==◌, nat_eq, if◌then◌else◌,
}
use config_manager.Prelude.Text.{Text}
use config_manager.Prelude.Case.{Unicode}
use config_manager.Utils.Numbers.{ℤ, int, user_key}
use config_manager.Database.Models.{Admin}
use config_manager.Database.Users.{add_admin}
use config_manager.Database.Sources.{SourceTable, Added, add_scraper_source}

-- A value of the list in admins.json. Of one that is neither an integer nor a text the integer is kept that it is equal
-- to, and the one that `int` makes of it.
pub data Entry : Type 0 where
  number : ℤ → Entry
  text : Text → Entry
  other : Option ℤ → Option ℤ → Entry

-- `uid == settings.owner_id`
unfoldable pub is_owner_id : ℕ → Entry → Bool
unfolding user_key
is_owner_id owner_id (number n) = user_key n == owner_id
is_owner_id owner_id (text t) = false
is_owner_id owner_id (other none converted) = false
is_owner_id owner_id (other (some n) converted) = user_key n == owner_id

-- `int(uid)`
unfoldable pub entry_int : Unicode → Entry → Option ℤ
unfolding int
entry_int u (number n) = some n
entry_int u (text t) = int u t
entry_int u (other equal converted) = converted

-- the loop over the list, which ends at the first exception
unfoldable pub add_entries : Unicode → ℕ → ℕ → List Entry → List Admin → List Admin
unfolding is_owner_id entry_int add_admin
add_entries u now owner_id [] admins = admins
add_entries u now owner_id (uid ∷ ids) admins =
    let skipped = add_entries u now owner_id ids admins in
    if is_owner_id owner_id uid then skipped else elim (entry_int u uid) [
      | none ↦ admins
      | some n ↦ elim (add_admin now (user_key n) owner_id admins) [
        | none ↦ admins
        | some r ↦ add_entries u now owner_id ids r.1
      ]
    ]

-- `none` is a file that is missing, or whose value is nothing to loop over.
unfoldable pub migrate_admins_json : Unicode → ℕ → ℕ → Option (List Entry) → List Admin → List Admin
unfolding add_entries
migrate_admins_json u now owner_id none admins = admins
migrate_admins_json u now owner_id (some ids) admins = add_entries u now owner_id ids admins

-- an entry of scraper/sources.py
pub record Source : Type 0 where
  pub name : Text
  pub url : Text
  pub source_type : Text

unfoldable pub add_sources : ℕ → List Source → SourceTable → SourceTable
add_sources now [] t = t
add_sources now (src ∷ sources) t =
    elim (add_scraper_source now src.name src.url src.source_type t) [
      | none ↦ t
      | some r ↦ add_sources now sources r.1
    ]

-- with the two lists of sources
unfoldable pub seed_default_sources : ℕ → List Source → List Source → SourceTable → SourceTable
unfolding add_sources
seed_default_sources now telegram_sources subscription_sources t = elim t.rows [
  | [] ↦ add_sources now (telegram_sources ++ subscription_sources) t
  | s ∷ rows ↦ t
]
