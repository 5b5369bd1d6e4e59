-- ===== src/Examples/Startup.antt =====
-- A first and a second start with a file of administrators and one default source.
use config_manager.Prelude.{◌≡◌, refl, Option, none, some, List, [], ◌∷◌, member}
use config_manager.Prelude.Text.{codes, text_eq, strip}
use config_manager.Prelude.Case.{ascii_only, digit_char}
use config_manager.Utils.Numbers.{pos, int, user_key}
use config_manager.Database.Users.{fits, insert_admin, get_admin_ids, add_admin}
use config_manager.Database.Sources.{SourceTable}
use config_manager.Startup.{
  Entry, number, text, other, Source, migrate_admins_json, add_entries, is_owner_id, entry_int,
}

-- The owner is 7. The last value is not reached, as the one before is no number.
abbrev old_admins : Option (List Entry)
old_admins =
    some
      (number (pos 7) ∷ text (codes "12") ∷ number (pos 12) ∷ other none none ∷ number (pos 9) ∷ [])

-- Of the file, 12 alone becomes an administrator, coded as 24; the owner, coded as 14, does not.
migrated_ids : get_admin_ids (migrate_admins_json ascii_only 1 14 old_admins []) ≡ 24 ∷ []
unfolding migrate_admins_json add_entries is_owner_id entry_int int user_key get_admin_ids add_admin
    insert_admin fits digit_char strip member
migrated_ids = refl

abbrev default_source : Source
default_source = record {
  name = codes "a";
  url = codes "https://t.me/s/a";
  source_type = codes "telegram";
}

abbrev no_sources : SourceTable
no_sources = record { rows = []; next_id = 1 }
