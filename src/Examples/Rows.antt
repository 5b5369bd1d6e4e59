-- ===== src/Examples/Rows.antt =====
-- The tables of users, sources and addresses at concrete rows.
use config_manager.Prelude.{nat_eq, true, none, [], ◌∷◌}
use config_manager.Prelude.Text.{text_eq, codes}
use config_manager.Database.Models.{Admin, CleanIp}
use config_manager.Database.Sources.{SourceTable}

abbrev owner : Admin
owner = record { user_id = 7; added_at = 1; added_by = none }

abbrev one_source : SourceTable
one_source = record {
  rows =
      record {
        id = 1;
        name = codes "a";
        url = codes "u";
        source_type = codes "telegram";
        is_active = true;
        last_scraped = none;
        last_config_count = 0;
        created_at = 0;
      }
      ∷ [];
  next_id = 2;
}

abbrev old_ip : CleanIp
old_ip = record { id = 1; ip = codes "1.1.1.1"; created_at = 10 }
