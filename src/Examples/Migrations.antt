-- ===== src/Examples/Migrations.antt =====
-- Two files of migrations, of which the manager's own module has no upgrade.
use config_manager.Prelude.{◌≡◌, refl, true, false, some, [], ◌∷◌, ◌++◌, member, filter_where, ◌==◌}
use config_manager.Prelude.Text.{Text, codes, text_eq, text_beq}
use config_manager.Migrations.{
  Step, missing, runs, Files, Manager, get_pending_migrations, get_migration_files,
  apply_all_pending, apply_all, apply_migration, record_version, sort_files, insert_file, text_leb,
}
use config_manager.Migrations.Laws.{does, apply_all_pending-once}

abbrev initial_schema : Text
initial_schema = codes "001_initial_schema"

abbrev upgrade_of : Text → Step
upgrade_of stem = elim (stem == codes "manager") [ true ↦ missing | false ↦ runs ]

abbrev directory : Files
directory = record {
  stems = codes "manager" ∷ codes "__init__" ∷ initial_schema ∷ [];
  upgrade = upgrade_of;
  downgrade = upgrade_of;
}

abbrev empty : Manager
empty = record { versions = []; applied_migrations = []; ran = [] }

abbrev migrated : Manager
migrated = record {
  versions = initial_schema ∷ [];
  applied_migrations = initial_schema ∷ [];
  ran = initial_schema ∷ [];
}

-- The manager's own module is pending for ever, as it stands in the directory that is listed.
manager_pending : get_pending_migrations directory migrated ≡ codes "manager" ∷ []
unfolding get_pending_migrations get_migration_files sort_files insert_file text_leb member text_beq
    filter_where
manager_pending = refl

first_run : apply_all_pending directory empty ≡ some migrated
unfolding apply_all_pending get_pending_migrations get_migration_files apply_all apply_migration
    record_version sort_files insert_file text_leb member text_beq filter_where
first_run = refl

apply_all_pending-once_example :
    (migrated.ran
      ≡ empty.ran ++ filter_where (does directory) (get_pending_migrations directory empty))
    × (apply_all_pending directory migrated ≡ some migrated)
apply_all_pending-once_example = apply_all_pending-once directory empty migrated first_run
