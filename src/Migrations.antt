-- ===== src/Migrations.antt =====
-- database/migrations/manager.py: the files of migrations, and the versions that are applied. `none` is an
-- exception. The table of versions and the dictionary of the manager are kept apart, as in the code.
pub mod Laws
use config_manager.Prelude.{
  ℕ, ◌+◌, Bool, true, false, not, ◌||◌, ◌&&◌, Option, none, some, List, [], ◌∷◌, ◌++◌, map, length,
  member, filter_where, ltb, nat_beq, ◌==◌, if◌then◌else◌,
}
use config_manager.Prelude.Text.{Text, text_eq, codes}

-- What a module offers as `upgrade` or `downgrade`, and how the call ends.
pub data Step : Type 0 where
  not_importable missing runs fails : Step

-- The directory, as the stems of its files, and the modules.
pub record Files : Type 0 where
  pub stems : List Text
  pub upgrade : Text → Step
  pub downgrade : Text → Step

-- `ran` holds the upgrades that ran, in their order.
pub record Manager : Type 0 where
  pub versions : List Text
  pub applied_migrations : List Text
  pub ran : List Text

-- `a <= b` on texts
unfoldable pub text_leb : Text → Text → Bool
text_leb [] t = true
text_leb (a ∷ s) [] = false
text_leb (a ∷ s) (b ∷ t) = ltb a b || (nat_beq a b && text_leb s t)

-- a file before another, by the name
unfoldable pub insert_file : Text → List Text → List Text
insert_file t [] = t ∷ []
insert_file t (u ∷ us) =
    if text_leb (t ++ codes ".py") (u ++ codes ".py") then t ∷ u ∷ us else u ∷ insert_file t us

unfoldable pub sort_files : List Text → List Text
unfolding insert_file
sort_files [] = []
sort_files (t ∷ ts) = insert_file t (sort_files ts)

-- `get_migration_files`, as stems
unfoldable pub get_migration_files : Files → List Text
unfolding sort_files
get_migration_files files =
    sort_files (filter_where (λ (stem : Text). not (stem == codes "__init__")) files.stems)

-- `get_pending_migrations`
unfoldable pub get_pending_migrations : Files → Manager → List Text
get_pending_migrations files m =
    filter_where (λ (version : Text). not (member version m.applied_migrations))
      (get_migration_files files)

-- `initialize`
unfoldable pub initialize : Manager → Manager
initialize m = record { versions = m.versions; applied_migrations = m.versions; ran = m.ran }

abbrev pub with_version : Text → Manager → Manager
with_version version m = record {
  versions = m.versions ++ version ∷ [];
  applied_migrations = m.applied_migrations ++ version ∷ [];
  ran = m.ran ++ version ∷ [];
}

-- The upgrade has run; the version is inserted, which its primary key may forbid.
unfoldable pub record_version : Text → Manager → Option Manager
record_version version m = if member version m.versions then none else some (with_version version m)

unfoldable pub apply_migration : Files → Text → Manager → Option Manager
unfolding record_version
apply_migration files version m = elim (files.upgrade version) [
  | not_importable ↦ none
  | missing ↦ some m
  | runs ↦ record_version version m
  | fails ↦ none
]

-- the loop of `apply_all_pending`
unfoldable pub apply_all : Files → List Text → Manager → Option Manager
unfolding apply_migration
apply_all files [] m = some m
apply_all files (version ∷ versions) m = elim (apply_migration files version m) [
  | none ↦ none
  | some m' ↦ apply_all files versions m'
]

unfoldable pub apply_all_pending : Files → Manager → Option Manager
unfolding apply_all get_pending_migrations
apply_all_pending files m = apply_all files (get_pending_migrations files m) m

-- `rollback_migration`
unfoldable pub rollback_migration : Files → Text → Manager → Option Manager
rollback_migration files version m = elim (files.downgrade version) [
  | not_importable ↦ none
  | missing ↦ some m
  | runs ↦ some (record {
    versions = filter_where (λ (v : Text). not (v == version)) m.versions;
    applied_migrations = filter_where (λ (v : Text). not (v == version)) m.applied_migrations;
    ran = m.ran;
  })
  | fails ↦ none
]

pub record Status : Type 0 where
  pub total_migrations : ℕ
  pub applied_count : ℕ
  pub pending_migrations : ℕ
  pub latest_version : Option Text
  pub applied_versions : List Text

-- `xs[-1] if xs else None`
unfoldable pub last_file : List Text → Option Text
last_file [] = none
last_file (t ∷ []) = some t
last_file (t ∷ u ∷ us) = last_file (u ∷ us)

unfoldable pub get_migration_status : Files → Manager → Status
get_migration_status files m = record {
  total_migrations = length (get_migration_files files);
  applied_count = length m.applied_migrations;
  pending_migrations = length (get_pending_migrations files m);
  latest_version = last_file (get_migration_files files);
  applied_versions = m.applied_migrations;
}
