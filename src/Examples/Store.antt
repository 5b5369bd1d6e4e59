-- ===== src/Examples/Store.antt =====
-- database/ at a concrete table.
use config_manager.Prelude.{
  zero, ℕ, suc, ◌+◌, ◌≡◌, ◌≤◌, ◌<◌, true, some, List, [], ◌∷◌, ◌++◌, map, filter_where, length, All,
}
use config_manager.Prelude.Text.{text_eq, codes}
use config_manager.Prelude.Sort.{IsDescending}
use Prim.Native.Nat.{min}
use mathlib.Core.List.{Perm}
use config_manager.Database.Models.{ProcessedConfig}
use config_manager.Database.Configs.{
  hashes, item_hash, row_id, batch_save_configs, get_last_configs,
}
use config_manager.Database.Configs.Saving.{unseen, batch_save_configs-unseen}
use config_manager.Database.Configs.Listing.{get_last_configs-newest}
use config_manager.Database.Retry.{Outcome, value, lost, with_retry, with_retry-first, Settled}
use config_manager.Examples.Values.{first_item, second_item, one_row}

batch_save_configs-unseen_example :
    let ((count, new), after) =
      batch_save_configs 7 (some (codes "s")) (first_item ∷ second_item ∷ []) one_row in
    (count ≡ length new)
    × ((new ≡ unseen one_row (first_item ∷ second_item ∷ []))
        × (hashes after
            ≡ hashes one_row ++ map item_hash (unseen one_row (first_item ∷ second_item ∷ []))))
batch_save_configs-unseen_example =
    batch_save_configs-unseen 7 (some (codes "s")) (first_item ∷ second_item ∷ []) one_row

get_last_configs-newest_example :
    let valid = filter_where (λ r. r.is_valid) one_row.rows in
    let found = get_last_configs one_row 5 in
    All (λ r. r.is_valid ≡ true) found
    × (IsDescending row_id found
        × ((length found ≡ min 5 (length valid))
            × ((rest : List ProcessedConfig) × (Perm (found ++ rest) valid
                  × All (λ r. All (λ s. row_id s ≤ row_id r) rest) found))))
get_last_configs-newest_example = get_last_configs-newest one_row 5

-- the connection is lost in the first attempt
abbrev second_time : ℕ → Outcome ℕ
second_time zero = lost
second_time (suc n) = value n

with_retry-first_example :
    ((k : ℕ) (o : Outcome ℕ)
      → k ≤ 3
      → ((j : ℕ) → j < k → second_time j ≡ lost)
      → second_time k ≡ o
      → Settled o
      → with_retry second_time 3 ≡ (o, k + 1))
    × (((j : ℕ) → j ≤ 3 → second_time j ≡ lost) → with_retry second_time 3 ≡ (lost, 3 + 1))
with_retry-first_example = with_retry-first second_time 3
