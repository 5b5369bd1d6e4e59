-- ===== src/Database/Configs/Listing.antt =====
-- What the queries on the table of configs return, and the order of its rows.
use Prim.Native.Nat.{min}
use mathlib.Core.List.{Perm}
use config_manager.Prelude.{
  length-take, take-drop, ℕ, ◌<◌, ◌≤◌, ◌≡◌, true, Option, List, [], ◌∷◌, ◌++◌, length, drop,
  filter_where, filter_where-All, All, All-append, All-take, All-weaken, arith,
}
use config_manager.Prelude.Text.{Text}
use config_manager.Prelude.Sort.{
  length-sort_desc, sort_desc, IsDescending, sort_desc-IsDescending, sort_desc-perm, All-sort_desc,
  IsDescending-take, drop-le-take,
}
use config_manager.Database.Models.{ProcessedConfig}
use config_manager.Database.Configs.{
  Bool, ConfigTable, Validated, row_id, new_row, add_row, add_rows, save_config, batch_save_configs,
  get_last_configs, Ordered, WellFormed,
}
use config_manager.Database.Configs.Saving.{batch_save_configs-eq, unseen}

Ordered-append :
    (rs : List ProcessedConfig) (r : ProcessedConfig)
    → Ordered rs
    → All (λ s. row_id s < row_id r) rs
    → Ordered (rs ++ r ∷ [])
Ordered-append [] r o h = (tt, tt)
Ordered-append (s ∷ rs) r o h =
    (All-append (λ z. row_id s < row_id z) rs (r ∷ []) o.0 (h.0, tt), Ordered-append rs r o.1 h.1)

-- Adding a row keeps the table well formed: its number is new, and larger than all others.
add_row-WellFormed :
    (now : ℕ) (c : Validated) (source : Option Text) (valid : Bool) (t : ConfigTable)
    → WellFormed t
    → WellFormed (add_row now c source valid t)
unfolding add_row new_row
add_row-WellFormed now c source valid t (small, o) =
    let row = new_row t.next_id now c source valid in
    (
      All-append _ t.rows (row ∷ [])
          (All-weaken (λ r. row_id r < t.next_id) _ (λ r h. omega arith) t.rows small)
          (omega arith, tt),
      Ordered-append t.rows row o small,
    )

add_rows-WellFormed :
    (now : ℕ) (source : Option Text) (cs : List Validated) (t : ConfigTable)
    → WellFormed t
    → WellFormed (add_rows now source cs t)
unfolding add_rows
add_rows-WellFormed now source [] t w = w
add_rows-WellFormed now source (c ∷ cs) t w =
    add_rows-WellFormed now source cs (add_row now c source true t)
      (add_row-WellFormed now c source true t w)

-- Both operations that add rows keep the table's rows in the order of their numbers, all of them
-- below the next number.
pub save_config-batch_save_configs-WellFormed :
    (now : ℕ) (source : Option Text) (t : ConfigTable)
    → WellFormed t
    → ((c : Validated) (valid : Bool) → WellFormed (save_config now c source valid t).1)
      × ((items : List Validated) → WellFormed (batch_save_configs now source items t).1)
unfolding save_config
save_config-batch_save_configs-WellFormed now source t w = (
  λ c valid. add_row-WellFormed now c source valid t w,
  λ items.
      rw (batch_save_configs-eq now source items t)
        (add_rows-WellFormed now source (unseen t items) t w),
)

-- The rows returned are valid ones, with the largest number first; as many as there are valid rows,
-- up to the limit; and every valid row that is left out has a number no larger than those returned.
pub get_last_configs-newest :
    (t : ConfigTable) (limit : ℕ)
    → let valid = filter_where (λ r. r.is_valid) t.rows in
      let found = get_last_configs t limit in
      All (λ r. r.is_valid ≡ true) found
      × (IsDescending row_id found
          × ((length found ≡ min limit (length valid))
              × ((rest : List ProcessedConfig) × (Perm (found ++ rest) valid
                    × All (λ r. All (λ s. row_id s ≤ row_id r) rest) found))))
unfolding get_last_configs
get_last_configs-newest t limit =
    let valid = filter_where (λ r. r.is_valid) t.rows in
    let sorted = sort_desc row_id valid in
    let order = sort_desc-IsDescending row_id valid in
    (
      All-take _ limit sorted
          (All-sort_desc row_id _ valid (filter_where-All (λ r. r.is_valid) t.rows)),
      (
        IsDescending-take row_id limit sorted order,
        (
          omega (arith, length-take limit sorted, length-sort_desc row_id valid),
          (
            drop limit sorted,
            (
              rw (take-drop limit sorted) (sort_desc-perm row_id valid),
              drop-le-take row_id limit sorted order,
            ),
          ),
        ),
      ),
    )
