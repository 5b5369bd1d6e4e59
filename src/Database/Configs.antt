-- ===== src/Database/Configs.antt =====
-- database/crud.py, the operations on the table of configs. The table keeps its rows in the order of
-- their insertion, and the number that the database gives to the next row; a query is what SQL
-- documents for it. `now` is the clock.
pub mod Saving
pub mod Listing
use config_manager.Prelude.{
  ℕ, suc, ◌≡◌, Bool, true, false, not, Option, none, some, List, [], ◌∷◌, ◌++◌, map, length, member,
  filter_where, find_where, take, ◌==◌, if◌then◌else◌, All, ◌<◌,
}
use config_manager.Prelude.Text.{Text, text_eq}
use config_manager.Prelude.Case.{Unicode, lower, upper}
use config_manager.Prelude.Sort.{sort_desc, IsDescending}
use config_manager.Utils.Codec.{Value}
use config_manager.Database.Models.{ProcessedConfig}

pub record ConfigTable : Type 0 where
  pub rows : List ProcessedConfig
  pub next_id : ℕ

-- The dictionary that the validator returns for a config.
pub record Validated : Type 0 where
  pub raw_config : Text
  pub watermarked_config : Text
  pub config_hash : Text
  pub country_code : Text
  pub protocol : Text
  pub host : Option Value

abbrev pub row_hash : ProcessedConfig → Text
row_hash r = r.config_hash

abbrev pub row_id : ProcessedConfig → ℕ
row_id r = r.id

abbrev pub item_hash : Validated → Text
item_hash c = c.config_hash

-- `row_hash` of each row
abbrev pub hashes : ConfigTable → List Text
hashes t = map row_hash t.rows

-- `config_exists`
unfoldable pub config_exists : Text → ConfigTable → Bool
config_exists h t = elim (find_where (λ r. row_hash r == h) t.rows) [ none ↦ false | some _ ↦ true ]

-- The row that the database stores: the next number, and the clock as `created_at`.
unfoldable pub new_row : ℕ → ℕ → Validated → Option Text → Bool → ProcessedConfig
new_row i now c source valid = record {
  id = i;
  raw_config = c.raw_config;
  watermarked_config = some c.watermarked_config;
  config_hash = c.config_hash;
  country_code = some c.country_code;
  protocol = some c.protocol;
  host = c.host;
  source = source;
  is_valid = valid;
  created_at = now;
}

unfoldable pub add_row : ℕ → Validated → Option Text → Bool → ConfigTable → ConfigTable
unfolding new_row
add_row now c source valid t = record {
  rows = t.rows ++ new_row t.next_id now c source valid ∷ [];
  next_id = suc t.next_id;
}

-- `save_config`, with the row that it returns
unfoldable pub save_config :
    ℕ → Validated → Option Text → Bool → ConfigTable → ProcessedConfig × ConfigTable
unfolding add_row new_row
save_config now c source valid t =
    (new_row t.next_id now c source valid, add_row now c source valid t)

-- `get_last_configs`
unfoldable pub get_last_configs : ConfigTable → ℕ → List ProcessedConfig
get_last_configs t limit = take limit (sort_desc row_id (filter_where (λ r. r.is_valid) t.rows))

-- `if value: query.where(column == value)`: an absent or empty value filters nothing, and a row
-- whose column is null does not match.
unfoldable pub matches : Option Text → Option Text → Bool
matches none column = true
matches (some []) column = true
matches (some (c ∷ v)) none = false
matches (some (c ∷ v)) (some w) = w == c ∷ v

unfoldable pub option_map : (Text → Text) → Option Text → Option Text
option_map f none = none
option_map f (some t) = some (f t)

-- `filter_configs`
unfoldable pub filter_configs :
    Unicode → ConfigTable → Option Text → Option Text → ℕ → List ProcessedConfig
filter_configs u t country protocol limit =
    let valid = filter_where (λ r. r.is_valid) t.rows in
    let in_country =
      filter_where (λ r. matches (option_map (upper u) country) r.country_code) valid in
    let chosen =
      filter_where (λ r. matches (option_map (lower u) protocol) r.protocol) in_country in
    take limit (sort_desc row_id chosen)

unfoldable pub count_configs : ConfigTable → ℕ
count_configs t = length t.rows

-- `batch_exists_hashes`: the set of the hashes found, as a list
unfoldable pub batch_exists_hashes : ConfigTable → List Text → List Text
batch_exists_hashes t [] = []
batch_exists_hashes t (h ∷ hs) =
    map row_hash (filter_where (λ r. member (row_hash r) (h ∷ hs)) t.rows)

-- `for item in new_configs: session.add(...)`, and the commit
unfoldable pub add_rows : ℕ → Option Text → List Validated → ConfigTable → ConfigTable
unfolding add_row new_row
add_rows now source [] t = t
add_rows now source (c ∷ cs) t = add_rows now source cs (add_row now c source true t)

-- `if not new_configs: return 0, []`, and the rest
unfoldable pub store_new :
    ℕ → Option Text → List Validated → ConfigTable → (ℕ × List Validated) × ConfigTable
unfolding add_rows
store_new now source [] t = ((0, []), t)
store_new now source (c ∷ cs) t = ((length (c ∷ cs), c ∷ cs), add_rows now source (c ∷ cs) t)

-- `batch_save_configs`
unfoldable pub batch_save_configs :
    ℕ → Option Text → List Validated → ConfigTable → (ℕ × List Validated) × ConfigTable
unfolding batch_exists_hashes store_new
batch_save_configs now source [] t = ((0, []), t)
batch_save_configs now source (c ∷ cs) t =
    let existing = batch_exists_hashes t (map item_hash (c ∷ cs)) in
    store_new now source (filter_where (λ i. not (member (item_hash i) existing)) (c ∷ cs)) t

-- Every row has a number that the database has given out, and rows come in the order of numbers.
abbrev pub Ordered : List ProcessedConfig → Type 0
Ordered [] = Unit
Ordered (r ∷ rs) = All (λ s. row_id r < row_id s) rs × Ordered rs

abbrev pub WellFormed : ConfigTable → Type 0
WellFormed t = All (λ r. row_id r < t.next_id) t.rows × Ordered t.rows
