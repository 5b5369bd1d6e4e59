-- ===== src/Database/Sources.antt =====
-- database/crud.py, the operations on the sources of the scrapers and on clean addresses. `order` is
-- the order by type and name, in the collation of the database.
pub mod Laws
use config_manager.Prelude.{
  nat_eq, ℕ, suc, ◌+◌, ◌*◌, Bool, true, false, not, Option, none, some, List, [], ◌∷◌, ◌++◌, map,
  length, member, take, filter_where, find_where, ◌==◌, ltb, if◌then◌else◌,
}
use config_manager.Prelude.Text.{Text, text_eq}
use config_manager.Prelude.Sort.{sort_desc}
use config_manager.Database.Models.{ScraperSource, CleanIp}

-- `scalar_one_or_none`; the outer `none` is the exception for more than one row.
unfoldable pub one_or_none {ℓ} : {A : Type ℓ} → List A → Option (Option A)
one_or_none [] = some none
one_or_none (x ∷ []) = some (some x)
one_or_none (x ∷ y ∷ xs) = none

-- The three texts that `add_scraper_source` returns.
pub data Added : Type 0 where
  added duplicate_url duplicate_name : Added

-- the sources, and the number of the next one
pub record SourceTable : Type 0 where
  pub rows : List ScraperSource
  pub next_id : ℕ

unfoldable pub with_url : Text → List ScraperSource → List ScraperSource
with_url url rows = filter_where (λ (s : ScraperSource). s.url == url) rows

unfoldable pub with_name : Text → List ScraperSource → List ScraperSource
with_name name rows = filter_where (λ (s : ScraperSource). s.name == name) rows

unfoldable pub with_id : ℕ → List ScraperSource → List ScraperSource
with_id i rows = filter_where (λ (s : ScraperSource). s.id == i) rows

unfoldable pub new_source : ℕ → Text → Text → Text → SourceTable → SourceTable
new_source now name url source_type t = record {
  rows =
      t.rows
      ++ record {
        id = t.next_id;
        name = name;
        url = url;
        source_type = source_type;
        is_active = true;
        last_scraped = none;
        last_config_count = 0;
        created_at = now;
      }
        ∷ [];
  next_id = suc t.next_id;
}

-- `add_scraper_source`; `none` is an exception.
unfoldable pub add_scraper_source :
    ℕ → Text → Text → Text → SourceTable → Option (Added × SourceTable)
unfolding with_url with_name new_source
add_scraper_source now name url source_type t = elim (one_or_none (with_url url t.rows)) [
  | none ↦ none
  | some same_url ↦ elim same_url [
    | some s ↦ some (duplicate_url, t)
    | none ↦ elim (one_or_none (with_name name t.rows)) [
      | none ↦ none
      | some same_name ↦ elim same_name [
        | some s ↦ some (duplicate_name, t)
        | none ↦ some (added, new_source now name url source_type t)
      ]
    ]
  ]
]

-- `remove_scraper_source`
unfoldable pub remove_scraper_source : ℕ → SourceTable → Option (Bool × SourceTable)
unfolding with_id
remove_scraper_source source_id t = elim (one_or_none (with_id source_id t.rows)) [
  | none ↦ none
  | some found ↦ elim found [
    | none ↦ some (false, t)
    | some s ↦ some (
      true,
      record {
        rows = filter_where (λ (r : ScraperSource). not (r.id == source_id)) t.rows;
        next_id = t.next_id;
      },
    )
  ]
]

unfoldable pub list_scraper_sources :
    (List ScraperSource → List ScraperSource) → SourceTable → List ScraperSource
list_scraper_sources order t = order t.rows

unfoldable pub get_active_scraper_sources :
    (List ScraperSource → List ScraperSource) → SourceTable → List ScraperSource
get_active_scraper_sources order t =
    order (filter_where (λ (s : ScraperSource). s.is_active) t.rows)

-- the row of a number, with `is_active` turned round
unfoldable pub toggled : ℕ → List ScraperSource → List ScraperSource
toggled source_id [] = []
toggled source_id (s ∷ rest) =
    if s.id == source_id
    then record {
      id = s.id;
      name = s.name;
      url = s.url;
      source_type = s.source_type;
      is_active = not s.is_active;
      last_scraped = s.last_scraped;
      last_config_count = s.last_config_count;
      created_at = s.created_at;
    }
      ∷ rest
    else s ∷ toggled source_id rest

-- `toggle_scraper_source`, with the row that it returns
unfoldable pub toggle_scraper_source : ℕ → SourceTable → Option (Option ScraperSource × SourceTable)
unfolding with_id toggled
toggle_scraper_source source_id t = elim (one_or_none (with_id source_id t.rows)) [
  | none ↦ none
  | some found ↦ elim found [
    | none ↦ some (none, t)
    | some s ↦
        let rows = toggled source_id t.rows in
        some (
          find_where (λ (r : ScraperSource). r.id == source_id) rows,
          record { rows = rows; next_id = t.next_id },
        )
  ]
]

-- the row of an address, with its last run
unfoldable pub scraped : ℕ → Text → ℕ → List ScraperSource → List ScraperSource
scraped now url count [] = []
scraped now url count (s ∷ rest) =
    if s.url == url
    then record {
      id = s.id;
      name = s.name;
      url = s.url;
      source_type = s.source_type;
      is_active = s.is_active;
      last_scraped = some now;
      last_config_count = count;
      created_at = s.created_at;
    }
      ∷ rest
    else s ∷ scraped now url count rest

-- `update_scraper_source_stats`
unfoldable pub update_scraper_source_stats : ℕ → Text → ℕ → SourceTable → Option SourceTable
unfolding with_url scraped
update_scraper_source_stats now url count t = elim (one_or_none (with_url url t.rows)) [
  | none ↦ none
  | some found ↦ elim found [
    | none ↦ some t
    | some s ↦ some (record { rows = scraped now url count t.rows; next_id = t.next_id })
  ]
]

-- `add_clean_ip`; the argument after the clock is the number that the database gives.
unfoldable pub add_clean_ip : ℕ → ℕ → Text → List CleanIp → List CleanIp
add_clean_ip now i ip rows =
    if member ip (map (λ (r : CleanIp). r.ip) rows)
    then rows
    else rows ++ record { id = i; ip = ip; created_at = now } ∷ []

unfoldable pub count_clean_ips : List CleanIp → ℕ
count_clean_ips rows = length rows

-- `get_clean_ips`
unfoldable pub get_clean_ips : List CleanIp → ℕ → List Text
get_clean_ips rows limit =
    map (λ (r : CleanIp). r.ip) (take limit (sort_desc (λ (r : CleanIp). r.created_at) rows))

-- `created_at < _utcnow() - timedelta(days=days)`, in seconds
unfoldable pub is_old : ℕ → ℕ → CleanIp → Bool
is_old now days r = ltb (r.created_at + days * 86400) now

-- `delete_old_clean_ips`, with the number of the rows deleted
unfoldable pub delete_old_clean_ips : ℕ → ℕ → List CleanIp → ℕ × List CleanIp
unfolding is_old
delete_old_clean_ips now days rows =
    (length (filter_where (is_old now days) rows), filter_where (λ r. not (is_old now days r)) rows)
