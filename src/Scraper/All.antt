-- ===== src/Scraper/All.antt =====
-- scraper/base.py, `scrape_all`: the sources of the database, or the default ones, and the statistics of each source.
pub mod Laws
use config_manager.Prelude.{
  ℕ, Bool, true, false, Option, none, some, List, [], ◌∷◌, length, if◌then◌else◌,
}
use config_manager.Prelude.Text.{Text}
use config_manager.Database.Models.{ScraperSource}
use config_manager.Database.Sources.{
  SourceTable, get_active_scraper_sources, update_scraper_source_stats,
}
use config_manager.Startup.{Source}
use config_manager.Scraper.{
  Web, fetch, scrape_source, fetch_subscription, scrape_subscription, scrape_one, put_outcome,
}

-- What the database does in a run: the order of the rows that it reads, whether it can be read, the time of the update of
-- each address, and whether this update goes through.
pub record Database : Type 0 where
  pub order : List ScraperSource → List ScraperSource
  pub reads : Bool
  pub clock : Text → ℕ
  pub updates : Text → Bool

-- `results`, and the table of sources
pub record Scrape : Type 0 where
  pub results : List (Text × List Text)
  pub table : SourceTable

-- The statistics of a source; an exception changes nothing.
unfoldable pub note_stats : Database → Text → ℕ → SourceTable → SourceTable
note_stats db url count t =
    if db.updates url
    then (elim (update_scraper_source_stats (db.clock url) url count t) [ none ↦ t | some t' ↦ t' ])
    else t

-- the table after a source, whose configs are noted if there was no exception
unfoldable pub note_outcome :
    Database → Text → Option (Option (List Text)) → SourceTable → SourceTable
unfolding note_stats
note_outcome db url none t = t
note_outcome db url (some none) t = t
note_outcome db url (some (some configs)) t = note_stats db url (length configs) t

-- the loop over the sources of the database
unfoldable pub scrape_database :
    (Text → Text) → Web → ℕ → Database → List ScraperSource → Scrape → Scrape
unfolding note_outcome
scrape_database md5 web retries db [] scrape = scrape
scrape_database md5 web retries db (src ∷ sources) scrape =
    let outcome = scrape_one md5 web retries src in
    scrape_database md5 web retries db sources (record {
      results = put_outcome src.name outcome scrape.results;
      table = note_outcome db src.url outcome scrape.table;
    })

-- the loops over the default sources
unfoldable pub scrape_channels :
    (Text → Text) → Web → ℕ → List Source → List (Text × List Text) → List (Text × List Text)
scrape_channels md5 web retries [] results = results
scrape_channels md5 web retries (src ∷ sources) results =
    let outcome =
      scrape_source md5 web.channel_searches (fetch (web.response src.url) retries) (some 2000) in
    scrape_channels md5 web retries sources (put_outcome src.name (some outcome) results)

unfoldable pub scrape_subscriptions :
    (Text → Text) → Web → ℕ → List Source → List (Text × List Text) → List (Text × List Text)
scrape_subscriptions md5 web retries [] results = results
scrape_subscriptions md5 web retries (src ∷ sources) results =
    let outcome =
      scrape_subscription md5 web.b64decode web.subscription_searches
        (fetch_subscription (web.response src.url) retries) (some 5000) in
    scrape_subscriptions md5 web retries sources (put_outcome src.name (some outcome) results)

-- what `scrape_all` does with the sources that the database gave
unfoldable pub scrape_from :
    (Text → Text)
    → Web
    → ℕ
    → Database
    → List Source
    → List Source
    → SourceTable
    → List ScraperSource
    → Scrape
unfolding scrape_database scrape_channels scrape_subscriptions
scrape_from md5 web retries db channels subscriptions t [] = record {
  results =
      scrape_subscriptions md5 web retries subscriptions
        (scrape_channels md5 web retries channels []);
  table = t;
}
scrape_from md5 web retries db channels subscriptions t (src ∷ sources) =
    scrape_database md5 web retries db (src ∷ sources) (record { results = []; table = t })

-- `scrape_all`, with the two lists of scraper/sources.py
unfoldable pub scrape_all :
    (Text → Text) → Web → ℕ → Database → List Source → List Source → SourceTable → Scrape
unfolding scrape_from
scrape_all md5 web retries db channels subscriptions t =
    scrape_from md5 web retries db channels subscriptions t
      (if db.reads then get_active_scraper_sources db.order t else [])
