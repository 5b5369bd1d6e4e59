-- ===== src/Scraper/All/Laws.antt =====
-- The results of a run of `scrape_all`, and what it keeps of the table of sources.
use config_manager.Scraper.All.{
  scrape_from, Database, Scrape, note_stats, note_outcome, scrape_database, scrape_all,
}
use config_manager.Prelude.{
  List-cases, if◌then◌else◌, sym, ℕ, ◌≡◌, refl, ap, ◌∙◌, ◌⊎◌, inl, inr, Bool, Option, none, some,
  List, [], ◌∷◌, map, arith, Bool-cases, Option-cases, ◌==◌, length,
}
use config_manager.Prelude.Text.{Text, text_eq}
use config_manager.Database.Models.{ScraperSource}
use config_manager.Database.Sources.{
  SourceTable, update_scraper_source_stats, scraped, get_active_scraper_sources,
}
use config_manager.Startup.{Source}
use config_manager.Scraper.{Web, put_outcome, scrape_one, scrape_sources}

-- The results are those of the loop without the statistics.
pub scrape_database-results :
    (md5 : Text → Text) (web : Web) (retries : ℕ) (db : Database) (sources : List ScraperSource)
    (scrape : Scrape)
    → (scrape_database md5 web retries db sources scrape).results
      ≡ scrape_sources md5 web retries sources scrape.results
unfolding scrape_database scrape_sources
scrape_database-results md5 web retries db [] scrape = refl
scrape_database-results md5 web retries db (src ∷ sources) scrape =
    let outcome = scrape_one md5 web retries src in
    scrape_database-results md5 web retries db sources (record {
      results = put_outcome src.name outcome scrape.results;
      table = note_outcome db src.url outcome scrape.table;
    })

-- a source without its statistics
abbrev pub without_stats : ScraperSource → ScraperSource
without_stats s = record s { last_scraped = none; last_config_count = 0 }

-- the sources of a table without their statistics, and the next number
abbrev pub described : SourceTable → List ScraperSource × ℕ
described t = (map without_stats t.rows, t.next_id)

scraped-without_stats :
    (now : ℕ) (url : Text) (count : ℕ) (rows : List ScraperSource)
    → map without_stats (scraped now url count rows) ≡ map without_stats rows
unfolding scraped
scraped-without_stats now url count [] = refl
scraped-without_stats now url count (s ∷ rows) = elim (Bool-cases (s.url == url)) [
  | inl e ↦ rw e refl
  | inr e ↦ rw e (
      ap (λ (l : List ScraperSource). without_stats s ∷ l)
        (scraped-without_stats now url count rows))
]

updated_or_same :
    (now : ℕ) (url : Text) (count : ℕ) (t t' : SourceTable)
    → update_scraper_source_stats now url count t ≡ some t'
    → (t' ≡ t) ⊎ (t' ≡ record { rows = scraped now url count t.rows; next_id = t.next_id })
unfolding update_scraper_source_stats
updated_or_same now url count t t' h = ground arith

update_scraper_source_stats-described :
    (now : ℕ) (url : Text) (count : ℕ) (t t' : SourceTable)
    → update_scraper_source_stats now url count t ≡ some t'
    → described t' ≡ described t
update_scraper_source_stats-described now url count t t' h =
    elim (updated_or_same now url count t t' h) [
      | inl q ↦ ap described q
      | inr q ↦
          ap described q
          ∙ ap (λ (l : List ScraperSource). (l, t.next_id))
              (scraped-without_stats now url count t.rows)
    ]

note_stats-described :
    (db : Database) (url : Text) (count : ℕ) (t : SourceTable)
    → described (note_stats db url count t) ≡ described t
unfolding note_stats
note_stats-described db url count t = elim (Bool-cases (db.updates url)) [
  | inl e ↦ elim (Option-cases (update_scraper_source_stats (db.clock url) url count t)) [
    | inl h ↦ rw (e, h) refl
    | inr (t', h) ↦
        rw (e, h) (update_scraper_source_stats-described (db.clock url) url count t t' h)
  ]
  | inr e ↦ rw e refl
]

note_outcome-described :
    (db : Database) (url : Text) (outcome : Option (Option (List Text))) (t : SourceTable)
    → described (note_outcome db url outcome t) ≡ described t
unfolding note_outcome
note_outcome-described db url none t = refl
note_outcome-described db url (some none) t = refl
note_outcome-described db url (some (some configs)) t =
    note_stats-described db url (length configs) t

scrape_database-described :
    (md5 : Text → Text) (web : Web) (retries : ℕ) (db : Database) (sources : List ScraperSource)
    (scrape : Scrape)
    → described (scrape_database md5 web retries db sources scrape).table ≡ described scrape.table
unfolding scrape_database
scrape_database-described md5 web retries db [] scrape = refl
scrape_database-described md5 web retries db (src ∷ sources) scrape =
    let outcome = scrape_one md5 web retries src in
    scrape_database-described md5 web retries db sources (record {
      results = put_outcome src.name outcome scrape.results;
      table = note_outcome db src.url outcome scrape.table;
    })
    ∙ note_outcome-described db src.url outcome scrape.table

-- The two ways through `scrape_all`: the default sources, or those of the database.
pub scrape_all-cases :
    (md5 : Text → Text) (web : Web) (retries : ℕ) (db : Database)
    (channels subscriptions : List Source) (t : SourceTable)
    → (scrape_all md5 web retries db channels subscriptions t
        ≡ scrape_from md5 web retries db channels subscriptions t [])
      ⊎ (scrape_all md5 web retries db channels subscriptions t
          ≡ scrape_database md5 web retries db
              (get_active_scraper_sources db.order t)
              (record { results = []; table = t }))
unfolding scrape_all scrape_from
scrape_all-cases md5 web retries db channels subscriptions t =
    let from = scrape_from md5 web retries db channels subscriptions t in
    let active = get_active_scraper_sources db.order t in
    let chosen : Bool → List ScraperSource = λ b. if b then active else [] in
    let all_of : Bool → Scrape = λ b. from (chosen b) in
    elim (Bool-cases db.reads) [
      | inl e ↦ elim (List-cases active) [
        | inl h ↦ inl (ap all_of e ∙ ap from h)
        | inr (s, (ss, h)) ↦ inr (
            ap all_of e
            ∙ ap from h
            ∙ ap
                (λ (l : List ScraperSource).
                  scrape_database md5 web retries db l (record { results = []; table = t }))
                (sym h))
      ]
      | inr e ↦ inl (ap all_of e)
    ]

-- Whatever the network and the database answer, a run of `scrape_all` keeps the sources in their order with their numbers,
-- names, addresses, types, times of creation and whether they are active, and the next number. No more than the time and
-- the count of a last run change.
pub scrape_all-described :
    (md5 : Text → Text) (web : Web) (retries : ℕ) (db : Database)
    (channels subscriptions : List Source) (t : SourceTable)
    → described (scrape_all md5 web retries db channels subscriptions t).table ≡ described t
scrape_all-described md5 web retries db channels subscriptions t =
    elim (scrape_all-cases md5 web retries db channels subscriptions t) [
      | inl q ↦ unfold scrape_from in ap (λ (s : Scrape). described s.table) q
      | inr q ↦
          ap (λ (s : Scrape). described s.table) q
          ∙ scrape_database-described md5 web retries db (get_active_scraper_sources db.order t)
              (record { results = []; table = t })
    ]
