-- ===== src/Pipeline/Unique.antt =====
-- The hashes of the table through a run of the job.
use config_manager.Prelude.{
  some, Bool, true, false, List, [], ◌∷◌, map, take, Distinct, Bool-cases, inl, inr,
}
use config_manager.Prelude.Text.{Text, text_eq}
use config_manager.Database.Configs.{ConfigTable, Validated, hashes, item_hash}
use config_manager.Database.Configs.Saving.{batch_save_configs-Distinct}
use config_manager.Validator.{Context, hash_of, run, new_batch, results}
use config_manager.Validator.Results.{validate_batch-Distinct}
use config_manager.Scraper.{Web}
use config_manager.Scraper.Laws.{Distinct-take}
use config_manager.Database.Sources.{SourceTable}
use config_manager.Startup.{Source}
use config_manager.Scraper.All.{Database, scrape_all}
use config_manager.Pipeline.Separate.{Separate, scrape_all-Separate}
use config_manager.Pipeline.{
  cancelled_at, ℕ, PublishItem, Job, Around, publish_limit, store, store_if_any, process_source,
  process_all, new_job, scraper_job,
}

store-Distinct :
    (around : Around) (source : Text) (validated : List Validated) (job : Job)
    → Distinct (hashes job.table)
    → Distinct (map item_hash validated)
    → Distinct (hashes (store around source validated job).table)
unfolding store
store-Distinct around source validated job dt di = elim (Bool-cases (around.stores source)) [
  | inl e ↦
      rw e
        (batch_save_configs-Distinct (around.clock source) (some source) validated job.table dt di)
  | inr e ↦ rw e dt
]

store_if_any-Distinct :
    (around : Around) (source : Text) (validated : List Validated) (job : Job)
    → Distinct (hashes job.table)
    → Distinct (map item_hash validated)
    → Distinct (hashes (store_if_any around source validated job).table)
unfolding store_if_any
store_if_any-Distinct around source [] job dt di = dt
store_if_any-Distinct around source (c ∷ cs) job dt di =
    store-Distinct around source (c ∷ cs) job dt di

process_source-Distinct :
    (ctx : Context) (around : Around) (source : Text) (configs : List Text) (job : Job)
    → Distinct (map (hash_of ctx) configs)
    → Distinct (hashes job.table)
    → Distinct (hashes (process_source ctx around source configs job).table)
unfolding process_source
process_source-Distinct ctx around source [] job dc dt = dt
process_source-Distinct ctx around source (c ∷ cs) job dc dt =
    let limited = take publish_limit (c ∷ cs) in
    let batch = run ctx 10 (around.events source) (new_batch job.validator limited) in
    store_if_any-Distinct around source (results batch.tasks)
      (record { validator = batch.validator; table = job.table; queued = job.queued }) dt
      (validate_batch-Distinct ctx 10 (around.events source) job.validator limited
        (Distinct-take (hash_of ctx) publish_limit (c ∷ cs) dc))

process_all-Distinct :
    (ctx : Context) (around : Around) (sources : List (Text × List Text)) (job : Job)
    → Separate ctx sources
    → Distinct (hashes job.table)
    → Distinct (hashes (process_all ctx around sources job).table)
unfolding process_all
process_all-Distinct ctx around [] job ds dt = dt
process_all-Distinct ctx around ((source, configs) ∷ rest) job ds dt =
    let done = process_source-Distinct ctx around source configs job ds.0 dt in
    elim (Bool-cases (cancelled_at around source configs)) [
      | inl e ↦ rw e done
      | inr e ↦ rw e (
          process_all-Distinct ctx around rest (process_source ctx around source configs job) ds.1
            done)
    ]

-- If no two rows have one hash, and no two configs of one source do, then no two rows have one hash
-- after the job: whatever the order in which the countries arrive, and whichever transactions fail.
-- Sources may share configs.
pub scraper_job-Distinct :
    (ctx : Context) (around : Around) (enabled : Bool) (sources : List (Text × List Text))
    (table : ConfigTable) (queued : List PublishItem)
    → Separate ctx sources
    → Distinct (hashes table)
    → Distinct (hashes (scraper_job ctx around enabled (some sources) table queued).table)
unfolding scraper_job new_job
scraper_job-Distinct ctx around false sources table queued ds dt = dt
scraper_job-Distinct ctx around true sources table queued ds dt =
    process_all-Distinct ctx around sources (new_job table queued) ds dt

-- A run that scrapes all sources, those of the database or the default ones, and then does the rest of the job, keeps
-- the hashes of the table distinct, whatever the network and the database answer.
pub scrape_all-scraper_job-Distinct :
    (ctx : Context) (around : Around) (enabled : Bool) (web : Web) (retries : ℕ) (db : Database)
    (channels subscriptions : List Source) (t : SourceTable) (table : ConfigTable)
    (queued : List PublishItem)
    → Distinct (hashes table)
    → Distinct (
        hashes
          (scraper_job ctx around enabled
            (some (scrape_all ctx.md5 web retries db channels subscriptions t).results)
            table
            queued).table)
scrape_all-scraper_job-Distinct ctx around enabled web retries db channels subscriptions t table
      queued d =
    scraper_job-Distinct ctx around enabled _ table queued
      (scrape_all-Separate ctx web retries db channels subscriptions t) d
