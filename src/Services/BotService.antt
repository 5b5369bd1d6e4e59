-- ===== src/Services/BotService.antt =====
-- services/bot_service.py, `_scraper_job`: the job of main.py, but for the result of `batch_save_configs`, which is a pair
-- and is compared with a number. That is a TypeError, after the configs are stored; it is caught for each source.
use config_manager.Prelude.{
  ◌≡◌, refl, ap, ◌∙◌, Bool, true, false, Option, none, some, List, [], ◌∷◌, take, if◌then◌else◌,
  Bool-cases, inl, inr,
}
use config_manager.Prelude.Text.{Text}
use config_manager.Database.Configs.{ConfigTable, Validated, batch_save_configs}
use config_manager.Validator.{Context, run, new_batch, results}
use config_manager.Pipeline.{
  PublishItem, Job, Around, publish_limit, new_job, store, store_if_any, process_source,
  cancelled_at, process_all, scraper_job,
}

unfoldable pub bot_store : Around → Text → List Validated → Job → Job
bot_store around source [] job = job
bot_store around source (c ∷ cs) job =
    let saved = batch_save_configs (around.clock source) (some source) (c ∷ cs) job.table in
    if around.stores source
    then record { validator = job.validator; table = saved.1; queued = job.queued }
    else job

unfoldable pub bot_process_source : Context → Around → Text → List Text → Job → Job
unfolding bot_store
bot_process_source ctx around source [] job = job
bot_process_source ctx around source (c ∷ cs) job =
    let limited = take publish_limit (c ∷ cs) in
    let batch = run ctx 10 (around.events source) (new_batch job.validator limited) in
    bot_store around source (results batch.tasks)
      (record { validator = batch.validator; table = job.table; queued = job.queued })

unfoldable pub bot_process_all : Context → Around → List (Text × List Text) → Job → Job
unfolding bot_process_source cancelled_at
bot_process_all ctx around [] job = job
bot_process_all ctx around ((source, configs) ∷ rest) job =
    let done = bot_process_source ctx around source configs job in
    let others = bot_process_all ctx around rest done in
    if cancelled_at around source configs then done else others

-- `_scraper_job`; `none` is an exception of `scrape_all`.
unfoldable pub bot_scraper_job :
    Context
    → Around
    → Bool
    → Option (List (Text × List Text))
    → ConfigTable
    → List PublishItem
    → Job
unfolding bot_process_all
bot_scraper_job ctx around false scraped table queued = new_job table queued
bot_scraper_job ctx around true none table queued = new_job table queued
bot_scraper_job ctx around true (some sources) table queued =
    bot_process_all ctx around sources (new_job table queued)

-- a job with another queue
abbrev pub with_queue : List PublishItem → Job → Job
with_queue queued job = record { validator = job.validator; table = job.table; queued = queued }

store-with_queue :
    (around : Around) (source : Text) (items : List Validated) (job : Job)
    (queued : List PublishItem)
    → bot_store around source items (with_queue queued job)
      ≡ with_queue queued (store_if_any around source items job)
unfolding bot_store store_if_any store
store-with_queue around source [] job queued = refl
store-with_queue around source (c ∷ cs) job queued = elim (Bool-cases (around.stores source)) [
  | inl e ↦ rw e refl
  | inr e ↦ rw e refl
]

process_source-with_queue :
    (ctx : Context) (around : Around) (source : Text) (configs : List Text) (job : Job)
    (queued : List PublishItem)
    → bot_process_source ctx around source configs (with_queue queued job)
      ≡ with_queue queued (process_source ctx around source configs job)
unfolding bot_process_source process_source
process_source-with_queue ctx around source [] job queued = refl
process_source-with_queue ctx around source (c ∷ cs) job queued =
    let batch =
      run ctx 10 (around.events source) (new_batch job.validator (take publish_limit (c ∷ cs))) in
    store-with_queue around source (results batch.tasks)
      (record { validator = batch.validator; table = job.table; queued = job.queued }) queued

process_all-with_queue :
    (ctx : Context) (around : Around) (sources : List (Text × List Text)) (job : Job)
    (queued : List PublishItem)
    → bot_process_all ctx around sources (with_queue queued job)
      ≡ with_queue queued (process_all ctx around sources job)
unfolding bot_process_all process_all
process_all-with_queue ctx around [] job queued = refl
process_all-with_queue ctx around ((source, configs) ∷ rest) job queued =
    let done = process_source-with_queue ctx around source configs job queued in
    elim (Bool-cases (cancelled_at around source configs)) [
      | inl e ↦ rw e done
      | inr e ↦ rw e (
          ap (bot_process_all ctx around rest) done
          ∙ process_all-with_queue ctx around rest (process_source ctx around source configs job)
              queued)
    ]

-- With the same answers from outside, the job of BotService ends with the table and the validator with which the job of
-- main.py ends, and leaves the queue of publication as it was.
pub bot_scraper_job-scraper_job :
    (ctx : Context) (around : Around) (enabled : Bool) (scraped : Option (List (Text × List Text)))
    (table : ConfigTable) (queued : List PublishItem)
    → bot_scraper_job ctx around enabled scraped table queued
      ≡ with_queue queued (scraper_job ctx around enabled scraped table queued)
unfolding bot_scraper_job scraper_job new_job
bot_scraper_job-scraper_job ctx around false scraped table queued = refl
bot_scraper_job-scraper_job ctx around true none table queued = refl
bot_scraper_job-scraper_job ctx around true (some sources) table queued =
    process_all-with_queue ctx around sources (new_job table queued) queued
