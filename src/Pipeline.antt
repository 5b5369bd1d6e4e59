-- ===== src/Pipeline.antt =====
-- main.py, `scraper_job`: scrape, validate, store, and queue for publication. The order in which the
-- events of a batch come, and whether the database answers, are parameters.
pub mod Published
pub mod Separate
pub mod Unique
use config_manager.Prelude.{
  ℕ, Bool, true, false, Option, none, some, List, [], ◌∷◌, ◌++◌, map, take, if◌then◌else◌,
}
use config_manager.Prelude.Text.{Text}
use config_manager.Database.Configs.{ConfigTable, Validated, batch_save_configs}
use config_manager.Validator.{Context, Validator, Event, run, new_batch, results}

-- `PublishItem`
pub record PublishItem : Type 0 where
  pub config : Text
  pub country_code : Text

-- What one run of the job works on: the validator of the run, the table, and every item put into
-- the queue of publication so far, the oldest first.
pub record Job : Type 0 where
  pub validator : Validator
  pub table : ConfigTable
  pub queued : List PublishItem

-- What happens around the job while it works on a source: the order of the events of the batch, the
-- clock, whether the transaction goes through, and whether the job is cancelled there: `some n` is a cancel after `n` of
-- the new configs were put into the queue, with 0 for one before. A cancel before the commit is one where the transaction
-- does not go through. As the queue is bounded, a put may wait.
pub record Around : Type 0 where
  pub events : Text → List (ℕ × Event)
  pub clock : Text → ℕ
  pub stores : Text → Bool
  pub cancel : Text → Option ℕ

abbrev pub publish_limit : ℕ
publish_limit = 20

-- `queue.put(item["watermarked_config"], item["country_code"])`
abbrev pub to_publish : Validated → PublishItem
to_publish item = record { config = item.watermarked_config; country_code = item.country_code }

-- the loop of `queue.put`, up to the cancel if there is one
unfoldable pub put_until : Option ℕ → List Validated → List PublishItem
put_until none new = map to_publish new
put_until (some n) new = map to_publish (take n new)

-- from `async with factory() as session` on, for a list of results that is not empty
unfoldable pub store : Around → Text → List Validated → Job → Job
unfolding put_until
store around source validated job =
    let ((count, new), after) =
      batch_save_configs (around.clock source) (some source) validated job.table in
    if around.stores source
    then record {
      validator = job.validator;
      table = after;
      queued = job.queued ++ put_until (around.cancel source) new;
    }
    else job

unfoldable pub store_if_any : Around → Text → List Validated → Job → Job
unfolding store
store_if_any around source [] job = job
store_if_any around source (c ∷ cs) job = store around source (c ∷ cs) job

-- the body of the loop, for the configs of one source
unfoldable pub process_source : Context → Around → Text → List Text → Job → Job
unfolding store_if_any
process_source ctx around source [] job = job
process_source ctx around source (c ∷ cs) job =
    let limited = take publish_limit (c ∷ cs) in
    let batch = run ctx 10 (around.events source) (new_batch job.validator limited) in
    store_if_any around source (results batch.tasks)
      (record { validator = batch.validator; table = job.table; queued = job.queued })

abbrev pub is_cancel : Option ℕ → Bool
is_cancel none = false
is_cancel (some n) = true

-- Whether a cancel reaches the job at a source, where it waits for something only if there are configs. It is not caught in
-- the loop.
unfoldable pub cancelled_at : Around → Text → List Text → Bool
cancelled_at around source [] = false
cancelled_at around source (c ∷ cs) = is_cancel (around.cancel source)

-- `for source, configs in all_sources.items()`
unfoldable pub process_all : Context → Around → List (Text × List Text) → Job → Job
unfolding process_source cancelled_at
process_all ctx around [] job = job
process_all ctx around ((source, configs) ∷ rest) job =
    let done = process_source ctx around source configs job in
    let others = process_all ctx around rest done in
    if cancelled_at around source configs then done else others

-- a new validator, with the table and the queue as they are
unfoldable pub new_job : ConfigTable → List PublishItem → Job
new_job table queued = record {
  validator = record { seen_hashes = []; country_cache = [] };
  table = table;
  queued = queued;
}

-- `scraper_job`; `none` is an exception of `scrape_all` or a cancel within it, which ends the run.
unfoldable pub scraper_job :
    Context
    → Around
    → Bool
    → Option (List (Text × List Text))
    → ConfigTable
    → List PublishItem
    → Job
unfolding process_all new_job
scraper_job ctx around false scraped table queued = new_job table queued
scraper_job ctx around true none table queued = new_job table queued
scraper_job ctx around true (some sources) table queued =
    process_all ctx around sources (new_job table queued)
