-- ===== src/Examples/Job.antt =====
-- main.py, scraper/, publisher/ and services/ at concrete values.
use config_manager.Prelude.{
  List, Option, ℕ, zero, suc, ◌+◌, ◌≡◌, ◌≤◌, ◌<◌, refl, Bool, true, some, none, Option, [], ◌∷◌,
  member, Distinct, arith,
}
use config_manager.Prelude.Text.{Text, text_eq, codes}
use config_manager.Database.Models.{ScraperSource}
use config_manager.Database.Configs.{hashes}
use config_manager.Scraper.{Searches, Web, fetch}
use config_manager.Scraper.Laws.{fetch-first}
use config_manager.Services.BotService.{bot_scraper_job, with_queue, bot_scraper_job-scraper_job}
use config_manager.Pipeline.{PublishItem, Around, scraper_job, new_job}
use config_manager.Database.Sources.{SourceTable}
use config_manager.Startup.{Source}
use config_manager.Scraper.All.{Database, scrape_all}
use config_manager.Scraper.All.Laws.{described, scrape_all-described}
use config_manager.Pipeline.Published.{Extends, undisturbed, scraped_sources, scraper_job-Extends}
use config_manager.Pipeline.Unique.{scrape_all-scraper_job-Distinct}
use config_manager.Publisher.{Reply, answered, readable, send_message, publish_max_retries}
use config_manager.Publisher.Sending.{IsAccepted, send_message-Sent}
use config_manager.Services.Cache.{Cache, get, set, delete, exists, clear, seconds_of}
use config_manager.Services.Cache.Laws.{Runs, WellFormed, cache-WellFormed, get-set}
use config_manager.Examples.Values.{plain_context, link, other_link, one_row}
use config_manager.Examples.Batches.{crossed}

-- two links on every page
abbrev both_links : Searches
both_links = record { first = λ t. some (link ∷ other_link ∷ []); second = λ t. some (link ∷ []) }

abbrev small_web : Web
small_web = record {
  response = λ url attempt. some (codes "page");
  channel_searches = both_links;
  subscription_searches = both_links;
  b64decode = λ t. none;
}

abbrev channel_source : ScraperSource
channel_source = record {
  id = 1;
  name = codes "one";
  url = codes "chan";
  source_type = codes "telegram";
  is_active = true;
  last_scraped = none;
  last_config_count = 0;
  created_at = 0;
}

abbrev quiet : Around
quiet = record {
  events = λ source. crossed;
  clock = λ source. 9;
  stores = λ source. true;
  cancel = λ source. none;
}

abbrev one_channel : SourceTable
one_channel = record { rows = channel_source ∷ []; next_id = 2 }

abbrev default_channel : Source
default_channel = record { name = codes "d"; url = codes "def"; source_type = codes "telegram" }

abbrev reliable : Database
reliable = record { order = λ rows. rows; reads = true; clock = λ url. 7; updates = λ url. true }

scrape_all-scraper_job-Distinct_example : Distinct (
    hashes
      (scraper_job plain_context quiet true
        (some
          (scrape_all plain_context.md5 small_web 2 reliable
            (default_channel ∷ [])
            []
            one_channel).results)
        one_row
        []).table)
unfolding member
scrape_all-scraper_job-Distinct_example =
    scrape_all-scraper_job-Distinct plain_context quiet true small_web 2 reliable
      (default_channel ∷ []) [] one_channel one_row [] (refl, tt)

scrape_all-described_example :
    described
      (scrape_all plain_context.md5 small_web 2 reliable
        (default_channel ∷ [])
        []
        one_channel).table
    ≡ described one_channel
scrape_all-described_example =
    scrape_all-described plain_context.md5 small_web 2 reliable (default_channel ∷ []) []
      one_channel

-- The job is cancelled after one item was put.
abbrev interrupted : Around
interrupted = record quiet { cancel = λ source. some 1 }

scraper_job-Extends_example :
    let sources : Option (List (Text × List Text)) = some ((codes "one", link ∷ []) ∷ []) in
    Extends
      (undisturbed interrupted (scraped_sources true sources))
      (new_job one_row [])
      (scraper_job plain_context interrupted true sources one_row [])
scraper_job-Extends_example =
    scraper_job-Extends plain_context interrupted true (some ((codes "one", link ∷ []) ∷ []))
      one_row []

bot_scraper_job-scraper_job_example :
    bot_scraper_job plain_context quiet true (some ((codes "one", link ∷ []) ∷ [])) one_row []
    ≡ with_queue []
        (scraper_job plain_context quiet true (some ((codes "one", link ∷ []) ∷ [])) one_row [])
bot_scraper_job-scraper_job_example =
    bot_scraper_job-scraper_job plain_context quiet true (some ((codes "one", link ∷ []) ∷ []))
      one_row []

-- the first attempt fails
abbrev second_answer : ℕ → Option Text
second_answer zero = none
second_answer (suc n) = some (codes "page")

fetch-first_example :
    ((k : ℕ) (text : Text)
      → k ≤ 2
      → ((j : ℕ) → j < k → second_answer j ≡ none)
      → second_answer k ≡ some text
      → fetch second_answer 2 ≡ some text)
    × (((j : ℕ) → j ≤ 2 → second_answer j ≡ none) → fetch second_answer 2 ≡ none)
fetch-first_example = fetch-first second_answer 2

-- a rate limit, and then success
abbrev busy_once : ℕ → Reply
busy_once zero = answered 429 readable
busy_once (suc n) = answered 200 readable

send_message-Sent_example :
    let (result, requests) = send_message busy_once in
    (1 ≤ requests)
    × ((requests ≤ publish_max_retries + 1)
        × (result ≡ some true → (j : ℕ) → j + 1 ≡ requests → IsAccepted (busy_once j)))
send_message-Sent_example = send_message-Sent busy_once

abbrev german : PublishItem
german = record { config = link; country_code = codes "DE" }

abbrev new_cache : Cache ℕ
new_cache = record { values = []; expiry = [] }

cache-WellFormed_example :
    ((remote : Option ℕ) (default : ℕ) → Runs (get 5 remote (codes "k") default new_cache))
    × (((remote : Bool) → Runs (exists 5 remote (codes "k") new_cache))
        × (((value : ℕ) (ttl : Option ℕ) → WellFormed (set 5 (codes "k") value ttl new_cache))
            × (((c' : Cache ℕ) × ((delete (codes "k") new_cache ≡ some c') × WellFormed c'))
                × WellFormed (clear new_cache))))
cache-WellFormed_example = cache-WellFormed 5 (codes "k") new_cache refl

get-set_example :
    get 100 none (codes "k") 0 (set 5 (codes "k") 42 none new_cache)
    ≡ some (42, set 5 (codes "k") 42 none new_cache)
unfolding seconds_of
get-set_example = get-set 5 100 (codes "k") 42 0 none none new_cache (omega arith)
