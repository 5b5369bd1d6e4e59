-- ===== src/Examples/Services.antt =====
-- The services at small values.
use config_manager.Prelude.{
  ℕ, ◌+◌, ◌≡◌, Bool, true, false, Option, none, some, List, [], ◌∷◌, ◌++◌, map, arith,
}
use config_manager.Prelude.Text.{codes}
use config_manager.Pipeline.{PublishItem}
use config_manager.Services.Dispatch.{
  Callback, MessageType, config_scraped, user_action, message_code, process_messages, no_callbacks,
}
use config_manager.Services.Dispatch.Laws.{
  Registration, register_all, run_calls, all_calls, process_messages-calls,
}
use config_manager.Services.Manager.{
  Service, bot, scraper, publisher, unset, connect, main, services_to_start,
}
use config_manager.Services.Manager.Laws.{started, started_of, failing_of, ending, main-calls}
use config_manager.Services.PublisherService.{
  publish_loop, turns_for, stopped, cancelled_in_send, worked, publish_loop-until_stopped,
}

-- a callback that counts its calls, and one that raises an exception
abbrev counts : Callback ℕ ℕ
counts d s = record { state = s + d; raised = false }

abbrev raises : Callback ℕ ℕ
raises d s = record { state = s; raised = true }

abbrev for_messages : List (Registration MessageType ℕ ℕ)
for_messages = (user_action, raises) ∷ (user_action, counts) ∷ (config_scraped, counts) ∷ []

process_messages-calls_example :
    process_messages
      (register_all message_code for_messages no_callbacks)
      ((user_action, 2) ∷ (config_scraped, 3) ∷ [])
      0
    ≡ run_calls
        (all_calls message_code for_messages ((user_action, 2) ∷ (config_scraped, 3) ∷ []))
        0
process_messages-calls_example =
    process_messages-calls message_code for_messages ((user_action, 2) ∷ (config_scraped, 3) ∷ []) 0

abbrev scraper_fails : Service → Bool
scraper_fails bot = true
scraper_fails scraper = false
scraper_fails publisher = true

main-calls_example :
    (main scraper_fails unset).calls
    ≡ connect ∷ map started (started_of scraper_fails (services_to_start unset))
      ++ ending
          (started_of scraper_fails (services_to_start unset))
          (failing_of scraper_fails (services_to_start unset))
main-calls_example = main-calls scraper_fails unset

abbrev config_item : PublishItem
config_item = record { config = codes "ss://a"; country_code = codes "DE" }

abbrev fails_for_all : PublishItem → Option Bool
fails_for_all item = none

publish_loop-until_stopped_example :
    (publish_loop fails_for_all 2
        (turns_for (config_item ∷ []) ++ stopped ∷ [])
        (map some (config_item ∷ []) ++ none ∷ [])
      ≡ worked fails_for_all (config_item ∷ []) 2 (none ∷ []))
    × (publish_loop fails_for_all 2
          (turns_for (config_item ∷ []) ++ cancelled_in_send ∷ [])
          (map some (config_item ∷ []) ++ some config_item ∷ none ∷ [])
        ≡ worked fails_for_all (config_item ∷ []) 2 (none ∷ []))
publish_loop-until_stopped_example =
    publish_loop-until_stopped fails_for_all (config_item ∷ []) config_item 2 [] (none ∷ [])
      (omega arith)
