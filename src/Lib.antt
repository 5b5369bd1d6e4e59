-- ===== src/Lib.antt =====
-- Verification of config_manager: a Telegram bot that collects V2Ray configs from channels and
-- subscriptions, validates and stores them, publishes the new ones in a channel, and puts clean
-- addresses into them for its users.
--
-- The parts and their files, with paths from the root of the repository:
--   Prelude        shared types, lists, texts as lists of code points, letter case, a stable sort
--   Utils          core/utils.py: is_valid_ip (Ip), detect_protocol (Protocol), config_hash and the
--                  duplicate removal of the scrapers (Dedup), get_flag (Flag), extract_host (Host),
--                  the payload of a vmess link (Codec), urllib's quote (Quote), the rate limiter
--                  of the geo service, in tenths of a second (Limiter), str and int of numbers (Decimal,
--                  Numbers)
--   Parser         processor/parser.py: the watermark
--   Database       database/models.py (Models); database/crud.py: configs (Configs), users,
--                  administrators and VIPs (Users), sources and clean addresses (Sources);
--                  with_retry of database/connection.py (Retry)
--   IpManager      core/ip_manager.py
--   Validator      processor/validator.py; a validation is a task that pauses once, and a batch is run
--                  by any list of events, so that every interleaving is covered
--   Scraper        scraper/base.py and scraper/subscription.py; scrape_all (All)
--   Pipeline       scraper_job of main.py, which joins Scraper, Validator and Database and fills the
--                  queue of publisher/queue.py
--   Publisher      publisher/broadcaster.py, and the pool of its workers on the queue of
--                  publisher/queue.py as a step relation (Pool): what happens to each item (Invariant),
--                  what stop does (Stopping), and that the queue can be emptied (Draining)
--   Services       services: cache_service.py (Cache), message_queue.py and error_handler.py (Dispatch),
--                  main.py (Manager), and what the three services do beside main.py (BotService,
--                  PublisherService, ScraperService)
--   Migrations     database/migrations/manager.py
--   Startup        migrate_admins_json and seed_default_sources of main.py
--   Perf           core/white_configs_perf_tester.py and its writer: the port of a config (Port), the
--                  scores in tenths (Scores), the ranking (Ranking)
--   Bot            app/handlers and app/middlewares/auth.py: what a handler reads and writes (Context),
--                  admin_callback (Buttons), handle_admin_text (Texts), handle_document (Documents),
--                  user.py (Users), router.py and the dispatch of main.py (Router); an abstract machine of
--                  the rights (Rights), what strangers can do (Strangers), what all handlers keep (Kept),
--                  that they answer (Answers), app/bot/menus_refactor.py and the list of sources (Menus)
--   Examples       the theorems at concrete values
--
-- Texts are lists of code points. Times are natural numbers. Parameters stand for what is not part of
-- the repository: MD5, json and base64 (a Codec), the Unicode tables above ASCII (a Unicode), the
-- answers of the network, the HTML parser and the searches by regular expression (Searches), Redis,
-- and the order of events. A table is the list of its rows in the order of insertion, with the number
-- that the database gives next; a query is what SQL documents for it. Loops over range(n + 1) are
-- recursion on the attempts that are left, so no fuel is needed. A cancel of the scraper job, or of the worker of
-- PublisherService, is a part of what happens around it; a batch of validations counts what its semaphore has given
-- out. What re.sub makes of a template with a backslash is a parameter too (sub_escapes of Codec).
--
-- The bot is run by a list of updates, each with its sender and with an Env, which tells what the update
-- meets outside: the clock, the owner's number, which messages reach their user, the performance of
-- configs. The number of a user that is typed in may be negative; the tables compare such numbers only, so
-- they are coded as natural numbers, one to one (user_key), and a query with a number beyond 64 bits raises an
-- exception (fits). The numbers that Telegram and the database give themselves fit, and so do those of the buttons that
-- the bot has sent. What is shown to a user is a value that names
-- the message; texts and keyboards are left out. A handler that raises leaves the tables as they are then.
--
-- Not modelled: the SQL of the first migration, the start of the services' own tasks, the ping test, the
-- connection test of the validator, which no caller turns on, and functions on files.
pub mod Prelude
pub mod Utils
pub mod Parser
pub mod Database
pub mod IpManager
pub mod Validator
pub mod Scraper
pub mod Pipeline
pub mod Publisher
pub mod Services
pub mod Migrations
pub mod Startup
pub mod Perf
pub mod Bot
pub mod Examples
