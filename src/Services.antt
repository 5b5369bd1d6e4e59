-- ===== src/Services.antt =====
-- services/: the parts that the services share, their manager, and what the services do beside main.py.
pub mod Cache
pub mod Dispatch
pub mod Manager
pub mod BotService
pub mod PublisherService
pub mod ScraperService
