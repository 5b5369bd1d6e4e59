-- ===== src/Database.antt =====
-- database/: the tables and what crud.py does with them.
pub mod Models
pub mod Configs
pub mod Retry
pub mod Users
pub mod Sources
