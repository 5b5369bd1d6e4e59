-- ===== src/Examples.antt =====
-- Examples: the theorems at concrete values.
mod Values
mod Links
mod Addresses
mod Store
mod Batches
mod Job
mod Rows
mod Bot
mod Migrations
mod Perf
mod Pool
mod Services
mod Startup
