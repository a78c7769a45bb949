-- ===== src/Examples.antt =====
-- Concrete runs of the modelled code, and the theorems at concrete inputs.
mod Parsing
mod Targets
mod Streaming
mod Publishing
mod Details
mod Blobs
mod Cache
mod SignOn
mod Postgres
mod Views
mod Transfers
mod Startup
mod Disk
mod Objects
mod Remote
mod Caching
