-- ===== src/Server.antt =====
-- src/server/server.go
mod Defs
pub mod Acks
pub mod Loop
pub mod Streams
pub mod Persistence
pub mod OnDisk
unfoldable pub use Defs.*
