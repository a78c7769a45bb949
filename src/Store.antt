-- ===== src/Store.antt =====
-- src/store: build events, one blob of JSON lines for each invocation.
mod Defs
pub mod Invariant
pub mod Json
mod Appends
pub mod RoundTrip
pub mod Reliable
unfoldable pub use Defs.*
