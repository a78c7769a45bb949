-- ===== src/Index/Parser/Precedence.antt =====
-- What the fields of a record are after a stream, stated without the parser: every event makes a
-- list of writes, and a field takes the last write of the highest priority.
mod Writes
mod Adds
mod Refinement
mod Winner
mod Rank
pub use Writes.*
pub use Refinement.*
pub use Winner.*
unfoldable pub use Rank.*
