-- ===== src/Index/Parser.antt =====
-- src/index/parser.go: `EventParser` fills a record from the events of one invocation. The pointer
-- to the record is a field here, since nothing else reads it before the stream has ended.
mod Setters
mod Sources
pub mod Precedence
unfoldable pub use Setters.*
unfoldable pub use Sources.*
