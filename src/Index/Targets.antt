-- ===== src/Index/Targets.antt =====
-- src/index/targets.go: the targets of an invocation, in first-seen order.
mod FileSets
mod Summary
pub mod Termination
pub mod Reported
pub mod Labels
unfoldable pub use FileSets.*
unfoldable pub use Summary.*
