-- ===== src/Index.antt =====
-- src/index: the summary of an invocation and the targets of its build.
pub mod GitUrl
pub mod Tags
pub mod Record
pub mod Indexer
pub mod Parser
pub mod Targets
pub mod Detail
