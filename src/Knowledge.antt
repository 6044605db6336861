-- ===== src/Knowledge.antt =====
-- The knowledge protocol: internal/knowledge/{contracts,voting,facts}.go, the handler of
-- internal/group/knowledge_handler.go, and the tables of internal/timeline/service.go that it
-- writes. A child module for each.
pub mod Contracts
pub mod Voting
pub mod Facts
pub mod Store
pub mod Handler
mod Tests
