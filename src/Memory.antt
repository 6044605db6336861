-- ===== src/Memory.antt =====
-- internal/memory: the retention of the chunks (lifecycle.go) and the working memory (working.go). A
-- statement is its documented effect on a table, and succeeds.
pub mod Lifecycle
pub mod Working
mod Tests
