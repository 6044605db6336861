-- ===== src/Tools.antt =====
-- internal/tools: the guard of the shell tool (shell.go) and the tools that write files
-- (filesystem.go).
pub mod Shell
pub mod Files
mod Tests
