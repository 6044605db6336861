-- ===== src/Subagents.antt =====
-- internal/agent/subagents.go: the runs of subagents, the limits on spawning them and the
-- announcements of their ends. Times are nanoseconds; the clock, the ids of google/uuid and the
-- digest of crypto/sha1 are arguments. The mutex makes every operation atomic. The file that holds a
-- copy of the runs is read as a list of them; writing it is not modelled.
pub mod Runs
pub mod Spawn
pub mod Restore
pub mod Announce
pub mod Counts
pub mod Limits
pub mod Steps
pub mod Restart
pub mod Kill
mod Tests
