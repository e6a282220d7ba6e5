-- ===== src/Merge.antt =====
-- Process of handler/mergePullRequest.go: the head of a pull request is merged into its base in a
-- quarantine repository, pushed, and the new packfile is proposed. Every git process is a call; how
-- it ends, and what the chain answers, is an argument (`Env`). `Quarantine` is utils/pull.go.
pub mod Unmarshal
pub mod Quarantine
pub mod Process
pub mod Steps
pub mod Posted
pub mod Proposed
pub mod Panics
pub mod Crossed
mod Tests
