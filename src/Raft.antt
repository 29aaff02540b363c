-- ===== src/Raft.antt =====
-- raft/
pub mod State
pub mod Recovery
pub mod Vote
pub mod Append
pub mod Commit
pub mod Leader
pub mod Snapshot
pub mod Election
pub mod Ballots
mod Examples
