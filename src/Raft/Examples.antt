-- ===== src/Raft/Examples.antt =====
-- The theorems on raft/ at concrete peers, and runs of the handlers.
mod Peers
mod Calls
mod Restarts
