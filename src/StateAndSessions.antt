-- ===== src/StateAndSessions.antt =====
-- travel-agent-python/app/services/state_and_sessions.py: the sliding windows of the rate limits,
-- the one-off marks that serve as locks, and the registered sessions.
pub mod Windows
pub mod Marks
pub mod Sessions
