-- ===== src/Runner.antt =====
-- src/runner: the requests of the supervised program, and what the supervisor answers them from.
pub mod Request
pub mod Schedule
pub mod Errno
pub mod Tracker
pub mod Fd
