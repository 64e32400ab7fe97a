-- ===== src/Seccomp.antt =====
-- build.rs: the seccomp filters, compiled from groups of system calls and a policy.
pub mod Groups
pub mod Context
pub mod Export
pub mod Fresh
pub mod Runs
pub mod Verdict
pub mod Correct
pub mod Mocks
mod Tests
