-- ===== src/Judge.antt =====
-- src/judge.ts: the judgment port and its System One backend.
pub mod Names
pub mod Questions
pub mod Answers
pub mod Matching
pub mod Keys
pub mod Targets
pub mod Backend
mod Bodies
mod Vaults
mod Vaulted
mod Ranges
mod Sound
mod Tests
