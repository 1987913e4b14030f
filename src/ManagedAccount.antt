-- ===== src/ManagedAccount.antt =====
-- src/managed-account.ts: the controller that `createManagedAccountController` makes. Its variables
-- are in Controls, and its operations are the steps of Calls, Tasks and Shutdown: what runs at once
-- when a promise settles, a timer fires or a signal is aborted is one step.
pub mod Data
pub mod Parsing
pub mod Usages
pub mod Challenges
pub mod Controls
pub mod Replies
pub mod Calls
pub mod Tasks
pub mod Shutdown
pub mod Fences
pub mod Settling
pub mod Turns
pub mod Reading
pub mod Ending
pub mod Transports
pub mod Starting
pub mod Closes
pub mod Trace
pub mod Voids
pub mod Signing
pub mod Barrier
pub mod Unresolved
pub mod Custody
pub mod Sessions
pub mod Tests
