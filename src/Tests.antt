-- ===== src/Tests.antt =====
-- Runs of the model on concrete nodes, and the theorems applied to them.
pub mod Data
pub mod Storage
pub mod Backups
pub mod Rounds
pub mod Execution
pub mod Others
pub mod Failures
pub mod Locks
pub mod Keys
pub mod Views
pub mod Clients
pub mod Startup
pub mod Both
pub mod Datastore
pub mod Checkpoints
