-- ===== src/UnitOfWork.antt =====
-- The unit of work (unitofwork/*.go): entities on a heap, snapshots, operations, the dependency
-- manager, the unit of work itself and its manager.
pub mod Entity
pub mod Snapshot
pub mod Operation
pub mod Dependency
pub mod Config
pub mod State
pub mod Plan
pub mod Execute
pub mod Commit
pub mod Registered
pub mod Plugin
mod Tests
