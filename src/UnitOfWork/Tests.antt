-- ===== src/UnitOfWork/Tests.antt =====
-- The theorems on unitofwork at concrete units of work, entities and databases.
mod Data
mod Plugins
mod Sorting
mod Graphs
mod Planning
mod Whole
mod Committing
mod Tracking
