-- ===== src/Runs.antt =====
-- apps/api/src/runs.
pub mod Status
pub mod Record
pub mod Prisma
pub mod Repository
pub mod Rows
pub mod Abort
pub mod World
pub mod Hub
pub mod Lifecycle
pub mod Executor
pub mod Review
pub mod Cancel
pub mod Recover
pub mod Loops
pub mod Worker
pub mod StartRun
pub mod ResumeHitl
