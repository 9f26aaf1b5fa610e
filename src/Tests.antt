-- ===== src/Tests.antt =====
-- Runs on small inputs: the witnesses of the theorems, and tests of single functions.
pub mod Hazard
pub mod Storage
pub mod WorkerPool
pub mod RiderTable
pub mod Postgres
pub mod Reorder
pub mod Server
pub mod Run
pub mod Handle
pub mod Gateway
pub mod Simulator
pub mod Process
