-- ===== src/Tests.antt =====
-- Runs of the model at concrete inputs: of the queue, of a small cluster with scripts, and of the
-- schedule.
pub mod Queue
pub mod Backing
pub mod World
pub mod Resources
pub mod Outside
pub mod Pipeline
pub mod Times
pub mod Tables
pub mod Reconcile
pub mod Chain
pub mod Setup
pub mod Knots
pub mod Memory
pub mod Copies
