-- ===== src/Controller.antt =====
-- The reconciler, internal/controller/cleaner_controller.go: when a cleaner is due, and what a reconciliation does.
pub mod Schedule
pub mod Scope
pub mod Finalizers
pub mod Reconcile
pub mod Setup
