-- ===== src/Controller.antt =====
-- internal/controller/inferenceservice_controller.go: the reconciler.
pub mod Policy
pub mod Trouble
pub mod Run
pub mod Ownership
pub mod Deploy
pub mod Autoscaling
pub mod Routing
pub mod Reconcile
pub mod Setup
pub mod Trace
pub mod Protocol
pub mod Permissions
pub mod Reporting
pub mod Conditions
pub mod Writes
pub mod AddOns
pub mod Survival
pub mod FailsFast
pub mod StatusWrites
pub mod Stateless
pub mod History
pub mod Idempotence
