-- ===== src/Tests.antt =====
-- Runs at concrete inputs, and the theorems at data that meet their hypotheses.
mod Cluster
mod Data
mod Pure
mod Runs
mod Deployments
mod Memory
mod Copies
mod Start
mod Histories
mod Permissions
