-- ===== src/Tests.antt =====
-- Tests of the model on concrete states, and the theorems applied to them.
pub mod Data
mod Commits
mod Tables
mod Histories
mod Crates
mod Writes
mod Clients
mod Drivers
mod Ranges
mod Specs
