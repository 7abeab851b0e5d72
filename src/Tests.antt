-- ===== src/Tests.antt =====
-- Runs of the adapter and of the client on concrete data.
pub mod Data
mod Runs
mod Sessions
mod Life
mod Transfers
mod Config
mod Names
mod Clients
mod Envelopes
