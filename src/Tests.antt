-- ===== src/Tests.antt =====
-- A small application, and the theorems and the code run on it.
pub mod Fixture
mod Batches
mod Hooks
mod Routes
mod Stores
mod Traces
mod Clients
mod Pools
mod Calls
mod Lines
mod Threads
mod Applications
mod Locks
mod Refusals
