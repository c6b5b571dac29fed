-- ===== src/Tests.antt =====
-- The theorems applied to concrete inputs.
mod Async
mod Daemon
mod Manager
mod Merging
mod Polling
mod Queries
mod Utilities
mod Wallet
mod Listeners
mod Worker
