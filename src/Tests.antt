-- ===== src/Tests.antt =====
-- The theorems at concrete inputs: an instance of the external crates, sample messages, and one module
-- of examples for each part of the cache.
mod World
mod Backend
mod Samples
mod Freshness
mod Policy
mod Validation
mod Memory
mod Tee
mod Server
mod Tiered
mod Client
mod Ledger
mod Files
mod Fs
