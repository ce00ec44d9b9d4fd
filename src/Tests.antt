-- ===== src/Tests.antt =====
-- The theorems at concrete inputs.
mod Samples
mod Formats
mod Lineage
mod Store
mod Service
mod Client
mod Validator
mod Search
mod Notify
mod Cached
mod Api
