-- ===== src/Tests.antt =====
-- The theorems at concrete inputs.
mod World
mod Runs
mod Policies
mod Cards
mod Audits
mod Servers
mod Ticks
mod Settings
mod Passes
mod Canaries
