-- ===== src/Tests.antt =====
-- The theorems at concrete data.
mod Instances
mod Mirror
mod Ledger
mod Storage
mod Node
mod Members
mod Files
mod Services
mod Put
mod Repair
mod Fuse
mod Api
