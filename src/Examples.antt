-- ===== src/Examples.antt =====
-- Concrete stores, tasks and nodes, and the theorems at them.
mod Buckets
mod Codec
mod Stores
mod Keys
mod Members
mod Batches
mod Services
mod Logs
mod Engines
mod Frames
mod Groups
mod Receipts
mod Replicators
