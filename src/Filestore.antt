-- ===== src/Filestore.antt =====
-- corndogs/server/store/filestore: the embedded store on bbolt.
pub mod Counts
pub mod Task
pub mod Order
pub mod Api
pub mod Bolt
pub mod Tx
pub mod Records
pub mod BoltStore
pub mod Timeouts
pub mod Guards
pub mod Guarded
pub mod Lookups
pub mod Purge
pub mod Requests
pub mod ReplLog
pub mod Replication
pub mod Snapshots
