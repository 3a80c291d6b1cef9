-- ===== src/Cluster.antt =====
-- corndogs/server/cluster: the election and heartbeat state machine of one member.
pub mod Floats
pub mod Dict
pub mod Config
pub mod Node
pub mod Election
pub mod Recv
pub mod Steps
