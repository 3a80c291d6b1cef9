-- ===== src/Clustering.antt =====
-- corndogs/server/clustering: what ties the members, the store and the log together.
pub mod Settings
pub mod Engine
pub mod FrameCodec
pub mod Replicator
pub mod Served
