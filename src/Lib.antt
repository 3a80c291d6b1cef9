-- ===== src/Lib.antt =====
-- Corndogs, a task queue server in Go: its embedded store, the replication of that store to followers,
-- and the election of a leader.
--
-- A client submits tasks, claims the next task of a queue and state, updates it and finishes it. The
-- store keeps the live tasks in bbolt buckets under ordered keys, so that the next task is the first key
-- of a prefix. Every write runs in one transaction. On the leader of a cluster the physical changes of a
-- write are captured and published as one numbered batch, which followers apply as they are. The
-- members choose the leader by random bids.
--
-- The modules and the code that they are about:
--   Bytes: byte slices, big-endian words and `bytes.Compare`, as the code uses them.
--   Filestore.Task, Filestore.Order: corndogs/server/store/filestore/task.go and order.go, with
--     betterCandidate and parseKeyQueueState of boltstore.go. encode_task_key is encodeTaskKey.
--   Filestore.Api: convert.go, the records of clients/corndogs/types.gen.go that the store reads and
--     returns, and the receipt records of guards.go.
--   Filestore.Bolt: bbolt and encoding/json as an interface with their laws. A bucket reads back what
--     was put, a cursor goes up the keys, a put is refused for keys and values that are too long, and
--     a record reads back as it was written.
--   Filestore.Tx: a transaction as a state and error monad over the buckets (Db is a function from
--     bucket names), with the capture buffer of replication.go and the audit events.
--   Filestore.Records: putTask, deleteTask, adjustCount and the loads, from boltstore.go and counts.go.
--   Filestore.BoltStore, Filestore.Timeouts: the task operations of boltstore.go.
--   Filestore.Guards, Filestore.Guarded: guards.go, the keyed and guarded operations and their receipts.
--   Filestore.Lookups: its LookupSubmission and GetGuardedTask. Filestore.Purge: its LookupOperation and
--     PurgeExpiredReceipts. json.Unmarshal of expires_at alone from a stored receipt is a parameter there.
--   Filestore.Requests: one request of any kind, for statements about all of them.
--   Filestore.Replication: replication.go, with writeCapturing and ApplyReplicated of boltstore.go and
--     the transaction of committer.go. Filestore.Replication.Wire is EncodeBatch and DecodeBatch.
--   Filestore.Counts: counts.go, and the metric operations of boltstore.go that read the counts.
--   Filestore.Snapshots: ReadReplPosition, StampReplPosition and HasTaskData of replication.go, SnapshotTo
--     and RestoreSnapshot of boltstore.go. A snapshot is the database that bbolt opens from its bytes.
--   Filestore.ReplLog: repllog.go. A segment file is its number and its bytes, which Append writes with
--     encode_batch and the readers decode; Filestore.ReplLog.Open is OpenReplLog and Truncate. The lines
--     of the epoch index are values. File operations succeed.
--   Cluster.Config, Cluster.Node, Cluster.Election, Cluster.Recv: config.go, message.go and node.go of
--     corndogs/server/cluster. Cluster.Floats is float64 and math/rand, with the laws that the election
--     relies on. Cluster.Steps is any sequence of calls of a member's methods.
--   Clustering.Settings: Validate and DurabilityAckCount of corndogs/server/clustering/config.go.
--   Clustering.Engine: the loop of engine.go there. It runs on an interface, Replicated, that has what
--     it calls on the replicator; the channels on which clients wait are numbers.
--   Clustering.Replicator: replicator.go, which drives a member (Cluster.Node), its store
--     (Filestore.Replication) and its log (Filestore.ReplLog); Clustering.Replicator.Handlers is Tick, Recv
--     and what they call. The frames that it sends are a list. A write of the leader goes through
--     write_capturing, and what the sink receives goes to on_captured.
--   Clustering.Served: the engine on the replicator, with the proposals of clustered_store.go.
--   Clustering.FrameCodec: EncodeFrame and DecodeFrame of frame_codec.go, with the Frame of replicator.go.
--   Service.Policy: the settings of corndogs/server/config/config.go that the handlers read.
--   Service.Digest: digest.go of corndogs/server/implementations and what resilience.go digests.
--   Service.Handlers: the handlers of submittask.go, gettasks.go, modifytasks.go, resilience.go and
--     payload.go. A handler rejects a call or hands a Filestore.Requests.Request to the store. SHA-256
--     and the parser of uuids are parameters.
--   Examples: buckets, a codec, bids and small states, at which the theorems are applied.
--
-- An int64 or uint64 is its 64-bit pattern, a number below 2 ^ 64, and signed comparison flips the sign
-- bit. The clock, new uuids and random draws are arguments or part of the state. An error is a value,
-- and a panic is a missing result. The reader of a segment runs on fuel, one
-- round more than the segment has bytes; every other loop is over a list or a count that was read.
--
-- Not modelled: the SQL of corndogs/server/store/postgresstore, generated and copied codecs
-- (corndogs/server/csilrpc, clients), sockets, TLS, goroutines, file operations that fail and the audit files,
-- flags, metrics and logging. Of the filestore, start-up and migration are left out, of
-- corndogs/server/implementations the read-only calls, and of corndogs/server/clustering the transport and
-- the settings' environment. A message between members is of one of the three known
-- types, and the purge of expired receipts is not among the proposals of the replicated runs.
pub mod Prelude
pub mod Bytes
pub mod Filestore
pub mod Cluster
pub mod Service
pub mod Clustering
pub mod Examples
