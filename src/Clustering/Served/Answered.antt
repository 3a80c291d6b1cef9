-- ===== src/Clustering/Served/Answered.antt =====
-- The answers of the engine that runs on a replicator and its store, from the clustered store's side.
use corndogs.Prelude.{ℕ, ◌+◌, ◌^◌, ◌≤◌, ◌<◌, ◌≡◌, List, [], length, All, some}
use corndogs.Bytes.{Bytes}
use corndogs.Filestore.Bolt.{Env}
use corndogs.Filestore.Tx.{Error}
use corndogs.Cluster.Floats.{Floats}
use corndogs.Cluster.Node.{Node}
use corndogs.Filestore.Replication.{BoltStore}
use corndogs.Filestore.ReplLog.{ReplLog}
use corndogs.Clustering.Engine.{Engine, run}
use corndogs.Clustering.Engine.Answers.{sent_on, due, asked_on, run-Answered}
use corndogs.Clustering.Replicator.{new_replicator}
use corndogs.Clustering.Replicator.Safety.{IsFresh}
use corndogs.Clustering.Replicator.Sound.{IsBased}
use corndogs.Clustering.Served.{store_replicator}
use corndogs.Clustering.Served.Serves.{Arrival, inputs_of, IsExpected, run-IsSafe}

module _ ⦃f : Floats⦄ ⦃e : Env⦄ where
  -- The loop of an engine, on a replicator that New makes of a member that does not lead, runs to its end
  -- without a panic, whatever the frames of other members, the proposals of the clustered store that it
  -- takes, and the ticks are. After it, no one waits, and on each channel as much has been sent as was sent
  -- before, waited then, and was proposed: a proposal that the loop takes, on a channel of its own, is
  -- answered exactly once. The count keys of the snapshots in the frames fit in bbolt. The bound `b` on the
  -- sequence numbers at the start and in the snapshots leaves room for one write in each round below
  -- 2 ^ 64. Proposals that are still in the buffered channel when the loop stops are not taken.
  pub run-answers :
      (id : Bytes) (n : Node) (s : BoltStore) (l : ReplLog) (ack_count b : ℕ) (cs : List Arrival)
      (g : Engine Error)
      → g.rep ≡ new_replicator id n s l ack_count
      → IsFresh id n
      → IsBased l
      → g.rep.store.repl_lsn ≤ b
      → All (IsExpected id b) cs
      → b + length cs < 2 ^ 64
      → (g' : Engine Error) × (run Error (inputs_of cs) g ≡ some g')
        × (g'.waiters ≡ [])
        × ((c : ℕ) → sent_on c g'.answers ≡ due c g + asked_on c (inputs_of cs))
  run-answers id n s l ack_count b cs g new h k w x room =
      let (g', p, safe) = run-IsSafe id n s l ack_count b cs g new h k w x room in
      let (idle, sent) = run-Answered (inputs_of cs) g g' p in (g', p, idle, sent)
