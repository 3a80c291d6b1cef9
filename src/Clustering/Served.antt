-- ===== src/Clustering/Served.antt =====
-- The engine of corndogs/server/clustering/engine.go on the replicator of replicator.go, with the
-- proposals of clustered_store.go and clustered_guards.go, each of which runs an operation of the local
-- store on the goroutine of the engine.
pub mod Bounded
pub mod Serves
pub mod Answered
use corndogs.Prelude.{ℕ, ◌≡◌, Bool, List, [], ◌∷◌, Option, none, some}
use corndogs.Bytes.{Bytes}
use corndogs.Filestore.Bolt.{Env}
use corndogs.Filestore.Tx.{Error, Exec, Result, ok, err}
use corndogs.Filestore.Requests.{Request, perform}
use corndogs.Cluster.Floats.{Floats}
use corndogs.Clustering.Engine
use corndogs.Clustering.Engine.{
  Replicated, StoreWrite, wrote, write_failed, Proposal, Outcome, done, not_leader, no_quorum,
  commit_timeout, refused,
}
use corndogs.Clustering.Replicator.{Replicator, Frame}
use corndogs.Clustering.Replicator.Handlers.{tick, recv, write, leads, can_commit, last_lsn}

module _ ⦃f : Floats⦄ ⦃e : Env⦄ where
  -- What the engine calls: IsLeader, CanCommit, LastLSN, CommittedLSN, the node's Leader, Tick and Recv.
  instance abbrev pub store_replicator : Replicated
  store_replicator = record {
    Replicator = Replicator;
    Frame = Frame;
    is_leader = leads;
    can_commit = can_commit;
    last_lsn = last_lsn;
    committed_lsn = λ r. r.committed_lsn;
    leader = λ r. (r.node.leader_id, r.node.epoch);
    tick = tick;
    recv = recv;
  }

  abbrev pub written {ℓ} : {A : Type ℓ} → Result A × Replicator → StoreWrite Error
  written (ok a, r) = wrote r
  written (err x, r) = write_failed x r

  -- The function of a proposal: the operation on the local store.
  unfoldable pub proposed : Request → ℕ → Proposal Error
  proposed q channel = record { fn = λ r. written (write (perform q) r); channel = channel }

-- What a client of the clustered store gets; a follower tells it where the leader is.
pub data Reply : Type 0 where
  applied : Reply
  redirect : (leader_addr : Bytes) → Reply
  failed : (outcome : Outcome Error) → Reply

-- propose; `addr` is CurrentLeaderRPCAddr
unfoldable pub reply_to : Bytes → Outcome Error → Reply
reply_to addr done = applied
reply_to addr not_leader = redirect addr
reply_to addr no_quorum = failed no_quorum
reply_to addr commit_timeout = failed commit_timeout
reply_to addr (refused x) = failed (refused x)
