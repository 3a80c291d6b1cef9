-- ===== src/Clustering/Engine.antt =====
-- corndogs/server/clustering/engine.go: the loop that runs the proposals of clients on the leader and
-- answers them. A channel is a number, and what is sent on it is kept with it. The replicator is an
-- interface.
pub mod Answers
pub mod Committed
pub mod Confirmed
use corndogs.Prelude.{
  ℕ, zero, suc, ◌+◌, ◌*◌, ◌^◌, ◌≡◌, Bool, true, false, not, ◌&&◌, ◌||◌, List, [], ◌∷◌, ◌++◌, Option,
  none, some, if◌then◌else◌, ◌==◌, leb,
}
use corndogs.Bytes.{Bytes, equal}
use corndogs.Filestore.Task.{lt64, add64, sub64, mul64}
use corndogs.Filestore.Tx.{Result, ok, err}

-- What the engine calls on a Replicator and its node. A received frame can end in a panic, `none`.
pub record Replicated : Type 1 where
  pub Replicator : Type 0
  pub Frame : Type 0
  pub is_leader : Replicator → Bool
  pub can_commit : Replicator → Bool
  pub last_lsn : Replicator → ℕ
  pub committed_lsn : Replicator → ℕ
  pub leader : Replicator → Bytes × ℕ
  pub tick : ℕ → Replicator → Replicator
  pub recv : ℕ → Frame → Replicator → Option Replicator

-- What a client is told: nil, ErrNotLeader, ErrNoQuorum, ErrCommitTimeout or an error of the store.
pub data Outcome (E : Type 0) : Type 0 where
  done : Outcome E
  not_leader : Outcome E
  no_quorum : Outcome E
  commit_timeout : Outcome E
  refused : (error : E) → Outcome E

-- commitWaiter
pub record CommitWaiter : Type 0 where
  pub lsn : ℕ
  pub deadline : ℕ
  pub channel : ℕ

pub record Topology : Type 0 where
  pub epoch : ℕ
  pub leader_id : Bytes

module _ ⦃r : Replicated⦄ (E : Type 0) where
  -- The store write of a proposal: what it returns, and the replicator after it.
  pub data StoreWrite : Type 0 where
    wrote : (after : r.Replicator) → StoreWrite
    write_failed : (error : E) → (after : r.Replicator) → StoreWrite

  pub record Proposal : Type 0 where
    pub fn : r.Replicator → StoreWrite
    pub channel : ℕ

  -- The fields of Engine that the loop changes, with what has been sent on the channels of proposals,
  -- and FailureTimeout of the settings. The channels of `watchers` that are closed are gone from it.
  pub record Engine : Type 0 where
    pub rep : r.Replicator
    pub failure_timeout : ℕ
    pub waiters : List CommitWaiter
    pub now : ℕ
    pub leader_since : ℕ
    pub was_leader : Bool
    pub topo : Topology
    pub watchers : List ℕ
    pub answers : List (ℕ × Outcome E)

  abbrev pub answer : ℕ → Outcome E → Engine → Engine
  answer channel outcome e = record e { answers = e.answers ++ (channel, outcome) ∷ [] }

  -- commitTimeoutTicks
  abbrev pub commit_timeout_ticks : Engine → ℕ
  commit_timeout_ticks e = mul64 3 e.failure_timeout

  unfoldable pub quorum_unreachable : Engine → Bool
  quorum_unreachable e =
      if r.can_commit e.rep
      then false
      else not (lt64 (sub64 e.now e.leader_since) e.failure_timeout)

  abbrev pub wait : ℕ → Engine → Engine
  wait channel e = record e {
    waiters =
        e.waiters
        ++ record {
          lsn = r.last_lsn e.rep;
          deadline = add64 e.now (commit_timeout_ticks e);
          channel = channel;
        }
          ∷ [];
  }

  -- handleProposal after `p.fn()`, with LastLSN before it
  abbrev pub after_write : ℕ → ℕ → StoreWrite → Engine → Engine
  after_write before channel (write_failed x rep) e =
      answer channel (refused x) (record e { rep = rep })
  after_write before channel (wrote rep) e =
      if r.last_lsn rep == before && leb (r.last_lsn rep) (r.committed_lsn rep)
      then answer channel done (record e { rep = rep })
      else wait channel (record e { rep = rep })

  unfoldable pub handle_proposal : Proposal → Engine → Engine
  unfolding quorum_unreachable
  handle_proposal p e =
      if not (r.is_leader e.rep)
      then answer p.channel not_leader e
      else if quorum_unreachable e
      then answer p.channel no_quorum e
      else after_write (r.last_lsn e.rep) p.channel (p.fn e.rep) e

  -- The first part of afterStep.
  abbrev pub track_leader : Engine → Engine
  track_leader e =
      if r.is_leader e.rep && not e.was_leader
      then record e { leader_since = e.now; was_leader = true }
      else if not (r.is_leader e.rep)
      then record e { was_leader = false }
      else e

  -- What afterStep sends to a waiter, if anything.
  unfoldable pub verdict : Engine → CommitWaiter → Option (Outcome E)
  verdict e w =
      if r.is_leader e.rep && leb w.lsn (r.committed_lsn e.rep)
      then some done
      else if not (lt64 e.now w.deadline) || not (r.is_leader e.rep)
      then some commit_timeout
      else none

  abbrev pub keep_or_answer :
      CommitWaiter
      → Option (Outcome E)
      → List CommitWaiter × List (ℕ × Outcome E)
      → List CommitWaiter × List (ℕ × Outcome E)
  keep_or_answer w none (kept, sent) = (w ∷ kept, sent)
  keep_or_answer w (some outcome) (kept, sent) = (kept, (w.channel, outcome) ∷ sent)

  -- The loop of afterStep over the waiters: those that stay, and what is sent.
  unfoldable pub release : Engine → List CommitWaiter → List CommitWaiter × List (ℕ × Outcome E)
  unfolding verdict
  release e [] = ([], [])
  release e (w ∷ ws) = keep_or_answer w (verdict e w) (release e ws)

  abbrev pub current_topology : Engine → Topology
  current_topology e = record { epoch = (r.leader e.rep).1; leader_id = (r.leader e.rep).0 }

  -- publishTopology
  unfoldable pub publish_topology : Engine → Engine
  publish_topology e =
      let topo = current_topology e in
      record e {
        topo = topo;
        watchers =
            if not (topo.epoch == e.topo.epoch) || not (equal topo.leader_id e.topo.leader_id)
            then []
            else e.watchers;
      }

  abbrev pub release_waiters : Engine → Engine
  release_waiters e = record e {
    waiters = (release e e.waiters).0;
    answers = e.answers ++ (release e e.waiters).1;
  }

  unfoldable pub after_step : Engine → Engine
  unfolding release publish_topology
  after_step e = publish_topology (release_waiters (track_leader e))

  abbrev pub fail_each : List CommitWaiter → List (ℕ × Outcome E)
  fail_each [] = []
  fail_each (w ∷ ws) = (w.channel, commit_timeout) ∷ fail_each ws

  -- failAllWaiters(ErrCommitTimeout)
  unfoldable pub fail_all_waiters : Engine → Engine
  fail_all_waiters e = record e { waiters = []; answers = e.answers ++ fail_each e.waiters }

  -- What the loop of Run takes: a frame, a proposal, a tick. It ends with Stop.
  pub data Input : Type 0 where
    frame : (f : r.Frame) → Input
    proposal : (p : Proposal) → Input
    ticked : Input

  abbrev pub with_rep : Engine → Option r.Replicator → Option Engine
  with_rep e none = none
  with_rep e (some rep) = some (after_step (record e { rep = rep }))

  -- One round of Run; `none` is a panic.
  unfoldable pub step : Input → Engine → Option Engine
  unfolding after_step handle_proposal
  step (frame f) e = with_rep e (r.recv e.now f e.rep)
  step (proposal p) e = some (after_step (handle_proposal p e))
  step ticked e =
      let now = add64 e.now 1 in some (after_step (record e { now = now; rep = r.tick now e.rep }))

  abbrev pub and_run : Option Engine → (Engine → Option Engine) → Option Engine
  and_run none k = none
  and_run (some e) k = k e

  -- Run, until Stop
  unfoldable pub run : List Input → Engine → Option Engine
  unfolding step fail_all_waiters
  run [] e = some (fail_all_waiters e)
  run (x ∷ xs) e = and_run (step x e) (run xs)
