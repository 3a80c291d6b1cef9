-- ===== src/Clustering/Replicator/Handlers.antt =====
-- The handlers of corndogs/server/clustering/replicator.go: Tick, Recv and what it calls, the writes of a
-- leader through onCaptured, and the queries of the engine.
use corndogs.Prelude.{
  ℕ, Bool, true, false, not, ◌&&◌, ◌||◌, List, [], ◌∷◌, Option, none, some, if◌then◌else◌, ltb, leb,
  ◌==◌, length,
}
use corndogs.Bytes.{Bytes, equal}
use corndogs.Filestore.Task.{add64}
use corndogs.Filestore.Bolt.{Env}
use corndogs.Filestore.Tx.{Exec, Db, Result, ok, err}
use corndogs.Filestore.Replication.{MutationBatch, BoltStore, apply_replicated, write_capturing}
use corndogs.Filestore.ReplLog.{Replay, reset, read_from, first_lsn}
use corndogs.Filestore.Snapshots.{stamp_repl_position, restore_snapshot}
use corndogs.Cluster.Floats.{Floats}
use corndogs.Cluster.Node.{
  Message, Node, is_leader, history_tag, member_index, set_position, mark_caught_up,
}
use corndogs.Cluster.Election
use corndogs.Cluster.Recv
use corndogs.Cluster.Recv.{live_followers}
use corndogs.Clustering.Replicator.{
  Replicator, Frame, Payload, msg, batch, catchup_req, snapshot_req, snapshot, control, send_frame,
  append_log, batch_position, on_captured, drain_node, refresh_committed, has_no_leader, is_ack,
  request_snapshot, ack_leader, serve_snapshot, admit_follower,
}

module _ ⦃f : Floats⦄ ⦃e : Env⦄ where
  unfoldable pub tick : ℕ → Replicator → Replicator
  unfolding drain_node refresh_committed
  tick now r =
      refresh_committed (drain_node (record r { now = now; node = Election.tick now r.node }))

  -- `leader == "" || from != leader`
  abbrev pub is_foreign : Bytes → Replicator → Bool
  is_foreign from r = equal r.node.leader_id [] || not (equal from r.node.leader_id)

  abbrev pub after_apply : MutationBatch → Replicator → Result (Unit {0}) × BoltStore → Replicator
  after_apply b r (err x, s) = record r { store = s }
  after_apply b r (ok u, s) =
      let r1 = append_log b (record r { store = s }) in
      ack_leader (record r1 { node = set_position (batch_position b) r1.node })

  unfoldable pub apply_incoming : Bytes → MutationBatch → Replicator → Replicator
  unfolding request_snapshot append_log ack_leader
  apply_incoming from b r =
      if is_foreign from r
      then r
      else if r.need_snapshot
      then request_snapshot r
      else if leb b.lsn r.store.repl_lsn
      then r
      else if b.lsn == add64 r.store.repl_lsn 1
      then after_apply b r (apply_replicated b r.store)
      else send_frame from (catchup_req r.store.repl_lsn r.node.last_epoch) r

  unfoldable pub maybe_catch_up : Replicator → Replicator
  unfolding request_snapshot
  maybe_catch_up r =
      if is_leader r.node.role || has_no_leader r
      then r
      else if r.need_snapshot
      then request_snapshot r
      else if ltb r.store.repl_lsn r.node.leader_head_lsn
      then send_frame r.node.leader_id (catchup_req r.store.repl_lsn r.node.last_epoch) r
      else r

  unfoldable pub send_batches : Bytes → List MutationBatch → Replicator → Replicator
  send_batches to [] r = r
  send_batches to (b ∷ bs) r = send_batches to bs (send_frame to (batch b) r)

  -- What serveCatchup does with the result of ReadFrom; the reader always returns one.
  abbrev pub replayed : Bytes → Replicator → Option Replay → Replicator
  replayed to r none = r
  replayed to r (some p) =
      let r1 = send_batches to p.given r in
      elim p.failure [ none ↦ r1 | some x ↦ serve_snapshot to r1 ]

  abbrev pub serve_admitted : Bytes → ℕ → Bool × Replicator → Replicator
  serve_admitted to after (false, r) = r
  serve_admitted to after (true, r) =
      if leb r.store.repl_lsn after
      then r
      else if ltb (add64 after 1) (first_lsn r.log)
      then serve_snapshot to r
      else replayed to r (read_from after r.log)

  unfoldable pub serve_catchup : Bytes → ℕ → ℕ → Replicator → Replicator
  unfolding admit_follower send_batches serve_snapshot first_lsn
  serve_catchup from after after_epoch r =
      if not (is_leader r.node.role)
      then r
      else serve_admitted from after
          (admit_follower from (record { last_epoch = after_epoch; lsn = after }) r)

  -- The end of restore, after the restored position is recorded.
  abbrev pub rebase : ℕ → ℕ → Replicator → Result (Unit {0}) × BoltStore → Replicator
  rebase lsn epoch r (err x, s) = record r { store = s }
  rebase lsn epoch r (ok u, s) = ack_leader (record r {
    store = s;
    log = reset (add64 lsn 1) epoch r.log;
    need_snapshot = false;
    node = mark_caught_up (set_position (record { last_epoch = epoch; lsn = lsn }) r.node);
  })

  abbrev pub after_restore : ℕ → ℕ → Replicator → Result (Unit {0}) × BoltStore → Replicator
  after_restore lsn epoch r (err x, s) = record r { store = s }
  after_restore lsn epoch r (ok u, s) = rebase lsn epoch r (stamp_repl_position lsn epoch s)

  unfoldable pub restore : Bytes → Option Db → ℕ → ℕ → Replicator → Replicator
  unfolding restore_snapshot ack_leader
  restore from data_in lsn epoch r =
      if is_foreign from r
      then r
      else after_restore lsn epoch r (restore_snapshot data_in lsn r.store)

  abbrev pub handled : Replicator → Option Replicator
  handled r = some (maybe_catch_up (refresh_committed (drain_node r)))

  abbrev pub with_node : Replicator → Option Node → Option Replicator
  with_node r none = none
  with_node r (some n) = handled (record r { node = n })

  abbrev pub recv_message : Message → Replicator → Option Replicator
  recv_message m r = with_node r (Recv.recv r.now m r.node)

  abbrev pub if_admitted : Message → Bool × Replicator → Option Replicator
  if_admitted m (false, r) = some r
  if_admitted m (true, r) = recv_message m r

  -- `f.Msg.Type == MsgHeartbeatAck && r.node.Role() == RoleLeader && f.Msg.Epoch == r.node.Epoch()`
  abbrev pub counts_ack : Message → Replicator → Bool
  counts_ack m r = is_ack m.kind && (is_leader r.node.role && m.epoch == r.node.epoch)

  unfoldable pub recv_msg : Bytes → Message → Replicator → Option Replicator
  unfolding admit_follower drain_node refresh_committed maybe_catch_up
  recv_msg from m r =
      if counts_ack m r
      then if_admitted m
          (admit_follower from (record { last_epoch = m.last_epoch; lsn = m.ack_lsn }) r)
      else recv_message m r

  abbrev pub dispatch : Bytes → Payload → Replicator → Option Replicator
  dispatch from (msg m) r = recv_msg from m r
  dispatch from (batch b) r = some (apply_incoming from b r)
  dispatch from (catchup_req after after_epoch) r = some (serve_catchup from after after_epoch r)
  dispatch from snapshot_req r = some (serve_snapshot from r)
  dispatch from (snapshot data_in lsn epoch) r = some (restore from data_in lsn epoch r)
  dispatch from control r = some r

  -- Recv; `none` is a panic of the node
  unfoldable pub recv : ℕ → Frame → Replicator → Option Replicator
  unfolding recv_msg apply_incoming serve_catchup serve_snapshot restore
  recv now fr r = dispatch fr.from fr.payload (record r { now = now })

  -- The calls of the sink that a write makes.
  unfoldable pub deliver : List MutationBatch → Replicator → Replicator
  unfolding on_captured
  deliver [] r = r
  deliver (b ∷ bs) r = deliver bs (on_captured b r)

  abbrev pub delivered {ℓ} :
      {A : Type ℓ} → Replicator → Result A × BoltStore → Result A × Replicator
  delivered r (x, s) = (x, deliver s.published (record r { store = record s { published = [] } }))

  -- A write of the store on a leader: what its sink receives goes to onCaptured. The tag is the function
  -- that New gives to SetReplicationTag.
  unfoldable pub write {ℓ} : {A : Type ℓ} → Exec A → Replicator → Result A × Replicator
  unfolding write_capturing deliver history_tag
  write fn r = delivered r (
      write_capturing fn (history_tag r.node.epoch (member_index r.node))
        (record r.store { published = [] }))

  unfoldable pub can_commit : Replicator → Bool
  unfolding live_followers
  can_commit r =
      if leb r.ack_count 0 then true else leb r.ack_count (length (live_followers r.node))

  unfoldable pub committed : ℕ → Replicator → Bool
  committed lsn r = leb lsn r.committed_lsn

  abbrev pub leads : Replicator → Bool
  leads r = is_leader r.node.role

  unfoldable pub last_lsn : Replicator → ℕ
  last_lsn r = r.store.repl_lsn

  unfoldable pub request_rollback : Replicator → Replicator
  unfolding request_snapshot
  request_rollback r =
      if has_no_leader r
      then r
      else request_snapshot (record r { need_snapshot = true; snap_asked_at = 0 })
