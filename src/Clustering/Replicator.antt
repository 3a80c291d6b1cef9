-- ===== src/Clustering/Replicator.antt =====
-- corndogs/server/clustering/replicator.go: one node's election and replication, driven by Tick and Recv.
-- The frames that it has sent are kept in order. A snapshot is the data that bbolt finds in its bytes.
pub mod Handlers
pub mod Sound
pub mod Kept
pub mod Incoming
pub mod Restored
pub mod Runs
pub mod Safety
pub mod Snapshot
pub mod Untouched
use corndogs.Prelude.{
  ℕ, ◌≡◌, Bool, true, false, not, ◌&&◌, ◌||◌, List, [], ◌∷◌, ◌++◌, Option, none, some,
  if◌then◌else◌, ltb, leb, ◌==◌, length,
}
use corndogs.Bytes.{Bytes, equal}
use corndogs.Filestore.Task.{add64, sub64, lt64}
use corndogs.Filestore.Bolt.{Env}
use corndogs.Filestore.Tx.{Exec, Db, Result, ok, err}
use corndogs.Filestore.Replication.{MutationBatch, BoltStore, apply_replicated, write_capturing}
use corndogs.Filestore.ReplLog.{
  ReplLog, Replay, append, reset, read_from, epoch_at, log_epoch, first_lsn,
}
use corndogs.Filestore.Snapshots.{
  StoredPosition, no_stored, stored_at, bad_position, read_repl_position, stamp_repl_position,
  has_task_data, snapshot_to, restore_snapshot,
}
use corndogs.Cluster.Floats.{Floats}
use corndogs.Cluster.Dict.{Dict, dict_get, dict_put}
use corndogs.Cluster.Node.{
  MsgType, heartbeat_ack, Message, Node, Position, older, position, is_leader, history_tag,
  member_index, set_position, hold_joining_now, mark_caught_up, step_down, take_outbox,
}
use corndogs.Cluster.Election.{same_position}
use corndogs.Cluster.Recv.{live_followers, durable_lsn}

module _ ⦃f : Floats⦄ ⦃e : Env⦄ where
  -- The frames of the data plane; `control` is any kind that only the transport handles.
  pub data Payload : Type 0 where
    msg : (m : Message) → Payload
    batch : (b : MutationBatch) → Payload
    catchup_req : (after_lsn : ℕ) → (after_epoch : ℕ) → Payload
    snapshot_req : Payload
    snapshot : (data_in : Option Db) → (lsn : ℕ) → (epoch : ℕ) → Payload
    control : Payload

  pub record Frame : Type 0 where
    pub from : Bytes
    pub to : Bytes
    pub payload : Payload

  -- A negative `ack_count` is 0 here.
  pub record Replicator : Type 0 where
    pub id : Bytes
    pub node : Node
    pub store : BoltStore
    pub log : ReplLog
    pub sent : List Frame
    pub ack_count : ℕ
    pub committed_lsn : ℕ
    pub was_leader : Bool
    pub need_snapshot : Bool
    pub now : ℕ
    pub snap_asked_at : ℕ
    pub snap_sent_at : Dict ℕ

abbrev pub snapshot_gap_ticks : ℕ
snapshot_gap_ticks = 20

abbrev pub is_ack : MsgType → Bool
is_ack heartbeat_ack = true
is_ack _ = false

module _ ⦃f : Floats⦄ ⦃e : Env⦄ where
  -- r.tr.Send
  abbrev pub send_frame : Bytes → Payload → Replicator → Replicator
  send_frame to p r = record r {
    sent = r.sent ++ record { from = r.id; to = to; payload = p } ∷ [];
  }

  abbrev pub or_restart : MutationBatch → ReplLog → Option ReplLog → ReplLog
  or_restart b l none = reset (add64 b.lsn 1) b.epoch l
  or_restart b l (some l') = l'

  unfoldable pub append_log : MutationBatch → Replicator → Replicator
  append_log b r = record r { log = or_restart b r.log (append b r.log) }

  abbrev pub batch_position : MutationBatch → Position
  batch_position b = record { last_epoch = b.epoch; lsn = b.lsn }

  unfoldable pub send_to_each : List Bytes → Payload → Replicator → Replicator
  send_to_each [] p r = r
  send_to_each (to ∷ tos) p r = send_to_each tos p (send_frame to p r)

  unfoldable pub on_captured : MutationBatch → Replicator → Replicator
  unfolding append_log send_to_each
  on_captured b r =
      let r1 = append_log b r in
      let r2 : Replicator = record r1 { node = set_position (batch_position b) r1.node } in
      send_to_each (live_followers r2.node) (batch b) r2

  abbrev pub newer_position : Position → StoredPosition → Option Position
  newer_position log_pos no_stored = some log_pos
  newer_position log_pos bad_position = none
  newer_position log_pos (stored_at lsn ep) =
      let stored : Position = record { last_epoch = ep; lsn = lsn } in
      some (if older log_pos stored then stored else log_pos)

  abbrev pub log_position : ReplLog → Position
  log_position l = record { last_epoch = log_epoch l; lsn = l.last_lsn }

  abbrev pub rebased : BoltStore → ReplLog → Option Position → Option (Position × ReplLog)
  rebased s l none = none
  rebased s l (some pos) =
      if pos.lsn == 0 && has_task_data s.db
      then none
      else some (
        pos,
        if same_position pos (log_position l) then l else reset (add64 pos.lsn 1) pos.last_epoch l,
      )

  -- recoverPosition, with the log after it; `none` is a position that is not known
  unfoldable pub recover_position : BoltStore → ReplLog → Option (Position × ReplLog)
  recover_position s l = rebased s l (newer_position (log_position l) (read_repl_position s.db))

  abbrev pub made :
      Bytes → Node → BoltStore → ℕ → Option (Position × ReplLog) → ReplLog → Replicator
  made id node s ack_count none l = record {
    id = id;
    node = hold_joining_now (set_position (record { last_epoch = 0; lsn = 0 }) node);
    store = record s { repl_lsn = 0; published = [] };
    log = l;
    sent = [];
    ack_count = ack_count;
    committed_lsn = 0;
    was_leader = false;
    need_snapshot = true;
    now = 0;
    snap_asked_at = 0;
    snap_sent_at = [];
  }
  made id node s ack_count (some (pos, l')) l = record {
    id = id;
    node = set_position pos node;
    store = record s { repl_lsn = pos.lsn; published = [] };
    log = l';
    sent = [];
    ack_count = ack_count;
    committed_lsn = 0;
    was_leader = false;
    need_snapshot = false;
    now = 0;
    snap_asked_at = 0;
    snap_sent_at = [];
  }

  -- New
  unfoldable pub new_replicator : Bytes → Node → BoltStore → ReplLog → ℕ → Replicator
  unfolding recover_position
  new_replicator id node s l ack_count = made id node s ack_count (recover_position s l) l

  unfoldable pub send_messages : List Message → Replicator → Replicator
  send_messages [] r = r
  send_messages (m ∷ ms) r = send_messages ms (send_frame m.to (msg m) r)

  unfoldable pub drain_node : Replicator → Replicator
  unfolding take_outbox send_messages
  drain_node r = let (ms, n) = take_outbox r.node in send_messages ms (record r { node = n })

  -- The freshly elected leader of refreshCommitted.
  abbrev pub as_leader : Replicator → Replicator
  as_leader r =
      if r.was_leader
      then r
      else record r { committed_lsn = r.store.repl_lsn; was_leader = true; snap_sent_at = [] }

  abbrev pub raise_committed : ℕ → Replicator → Replicator
  raise_committed d r = if ltb r.committed_lsn d then record r { committed_lsn = d } else r

  unfoldable pub refresh_committed : Replicator → Replicator
  refresh_committed r =
      if is_leader r.node.role
      then raise_committed (durable_lsn r.ack_count r.node) (as_leader r)
      else record r { was_leader = false }

  -- `leader == "" || leader == r.id` of Leader's first result
  abbrev pub has_no_leader : Replicator → Bool
  has_no_leader r = equal r.node.leader_id [] || equal r.node.leader_id r.id

  unfoldable pub request_snapshot : Replicator → Replicator
  request_snapshot r =
      if has_no_leader r
      then r
      else if not (r.snap_asked_at == 0) && lt64 (sub64 r.now r.snap_asked_at) snapshot_gap_ticks
      then r
      else send_frame r.node.leader_id snapshot_req (record r { snap_asked_at = r.now })

  unfoldable pub ack_leader : Replicator → Replicator
  ack_leader r =
      if has_no_leader r
      then r
      else send_frame r.node.leader_id
          (msg (record {
            kind = heartbeat_ack;
            from = r.id;
            to = r.node.leader_id;
            epoch = r.node.epoch;
            lsn = 0;
            ack_lsn = r.node.applied_lsn;
            bid = f.zero_float;
            last_epoch = r.node.last_epoch;
          }))
          r

  abbrev pub sent_recently : ℕ → Option ℕ → Bool
  sent_recently now none = false
  sent_recently now (some last) = lt64 (sub64 now last) snapshot_gap_ticks

  abbrev pub send_snapshot : Bytes → Replicator → Result (Unit {0}) × BoltStore → Replicator
  send_snapshot to r (err x, s) = record r { store = s }
  send_snapshot to r (ok u, s) =
      let (data_in, lsn) = snapshot_to s in
      send_frame to (snapshot (some data_in) lsn r.node.last_epoch) (record r { store = s })

  unfoldable pub serve_snapshot : Bytes → Replicator → Replicator
  unfolding dict_get dict_put snapshot_to
  serve_snapshot to r =
      if not (is_leader r.node.role)
      then r
      else if sent_recently r.now (dict_get to r.snap_sent_at)
      then r
      else send_snapshot to (record r { snap_sent_at = dict_put to r.now r.snap_sent_at })
          (stamp_repl_position r.node.applied_lsn r.node.last_epoch r.store)

  abbrev pub matches : ℕ → Option ℕ → Bool
  matches ep none = false
  matches ep (some x) = x == ep

  unfoldable pub admit_follower : Bytes → Position → Replicator → Bool × Replicator
  unfolding serve_snapshot drain_node epoch_at
  admit_follower from pos r =
      if older (position r.node) pos
      then (false, drain_node (record r { node = step_down r.node }))
      else if matches pos.last_epoch (epoch_at r.log pos.lsn)
      then (true, r)
      else (false, serve_snapshot from r)
