-- ===== src/Clustering/Replicator/Runs.antt =====
-- Whatever happens to a replicator of corndogs/server/clustering/replicator.go: ticks, frames of its peers,
-- writes and rollbacks, in any order.
use corndogs.Cluster.Recv.{handle}
use corndogs.Prelude.{
  ℕ, ◌≤◌, ◌≡◌, refl, sym, subst, ◌∙◌, inl, inr, Bool, true, false, List, [], ◌∷◌, Option, none,
  some, arith, Option-cases, ◌&&◌, ◌||◌, not, ◌==◌, leb, ltb, if_cases,
}
use corndogs.Bytes.{Bytes, equal}
use corndogs.Filestore.Task.{add64}
use corndogs.Filestore.Bolt.{Env}
use corndogs.Filestore.Replication.{MutationBatch}
use corndogs.Filestore.ReplLog.{Replay, read_from, first_lsn}
use corndogs.Cluster.Floats.{Floats}
use corndogs.Cluster.Node.{
  Role, joining, follower, candidate, leader, is_joining, MsgType, heartbeat, heartbeat_ack,
  bid_msg, Message, Node, Position, is_leader,
}
use corndogs.Cluster.Election
use corndogs.Cluster.Recv
use corndogs.Cluster.Steps.{on_tick, on_message, step}
use corndogs.Cluster.Steps.Safety.{IsWellFormed, IsHeld, Good, Held, step-Good, step-Held}
use corndogs.Cluster.Steps.Acked.{IsTaken, Kept, Keeps, tick-Keeps, recv-Kept}
use corndogs.Clustering.Replicator.{
  Replicator, Frame, Payload, msg, batch, catchup_req, snapshot_req, snapshot, control, drain_node,
  refresh_committed, admit_follower, has_no_leader, is_ack,
}
use corndogs.Clustering.Replicator.Handlers.{
  with_node, tick, recv, recv_msg, recv_message, if_admitted, counts_ack, maybe_catch_up,
  send_batches, serve_catchup, serve_admitted, replayed, dispatch, request_rollback,
}
use corndogs.Clustering.Replicator.Sound.{InStep, IsSound, refresh_committed-IsSound}
use corndogs.Clustering.Replicator.Kept.{
  Sends, Sends-refl, Sends-trans, Sends-IsSound, send_frame-Sends, request_snapshot-Sends,
  serve_snapshot-Sends, drain_node-Sends, drain_node-InStep, IsLogged-map,
}
use corndogs.Clustering.Replicator.Incoming.{apply_incoming-IsSound, Admits, admit_follower-Admits}
use corndogs.Clustering.Replicator.Restored.{Fits, restore-IsSound}

module _ ⦃f : Floats⦄ ⦃e : Env⦄ where
  pub maybe_catch_up-Sends : (r : Replicator) → Sends r (maybe_catch_up r)
  unfolding maybe_catch_up
  maybe_catch_up-Sends r =
      if_cases (Sends r) (is_leader r.node.role || has_no_leader r) _ _ (λ t. Sends-refl r)
        (λ t.
          if_cases (Sends r) r.need_snapshot _ _ (λ u. request_snapshot-Sends r)
            (λ u.
              if_cases (Sends r) (ltb r.store.repl_lsn r.node.leader_head_lsn) _ _
                (λ v. send_frame-Sends _ (catchup_req r.store.repl_lsn r.node.last_epoch) r)
                (λ v. Sends-refl r)))

  send_batches-Sends :
      (to : Bytes) (bs : List MutationBatch) (r : Replicator) → Sends r (send_batches to bs r)
  unfolding send_batches
  send_batches-Sends to [] r = Sends-refl r
  send_batches-Sends to (b ∷ bs) r =
      Sends-trans r _ _ (send_frame-Sends to (batch b) r) (send_batches-Sends to bs _)

  pub replayed-Sends : (to : Bytes) (r : Replicator) (o : Option Replay) → Sends r (replayed to r o)
  replayed-Sends to r none = Sends-refl r
  replayed-Sends to r (some p) = elim (Option-cases p.failure) [
    | inl q ↦ rw q (send_batches-Sends to p.given r)
    | inr (x, q) ↦ rw q (
        Sends-trans r _ _ (send_batches-Sends to p.given r)
          (serve_snapshot-Sends to (send_batches to p.given r)))
  ]

  serve_admitted-IsSound :
      (to : Bytes) (after lsn : ℕ) (r : Replicator) (x : Bool × Replicator)
      → Admits lsn r x
      → IsSound r
      → IsSound (serve_admitted to after x)
  serve_admitted-IsSound to after lsn r (false, r') a h = a
  serve_admitted-IsSound to after lsn r (true, r') (q, k) h =
      Sends-IsSound r' _
        (if_cases (Sends r') (leb r'.store.repl_lsn after) _ _ (λ t. Sends-refl r')
          (λ t.
            if_cases (Sends r') (ltb (add64 after 1) (first_lsn r'.log)) _ _
              (λ u. serve_snapshot-Sends to r')
              (λ u. replayed-Sends to r' (read_from after r'.log))))
        (subst IsSound (sym q) h)

  serve_catchup-IsSound :
      (from : Bytes) (after after_epoch : ℕ) (r : Replicator)
      → IsSound r
      → IsSound (serve_catchup from after after_epoch r)
  unfolding serve_catchup
  serve_catchup-IsSound from after after_epoch r h =
      let p : Position = record { last_epoch = after_epoch; lsn = after } in
      if_cases IsSound (not (is_leader r.node.role)) _ _ (λ t. h)
        (λ t.
          serve_admitted-IsSound from after after r (admit_follower from p r)
            (admit_follower-Admits from p r h) h)

  -- The member has moved to `n`, and refreshCommitted follows.
  settled-IsSound :
      (r : Replicator) (n : Node)
      → IsSound r
      → Keeps r.store.repl_lsn r.node n
      → IsWellFormed n
      → (IsHeld r.node → IsHeld n)
      → IsSound (refresh_committed (drain_node (record r { node = n })))
  settled-IsSound r n ((a, l), c) k w held =
      let r1 : Replicator = record r { node = n } in
      let i : InStep r1 = (
        record {
          formed = w;
          same_id = k.same_id ∙ a.same_id;
          position = k.same_lsn ∙ a.position;
          acked = k.within;
        },
        IsLogged-map r.node n r.store.repl_lsn r.log held l,
      ) in
      let s = drain_node-Sends r1 in
      refresh_committed-IsSound (drain_node r1) (drain_node-InStep r1 i)
        (rw (s.was, s.committed, s.store) c.within)

  pub tick-IsSound : (now : ℕ) (r : Replicator) → IsSound r → IsSound (tick now r)
  unfolding tick step
  tick-IsSound now r h =
      settled-IsSound (record r { now = now }) (Election.tick now r.node) h
        (tick-Keeps r.store.repl_lsn now r.node h.0.0.acked)
        (step-Good (on_tick now) r.node h.0.0.formed) (step-Held (on_tick now) r.node refl)

  -- The member takes no acknowledgement beyond the leader's data.
  abbrev Takes : Message → Replicator → Type 0
  Takes m r = IsTaken r.store.repl_lsn m.kind m r.node.role r.node.epoch

  abbrev pub Returns : Option Replicator → Type 0
  Returns o = (r : Replicator) × (o ≡ some r) × IsSound r

  received-Returns :
      (r : Replicator) (o : Option Node)
      → Kept r.store.repl_lsn r.node o
      → Good o
      → (IsHeld r.node → Held o)
      → IsSound r
      → Returns (with_node r o)
  received-Returns r none k g held h = elim g [ ]
  received-Returns r (some n) k g held h =
      (_, refl, Sends-IsSound _ _ (maybe_catch_up-Sends _) (settled-IsSound r n h k g held))

  recv_message-Returns :
      (m : Message) (r : Replicator) → Takes m r → IsSound r → Returns (recv_message m r)
  unfolding step
  recv_message-Returns m r t h =
      received-Returns r (Recv.recv r.now m r.node)
        (recv-Kept r.store.repl_lsn r.now m r.node t h.0.0.acked)
        (step-Good (on_message r.now m) r.node h.0.0.formed)
        (step-Held (on_message r.now m) r.node refl) h

  if_admitted-Returns :
      (m : Message) (r : Replicator) (x : Bool × Replicator)
      → Admits m.ack_lsn r x
      → (m.ack_lsn ≤ r.log.last_lsn → Takes m r)
      → IsSound r
      → Returns (if_admitted m x)
  if_admitted-Returns m r (false, r') a t h = (r', refl, a)
  if_admitted-Returns m r (true, r') (q, k) t h =
      subst (λ s. Returns (recv_message m s)) (sym q) (recv_message-Returns m r (t k) h)

  -- Only an acknowledgement to the leader in its epoch has to be admitted.
  not_counted-Takes :
      (k : MsgType) (m : Message) (r : Replicator)
      → (is_ack k && (is_leader r.node.role && m.epoch == r.node.epoch)) ≡ false
      → IsTaken r.store.repl_lsn k m r.node.role r.node.epoch
  not_counted-Takes heartbeat m r h = tt
  not_counted-Takes bid_msg m r h = tt
  not_counted-Takes heartbeat_ack m r h = λ l q. absurd (ground arith)

  joining_not_leader : (x : Role) → is_joining x ≡ true → is_leader x ≡ true → ⊥
  joining_not_leader joining h k = cc
  joining_not_leader follower h k = cc
  joining_not_leader candidate h k = cc
  joining_not_leader leader h k = cc

  admitted-Takes :
      (k : MsgType) (m : Message) (r : Replicator)
      → IsSound r
      → m.ack_lsn ≤ r.log.last_lsn
      → IsTaken r.store.repl_lsn k m r.node.role r.node.epoch
  admitted-Takes heartbeat m r h l = tt
  admitted-Takes bid_msg m r h l = tt
  admitted-Takes heartbeat_ack m r ((a, (b, inl g)), c) l = λ t q. omega (arith, g, l)
  admitted-Takes heartbeat_ack m r ((a, (b, inr g)), c) l =
      λ t q. absurd (joining_not_leader r.node.role g.is_in t)

  recv_msg-Returns :
      (from : Bytes) (m : Message) (r : Replicator) → IsSound r → Returns (recv_msg from m r)
  unfolding recv_msg
  recv_msg-Returns from m r h =
      let p : Position = record { last_epoch = m.last_epoch; lsn = m.ack_lsn } in
      if_cases Returns (counts_ack m r) _ _
        (λ t.
          if_admitted-Returns m r (admit_follower from p r) (admit_follower-Admits from p r h)
            (admitted-Takes m.kind m r h) h)
        (λ t. recv_message-Returns m r (not_counted-Takes m.kind m r t) h)

  -- What a frame has to be: it comes from another member, and a snapshot has count keys that fit.
  abbrev pub FitsPayload : Payload → Type 0
  FitsPayload (snapshot data_in lsn epoch) = Fits data_in
  FitsPayload p = Unit {0}

  pub record IsPeers (r : Replicator) (fr : Frame) : Type 0 where
    pub other : equal fr.from r.id ≡ false
    pub fits : FitsPayload fr.payload

  handled-Returns :
      (from : Bytes) (p : Payload) (r : Replicator)
      → equal from r.id ≡ false
      → FitsPayload p
      → IsSound r
      → Returns (dispatch from p r)
  handled-Returns from (msg m) r o fit h = recv_msg-Returns from m r h
  handled-Returns from (batch b) r o fit h = (_, refl, apply_incoming-IsSound from b r h)
  handled-Returns from (catchup_req after ep) r o fit h =
      (_, refl, serve_catchup-IsSound from after ep r h)
  handled-Returns from snapshot_req r o fit h =
      (_, refl, Sends-IsSound r _ (serve_snapshot-Sends from r) h)
  handled-Returns from (snapshot data_in lsn ep) r o fit h =
      (_, refl, restore-IsSound from data_in lsn ep r o fit h)
  handled-Returns from control r o fit h = (r, refl, h)

  pub recv-Returns :
      (now : ℕ) (fr : Frame) (r : Replicator) → IsPeers r fr → IsSound r → Returns (recv now fr r)
  unfolding recv
  recv-Returns now fr r p h =
      handled-Returns fr.from fr.payload (record r { now = now }) p.other p.fits h

  pub request_rollback-Sends : (r : Replicator) → Sends r (request_rollback r)
  unfolding request_rollback
  request_rollback-Sends r =
      let r1 : Replicator = record r { need_snapshot = true; snap_asked_at = 0 } in
      if_cases (Sends r) (has_no_leader r) _ _ (λ t. Sends-refl r)
        (λ t.
          let s = request_snapshot-Sends r1 in
          record {
            id = s.id;
            node = s.node;
            store = s.store;
            log = s.log;
            was = s.was;
            committed = s.committed;
            tasks = s.tasks;
          })
