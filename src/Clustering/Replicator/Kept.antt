-- ===== src/Clustering/Replicator/Kept.antt =====
-- What the small steps of corndogs/server/clustering/replicator.go keep of its invariant: sending frames,
-- draining the member, asking for a snapshot, and the log.
use corndogs.Prelude.{
  ℕ, ◌<◌, ◌≡◌, refl, ◌∙◌, inl, inr, List, [], ◌∷◌, arith, Bool-cases, Option-cases, ◌&&◌, not, ◌==◌,
}
use corndogs.Bytes.{Bytes}
use corndogs.Filestore.Task.{sub64, lt64}
use corndogs.Filestore.Bolt.{Env}
use corndogs.Filestore.Replication.{MutationBatch}
use corndogs.Filestore.ReplLog.{ReplLog, append}
use corndogs.Filestore.Snapshots.Stamped.{SameTasks, stamp_repl_position_lem}
use corndogs.Cluster.Floats.{Floats}
use corndogs.Cluster.Dict.{dict_get}
use corndogs.Cluster.Node.{Message, Node, Position, is_leader, set_position, take_outbox}
use corndogs.Cluster.Steps.{on_position, step}
use corndogs.Cluster.Steps.Safety.{IsWellFormed, IsHeld, step-Good}
use corndogs.Cluster.Steps.Acked.{AckedWithin, set_position-AckedWithin, set_position_lem}
use corndogs.Clustering.Replicator.{
  Replicator, Payload, msg, send_frame, send_to_each, send_messages, drain_node, request_snapshot,
  ack_leader, serve_snapshot, append_log, has_no_leader, snapshot_gap_ticks, sent_recently,
}
use corndogs.Clustering.Replicator.Sound.{
  IsBased, IsLogged, IsAt, InStep, IsSound, reset-IsBased, reset_last, append_last,
}

module _ ⦃f : Floats⦄ ⦃e : Env⦄ where
  -- The step changes no more than what was sent and when.
  pub record Sends (r r' : Replicator) : Type 0 where
    pub id : r'.id ≡ r.id
    pub node : r'.node ≡ r.node
    pub store : r'.store.repl_lsn ≡ r.store.repl_lsn
    pub log : r'.log ≡ r.log
    pub was : r'.was_leader ≡ r.was_leader
    pub committed : r'.committed_lsn ≡ r.committed_lsn
    pub tasks : SameTasks r.store.db r'.store.db

  pub Sends-refl : (r : Replicator) → Sends r r
  Sends-refl r = record {
    id = refl;
    node = refl;
    store = refl;
    log = refl;
    was = refl;
    committed = refl;
    tasks = λ name c m. refl;
  }

  pub send_frame-Sends : (to : Bytes) (p : Payload) (r : Replicator) → Sends r (send_frame to p r)
  send_frame-Sends to p r = record {
    id = refl;
    node = refl;
    store = refl;
    log = refl;
    was = refl;
    committed = refl;
    tasks = λ name c m. refl;
  }

  pub Sends-trans : (r s t : Replicator) → Sends r s → Sends s t → Sends r t
  Sends-trans r s t a b = record {
    id = b.id ∙ a.id;
    node = b.node ∙ a.node;
    store = b.store ∙ a.store;
    log = b.log ∙ a.log;
    was = b.was ∙ a.was;
    committed = b.committed ∙ a.committed;
    tasks = λ name c m. b.tasks name c m ∙ a.tasks name c m;
  }

  pub Sends-InStep : (r r' : Replicator) → Sends r r' → InStep r → InStep r'
  Sends-InStep r r' s h = rw (s.id, s.node, s.store, s.log) h

  pub Sends-IsSound : (r r' : Replicator) → Sends r r' → IsSound r → IsSound r'
  Sends-IsSound r r' s h = rw (s.id, s.node, s.store, s.log, s.was, s.committed) h

  pub send_to_each-Sends :
      (tos : List Bytes) (p : Payload) (r : Replicator) → Sends r (send_to_each tos p r)
  unfolding send_to_each
  send_to_each-Sends [] p r = Sends-refl r
  send_to_each-Sends (to ∷ tos) p r =
      Sends-trans r _ _ (send_frame-Sends to p r) (send_to_each-Sends tos p _)

  send_messages-Sends : (ms : List Message) (r : Replicator) → Sends r (send_messages ms r)
  unfolding send_messages
  send_messages-Sends [] r = Sends-refl r
  send_messages-Sends (m ∷ ms) r =
      Sends-trans r _ _ (send_frame-Sends m.to (msg m) r) (send_messages-Sends ms _)

  abbrev drained : Replicator → Replicator
  drained r = record r { node = record r.node { outbox = [] } }

  pub drain_node-Sends : (r : Replicator) → Sends (drained r) (drain_node r)
  unfolding drain_node take_outbox
  drain_node-Sends r = send_messages-Sends r.node.outbox (drained r)

  drained-IsHeld : (n : Node) → IsHeld n → IsHeld (record n { outbox = [] })
  drained-IsHeld n h = record { held = h.held; is_in = h.is_in }

  -- A member that is held stays so, or the log is not ahead.
  pub IsLogged-map :
      (n n' : Node) (lsn : ℕ) (l : ReplLog)
      → (IsHeld n → IsHeld n')
      → IsLogged n lsn l
      → IsLogged n' lsn l
  IsLogged-map n n' lsn l f (b, inl h) = (b, inl h)
  IsLogged-map n n' lsn l f (b, inr h) = (b, inr (f h))

  drained-InStep : (r : Replicator) → InStep r → InStep (drained r)
  drained-InStep r (a, l) = (
    record {
      formed = record { collecting = a.formed.collecting; leading = a.formed.leading };
      same_id = a.same_id;
      position = a.position;
      acked = a.acked;
    },
    IsLogged-map r.node _ r.store.repl_lsn r.log (drained-IsHeld r.node) l,
  )

  pub drain_node-InStep : (r : Replicator) → InStep r → InStep (drain_node r)
  drain_node-InStep r h =
      Sends-InStep (drained r) (drain_node r) (drain_node-Sends r) (drained-InStep r h)

  pub drain_node-IsSound : (r : Replicator) → IsSound r → IsSound (drain_node r)
  drain_node-IsSound r (h, c) =
      Sends-IsSound (drained r) (drain_node r) (drain_node-Sends r)
        (drained-InStep r h, record { within = c.within; deposed = c.deposed })

  pub request_snapshot-Sends : (r : Replicator) → Sends r (request_snapshot r)
  unfolding request_snapshot
  request_snapshot-Sends r = elim (Bool-cases (has_no_leader r)) [
    | inl t ↦ rw t (Sends-refl r)
    | inr t ↦
        elim (Bool-cases
          (not (r.snap_asked_at == 0) && lt64 (sub64 r.now r.snap_asked_at) snapshot_gap_ticks)) [
            | inl u ↦ rw (t, u) (Sends-refl r)
            | inr u ↦
                rw (t, u)
                  (record {
                    id = refl;
                    node = refl;
                    store = refl;
                    log = refl;
                    was = refl;
                    committed = refl;
                    tasks = λ name c m. refl;
                  })
          ]
  ]

  pub ack_leader-Sends : (r : Replicator) → Sends r (ack_leader r)
  unfolding ack_leader
  ack_leader-Sends r = elim (Bool-cases (has_no_leader r)) [
    | inl t ↦ rw t (Sends-refl r)
    | inr t ↦ rw t (send_frame-Sends r.node.leader_id _ r)
  ]

  pub serve_snapshot-Sends : (to : Bytes) (r : Replicator) → Sends r (serve_snapshot to r)
  unfolding serve_snapshot
  serve_snapshot-Sends to r = elim (Bool-cases (not (is_leader r.node.role))) [
    | inl t ↦ rw t (Sends-refl r)
    | inr t ↦ elim (Bool-cases (sent_recently r.now (dict_get to r.snap_sent_at))) [
      | inl u ↦ rw (t, u) (Sends-refl r)
      | inr u ↦
          let (db, p, same) =
            stamp_repl_position_lem r.node.applied_lsn r.node.last_epoch r.store in
          rw (t, u, p)
            (record {
              id = refl;
              node = refl;
              store = refl;
              log = refl;
              was = refl;
              committed = refl;
              tasks = same;
            })
    ]
  ]

  -- The log ends at the batch that was appended, or starts after it.
  pub append_log-IsLogged :
      (b : MutationBatch) (r : Replicator) (n : Node)
      → 0 < b.lsn
      → IsBased r.log
      → IsLogged n b.lsn (append_log b r).log
  unfolding append_log
  append_log-IsLogged b r n p h = elim (Option-cases (append b r.log)) [
    | inl q ↦ rw q (reset-IsBased b.lsn b.epoch r.log, inl (reset_last b.lsn b.epoch r.log))
    | inr (l, q) ↦ let (h', k) = append_last b r.log l q p h in rw q (h', inl (omega (arith, k)))
  ]

  -- SetPosition to a position that is not behind what counts as acknowledged.
  pub set_position-IsAt :
      (id : Bytes) (p : Position) (n : Node)
      → IsWellFormed n
      → n.id ≡ id
      → AckedWithin p.lsn n
      → IsAt id p.lsn (set_position p n)
  unfolding step
  set_position-IsAt id p n w i a = record {
    formed = step-Good (on_position p) n w;
    same_id = (set_position_lem p n).0 ∙ i;
    position = (set_position_lem p n).1;
    acked = set_position-AckedWithin p.lsn p n a;
  }
