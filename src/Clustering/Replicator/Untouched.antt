-- ===== src/Clustering/Replicator/Untouched.antt =====
-- What cannot change the tasks of a replicator of corndogs/server/clustering/replicator.go.
use corndogs.Prelude.{
  ℕ, ◌≡◌, refl, subst, ◌∙◌, Bool, true, false, Option, none, some, not, ◌&&◌, leb, ltb, if_cases,
}
use corndogs.Bytes.{Bytes}
use corndogs.Filestore.Task.{add64}
use corndogs.Filestore.Bolt.{Env}
use corndogs.Filestore.ReplLog.{first_lsn, read_from, epoch_at}
use corndogs.Filestore.Snapshots.Stamped.{SameTasks}
use corndogs.Cluster.Floats.{Floats}
use corndogs.Cluster.Node.{Message, Node, Position, is_leader, older, position, step_down}
use corndogs.Cluster.Election
use corndogs.Cluster.Recv
use corndogs.Cluster.Recv.{durable_lsn}
use corndogs.Clustering.Replicator.{
  Replicator, Frame, Payload, msg, batch, catchup_req, snapshot_req, snapshot, control,
  admit_follower, drain_node, refresh_committed, as_leader, matches,
}
use corndogs.Clustering.Replicator.Handlers.{
  tick, recv, recv_msg, recv_message, with_node, if_admitted, counts_ack, dispatch, is_foreign,
  apply_incoming, restore, serve_catchup, serve_admitted,
}
use corndogs.Clustering.Replicator.Kept.{Sends, Sends-refl, drain_node-Sends, serve_snapshot-Sends}
use corndogs.Clustering.Replicator.Runs.{maybe_catch_up-Sends, replayed-Sends}

module _ ⦃f : Floats⦄ ⦃e : Env⦄ where
  -- The tasks and the sequence number of the store are the same, and so is the id.
  pub record Untouched (r r' : Replicator) : Type 0 where
    pub tasks : SameTasks r.store.db r'.store.db
    pub lsn : r'.store.repl_lsn ≡ r.store.repl_lsn
    pub id : r'.id ≡ r.id

  Untouched-refl : (r : Replicator) → Untouched r r
  Untouched-refl r = record { tasks = λ name c m. refl; lsn = refl; id = refl }

  Untouched-trans : (r s t : Replicator) → Untouched r s → Untouched s t → Untouched r t
  Untouched-trans r s t a b = record {
    tasks = λ name c m. b.tasks name c m ∙ a.tasks name c m;
    lsn = b.lsn ∙ a.lsn;
    id = b.id ∙ a.id;
  }

  Sends-Untouched : (r r' : Replicator) → Sends r r' → Untouched r r'
  Sends-Untouched r r' s = record { tasks = s.tasks; lsn = s.store; id = s.id }

  drain_node-Untouched : (r : Replicator) → Untouched r (drain_node r)
  drain_node-Untouched r =
      let s = drain_node-Sends r in record { tasks = s.tasks; lsn = s.store; id = s.id }

  refresh_committed-Untouched : (r : Replicator) → Untouched r (refresh_committed r)
  unfolding refresh_committed
  refresh_committed-Untouched r =
      if_cases (Untouched r) (is_leader r.node.role) _ _
        (λ t.
          let here : Untouched r (as_leader r) =
            if_cases (Untouched r) r.was_leader _ _ (λ w. Untouched-refl r)
              (λ w. record { tasks = λ name c m. refl; lsn = refl; id = refl }) in
          if_cases (Untouched r) (ltb (as_leader r).committed_lsn (durable_lsn r.ack_count r.node))
            _ _ (λ u. record { tasks = here.tasks; lsn = here.lsn; id = here.id }) (λ u. here))
        (λ t. record { tasks = λ name c m. refl; lsn = refl; id = refl })

  pub tick-Untouched : (now : ℕ) (r : Replicator) → Untouched r (tick now r)
  unfolding tick
  tick-Untouched now r =
      let r1 : Replicator = record r { now = now; node = Election.tick now r.node } in
      let a = drain_node-Untouched r1 in
      Untouched-trans r (drain_node r1) (tick now r)
        (record { tasks = a.tasks; lsn = a.lsn; id = a.id })
        (refresh_committed-Untouched (drain_node r1))

  admit_follower-Untouched :
      (from : Bytes) (pos : Position) (r : Replicator) → Untouched r (admit_follower from pos r).1
  unfolding admit_follower
  admit_follower-Untouched from pos r =
      if_cases (λ (x : Bool × Replicator). Untouched r x.1) (older (position r.node) pos) _ _
        (λ t.
          let s = drain_node-Untouched (record r { node = step_down r.node }) in
          record { tasks = s.tasks; lsn = s.lsn; id = s.id })
        (λ t.
          if_cases (λ (x : Bool × Replicator). Untouched r x.1)
            (matches pos.last_epoch (epoch_at r.log pos.lsn)) _ _ (λ u. Untouched-refl r)
            (λ u. Sends-Untouched r _ (serve_snapshot-Sends from r)))

  abbrev Leaves : Replicator → Option Replicator → Type 0
  Leaves r none = Unit {0}
  Leaves r (some r') = Untouched r r'

  with_node-Leaves : (r : Replicator) (o : Option Node) → Leaves r (with_node r o)
  with_node-Leaves r none = tt
  with_node-Leaves r (some n) =
      let r1 : Replicator = record r { node = n } in
      let a = drain_node-Untouched r1 in
      let b = refresh_committed-Untouched (drain_node r1) in
      let c = maybe_catch_up-Sends (refresh_committed (drain_node r1)) in
      Untouched-trans r (drain_node r1) _ (record { tasks = a.tasks; lsn = a.lsn; id = a.id })
        (Untouched-trans _ _ _ b (Sends-Untouched _ _ c))

  after_other : (r s : Replicator) (o : Option Replicator) → Untouched r s → Leaves s o → Leaves r o
  after_other r s none u l = tt
  after_other r s (some t) u l = Untouched-trans r s t u l

  if_admitted-Leaves :
      (m : Message) (r : Replicator) (x : Bool × Replicator)
      → Untouched r x.1
      → Leaves r (if_admitted m x)
  if_admitted-Leaves m r (false, r') u = u
  if_admitted-Leaves m r (true, r') u =
      after_other r r' (recv_message m r') u (with_node-Leaves r' _)

  recv_msg-Leaves : (from : Bytes) (m : Message) (r : Replicator) → Leaves r (recv_msg from m r)
  unfolding recv_msg
  recv_msg-Leaves from m r =
      let p : Position = record { last_epoch = m.last_epoch; lsn = m.ack_lsn } in
      if_cases (Leaves r) (counts_ack m r) _ _
        (λ t. if_admitted-Leaves m r (admit_follower from p r) (admit_follower-Untouched from p r))
        (λ t. with_node-Leaves r (Recv.recv r.now m r.node))

  serve_admitted-Untouched :
      (to : Bytes) (after : ℕ) (r : Replicator) (x : Bool × Replicator)
      → Untouched r x.1
      → Untouched r (serve_admitted to after x)
  serve_admitted-Untouched to after r (false, s) u = u
  serve_admitted-Untouched to after r (true, s) u = Untouched-trans r s _ u (
      Sends-Untouched s _ (
        if_cases (Sends s) (leb s.store.repl_lsn after) _ _ (λ t. Sends-refl s)
          (λ t.
            if_cases (Sends s) (ltb (add64 after 1) (first_lsn s.log)) _ _
              (λ v. serve_snapshot-Sends to s) (λ v. replayed-Sends to s (read_from after s.log)))))

  serve_catchup-Untouched :
      (from : Bytes) (after after_epoch : ℕ) (r : Replicator)
      → Untouched r (serve_catchup from after after_epoch r)
  unfolding serve_catchup
  serve_catchup-Untouched from after after_epoch r =
      let p : Position = record { last_epoch = after_epoch; lsn = after } in
      if_cases (Untouched r) (not (is_leader r.node.role)) _ _ (λ t. Untouched-refl r)
        (λ t.
          serve_admitted-Untouched from after r (admit_follower from p r)
            (admit_follower-Untouched from p r))

  -- A frame that carries data from the leader that the member knows.
  abbrev pub brings_data : Payload → Bool
  brings_data (batch b) = true
  brings_data (snapshot data_in lsn epoch) = true
  brings_data p = false

  abbrev pub is_from_leader : Frame → Replicator → Bool
  is_from_leader fr r = brings_data fr.payload && not (is_foreign fr.from r)

  foreign_of : (b : Bool) → (true && not b) ≡ false → b ≡ true
  foreign_of true h = refl
  foreign_of false h = cc

  dispatch-Leaves :
      (from : Bytes) (p : Payload) (r : Replicator)
      → (brings_data p && not (is_foreign from r)) ≡ false
      → Leaves r (dispatch from p r)
  unfolding apply_incoming restore
  dispatch-Leaves from (msg m) r h = recv_msg-Leaves from m r
  dispatch-Leaves from (batch b) r h = rw (foreign_of (is_foreign from r) h) (Untouched-refl r)
  dispatch-Leaves from (catchup_req after ep) r h = serve_catchup-Untouched from after ep r
  dispatch-Leaves from snapshot_req r h = Sends-Untouched r _ (serve_snapshot-Sends from r)
  dispatch-Leaves from (snapshot data_in lsn ep) r h =
      rw (foreign_of (is_foreign from r) h) (Untouched-refl r)
  dispatch-Leaves from control r h = Untouched-refl r

  -- A frame that is not a batch or a snapshot from the leader that the member knows leaves the tasks and
  -- the sequence number of the store as they are: with no leader nothing is applied, and a follower takes
  -- data from no one else.
  pub recv-Untouched :
      (now : ℕ) (fr : Frame) (r r' : Replicator)
      → is_from_leader fr r ≡ false
      → recv now fr r ≡ some r'
      → Untouched r r'
  unfolding recv
  recv-Untouched now fr r r' h q =
      let u =
        subst (Leaves (record r { now = now })) q
          (dispatch-Leaves fr.from fr.payload (record r { now = now }) h) in
      record { tasks = u.tasks; lsn = u.lsn; id = u.id }
