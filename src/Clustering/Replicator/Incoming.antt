-- ===== src/Clustering/Replicator/Incoming.antt =====
-- The handlers of corndogs/server/clustering/replicator.go that change the data or the member keep the
-- invariant: batches, snapshots, writes, and the checks of a follower's position.
use corndogs.Prelude.{
  if_cases, ℕ, ◌+◌, ◌^◌, ◌≤◌, ◌<◌, ◌≡◌, refl, ap, sym, subst, ◌∙◌, inl, inr, Bool, true, false, [],
  Option, none, some, arith, Bool-cases, ◌==◌, leb,
}
use corndogs.Bytes.{Bytes}
use corndogs.Filestore.Task.{add64}
use corndogs.Filestore.Bolt.{Env}
use corndogs.Filestore.Tx.{ok, err, Result, Exec}
use corndogs.Filestore.Replication.{MutationBatch, BoltStore, write_capturing}
use corndogs.Filestore.Replication.Numbered.{
  Took, apply_replicated-Took, Numbered, write_capturing-Numbered,
}
use corndogs.Filestore.ReplLog.{epoch_at}
use corndogs.Cluster.Floats.{Floats}
use corndogs.Cluster.Node.{
  Node, Position, set_position, step_down, older, position, history_tag, member_index,
}
use corndogs.Cluster.Steps.{on_step_down, step}
use corndogs.Cluster.Steps.Safety.{step-Good, step-Held}
use corndogs.Cluster.Steps.Acked.{Within-weaken, step_down-Keeps, step_down_lem, set_position_lem}
use corndogs.Clustering.Replicator.{
  live_followers, Replicator, batch, catchup_req, append_log, batch_position, on_captured, matches,
  admit_follower,
}
use corndogs.Clustering.Replicator.Handlers.{
  is_foreign, after_apply, apply_incoming, deliver, delivered, write,
}
use corndogs.Clustering.Replicator.Sound.{IsLogged, IsAt, IsSound, epoch_at_within}
use corndogs.Clustering.Replicator.Kept.{
  Sends-IsSound, send_frame-Sends, send_to_each-Sends, request_snapshot-Sends, ack_leader-Sends,
  serve_snapshot-Sends, append_log-IsLogged, set_position-IsAt, drain_node-IsSound, IsLogged-map,
}

module _ ⦃f : Floats⦄ ⦃e : Env⦄ where
  -- The store has taken batch `b`, which is not behind; the log and the member follow.
  moved-IsSound :
      (b : MutationBatch) (r : Replicator) (s : BoltStore)
      → IsSound r
      → r.store.repl_lsn < b.lsn
      → s.repl_lsn ≡ b.lsn
      → IsSound (record (append_log b (record r { store = s })) {
        node = set_position (batch_position b) r.node;
      })
  unfolding append_log
  moved-IsSound b r s ((a, l), c) h t =
      let n : Node = set_position (batch_position b) r.node in
      let (i, p, led, role) = set_position_lem (batch_position b) r.node in
      (
        (
          subst (λ k. IsAt r.id k n) (sym t)
              (set_position-IsAt r.id (batch_position b) r.node a.formed a.same_id
                (Within-weaken r.store.repl_lsn b.lsn _ (omega arith) a.acked)),
          subst (λ k. IsLogged n k (append_log b (record r { store = s })).log) (sym t)
              (append_log-IsLogged b (record r { store = s }) n (omega arith) l.0),
        ),
        record {
          within = λ w. omega (arith, c.within w, t);
          deposed = λ w k. led ∙ c.deposed w (sym role ∙ k);
        },
      )

  on_captured-IsSound :
      (b : MutationBatch) (r : Replicator) (s : BoltStore)
      → IsSound r
      → r.store.repl_lsn < b.lsn
      → s.repl_lsn ≡ b.lsn
      → IsSound (on_captured b (record r { store = s }))
  unfolding on_captured append_log
  on_captured-IsSound b r s h l t =
      let r2 : Replicator = record (append_log b (record r { store = s })) {
        node = set_position (batch_position b) r.node;
      } in
      Sends-IsSound r2 _ (send_to_each-Sends (live_followers r2.node) (batch b) r2)
        (moved-IsSound b r s h l t)

  restored-IsSound :
      (r : Replicator) (s : BoltStore)
      → s.repl_lsn ≡ r.store.repl_lsn
      → IsSound r
      → IsSound (record r { store = s })
  restored-IsSound r s t h = rw t h

  delivered-IsSound {ℓ} :
      {A : Type ℓ} (r : Replicator) (x : Result A × BoltStore)
      → Numbered (record r.store { published = [] }) x.1
      → r.store.repl_lsn + 1 < 2 ^ 64
      → IsSound r
      → IsSound (delivered r x).1
  unfolding deliver
  delivered-IsSound r (x, s) (inl (t, p)) l h =
      rw p (restored-IsSound r (record s { published = [] }) t h)
  delivered-IsSound r (x, s) (inr (b, p, k, t)) l h =
      rw p (on_captured-IsSound b r (record s { published = [] }) h (omega (arith, k)) (t ∙ sym k))

  pub write-IsSound {ℓ} :
      {A : Type ℓ} (fn : Exec A) (r : Replicator)
      → r.store.repl_lsn + 1 < 2 ^ 64
      → IsSound r
      → IsSound (write fn r).1
  unfolding write
  write-IsSound fn r l h =
      let tag = history_tag r.node.epoch (member_index r.node) in
      delivered-IsSound r (write_capturing fn tag (record r.store { published = [] }))
        (write_capturing-Numbered fn tag (record r.store { published = [] })) l h

  after_apply-IsSound :
      (b : MutationBatch) (r : Replicator) (x : Result (Unit {0}) × BoltStore)
      → Took b.lsn r.store x
      → r.store.repl_lsn < b.lsn
      → IsSound r
      → IsSound (after_apply b r x)
  unfolding append_log
  after_apply-IsSound b r (err c, s) t l h =
      restored-IsSound r s (ap (λ (z : BoltStore). z.repl_lsn) t) h
  after_apply-IsSound b r (ok u, s) t l h =
      Sends-IsSound _ _ (ack_leader-Sends _) (moved-IsSound b r s h l t)

  pub apply_incoming-IsSound :
      (from : Bytes) (b : MutationBatch) (r : Replicator)
      → IsSound r
      → IsSound (apply_incoming from b r)
  unfolding apply_incoming
  apply_incoming-IsSound from b r h =
      if_cases IsSound (is_foreign from r) _ _ (λ t. h)
        (λ t.
          if_cases IsSound r.need_snapshot _ _ (λ u. Sends-IsSound r _ (request_snapshot-Sends r) h)
            (λ u.
              if_cases IsSound (leb b.lsn r.store.repl_lsn) _ _ (λ v. h)
                (λ v.
                  if_cases IsSound (b.lsn == add64 r.store.repl_lsn 1) _ _
                    (λ w.
                      after_apply-IsSound b r _ (apply_replicated-Took b r.store) (ground arith) h)
                    (λ w.
                      Sends-IsSound r _
                        (send_frame-Sends from (catchup_req r.store.repl_lsn r.node.last_epoch) r)
                        h))))

  -- A follower is admitted only at a position that the leader has; otherwise the invariant holds on.
  abbrev pub Admits : ℕ → Replicator → Bool × Replicator → Type 0
  Admits lsn r (true, r') = (r' ≡ r) × (lsn ≤ r.log.last_lsn)
  Admits lsn r (false, r') = IsSound r'

  step_down-IsSound : (r : Replicator) → IsSound r → IsSound (record r { node = step_down r.node })
  unfolding step
  step_down-IsSound r ((a, l), c) =
      let k = step_down-Keeps r.store.repl_lsn r.node a.acked in
      (
        (
          record {
            formed = step-Good on_step_down r.node a.formed;
            same_id = k.same_id ∙ a.same_id;
            position = k.same_lsn ∙ a.position;
            acked = k.within;
          },
          IsLogged-map r.node _ r.store.repl_lsn r.log (step-Held on_step_down r.node refl) l,
        ),
        record { within = c.within; deposed = λ w n. step_down_lem r.node (c.deposed w) },
      )

  matches_known : (ep : ℕ) (o : Option ℕ) → matches ep o ≡ true → (x : ℕ) × (o ≡ some x)
  matches_known ep none h = cc
  matches_known ep (some x) h = (x, refl)

  pub admit_follower-Admits :
      (from : Bytes) (pos : Position) (r : Replicator)
      → IsSound r
      → Admits pos.lsn r (admit_follower from pos r)
  unfolding admit_follower
  admit_follower-Admits from pos r h = elim (Bool-cases (older (position r.node) pos)) [
    | inl t ↦ rw t (drain_node-IsSound _ (step_down-IsSound r h))
    | inr t ↦ elim (Bool-cases (matches pos.last_epoch (epoch_at r.log pos.lsn))) [
      | inl u ↦
          let (x, k) = matches_known pos.last_epoch (epoch_at r.log pos.lsn) u in
          rw (t, u) (refl, epoch_at_within r.log pos.lsn x h.0.1.0 k)
      | inr u ↦ rw (t, u) (Sends-IsSound r _ (serve_snapshot-Sends from r) h)
    ]
  ]
