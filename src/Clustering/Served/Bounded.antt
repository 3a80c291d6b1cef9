-- ===== src/Clustering/Served/Bounded.antt =====
-- How far one call moves the sequence number of a replicator of corndogs/server/clustering/replicator.go.
use corndogs.Prelude.{
  ℕ, ◌+◌, ◌≤◌, ◌≡◌, ap, sym, subst, ◌∙◌, inl, inr, true, [], Option, none, some, arith, if_cases,
  Bool-cases, ◌&&◌, not, ◌==◌, leb, some-injective,
}
use corndogs.Bytes.{Bytes}
use corndogs.Filestore.Task.{add64}
use corndogs.Filestore.Bolt.{Env}
use corndogs.Filestore.Tx.{Exec, Result, ok, err, Db}
use corndogs.Filestore.Replication.{MutationBatch, BoltStore, write_capturing}
use corndogs.Filestore.Replication.Numbered.{
  Took, apply_replicated-Took, Numbered, write_capturing-Numbered,
}
use corndogs.Filestore.Snapshots.{restore_snapshot}
use corndogs.Filestore.Snapshots.Stamped.{stamp_repl_position_lem, restore_snapshot_lem}
use corndogs.Cluster.Floats.{Floats}
use corndogs.Cluster.Recv.{live_followers}
use corndogs.Cluster.Node.{set_position, history_tag, member_index}
use corndogs.Clustering.Replicator.{
  batch_position, Replicator, Frame, Payload, msg, batch, catchup_req, snapshot_req, snapshot,
  control, append_log, on_captured,
}
use corndogs.Clustering.Replicator.Handlers.{
  tick, recv, write, deliver, delivered, apply_incoming, after_apply, is_foreign, restore,
  after_restore, rebase, dispatch,
}
use corndogs.Clustering.Replicator.Kept.{
  Sends, send_to_each-Sends, ack_leader-Sends, request_snapshot-Sends,
}
use corndogs.Clustering.Replicator.Restored.{Fits}
use corndogs.Clustering.Replicator.Snapshot.{rebased_on}
use corndogs.Clustering.Replicator.Runs.{FitsPayload}
use corndogs.Clustering.Replicator.Untouched.{brings_data, tick-Untouched, recv-Untouched}

module _ ⦃f : Floats⦄ ⦃e : Env⦄ where
  -- The replicator has the id `id`, and the sequence number of its store is at most `b`.
  abbrev pub IsWithin : Bytes → ℕ → Replicator → Type 0
  IsWithin id b r = (r.store.repl_lsn ≤ b) × (r.id ≡ id)

  Sends-IsWithin :
      (id : Bytes) (b : ℕ) (r r' : Replicator) → Sends r r' → IsWithin id b r → IsWithin id b r'
  Sends-IsWithin id b r r' s h = (omega (arith, h.0, s.store), s.id ∙ h.1)

  on_captured_keeps :
      (b : MutationBatch) (r : Replicator)
      → ((on_captured b r).store.repl_lsn ≡ r.store.repl_lsn) × ((on_captured b r).id ≡ r.id)
  unfolding on_captured append_log
  on_captured_keeps b r =
      let r1 : Replicator = record (append_log b r) {
        node = set_position (batch_position b) r.node;
      } in
      let s = send_to_each-Sends (live_followers r1.node) (batch b) r1 in (s.store, s.id)

  delivered-IsWithin {ℓ} :
      {A : Type ℓ} (id : Bytes) (b : ℕ) (r : Replicator) (x : Result A × BoltStore)
      → Numbered (record r.store { published = [] }) x.1
      → IsWithin id b r
      → IsWithin id (b + 1) (delivered r x).1
  unfolding deliver
  delivered-IsWithin id b r (x, s) (inl (t, p)) h = rw p (omega (arith, t, h.0), h.1)
  delivered-IsWithin id b r (x, s) (inr (m, p, k, t)) h =
      let c = on_captured_keeps m (record r { store = record s { published = [] } }) in
      rw p (omega (arith, c.0, t, h.0), c.1 ∙ h.1)

  pub write-IsWithin {ℓ} :
      {A : Type ℓ} (id : Bytes) (b : ℕ) (fn : Exec A) (r : Replicator)
      → IsWithin id b r
      → IsWithin id (b + 1) (write fn r).1
  unfolding write
  write-IsWithin id b fn r h =
      let tag = history_tag r.node.epoch (member_index r.node) in
      delivered-IsWithin id b r (write_capturing fn tag (record r.store { published = [] }))
        (write_capturing-Numbered fn tag (record r.store { published = [] })) h

  after_apply-IsWithin :
      (id : Bytes) (b : ℕ) (m : MutationBatch) (r : Replicator) (x : Result (Unit {0}) × BoltStore)
      → Took m.lsn r.store x
      → m.lsn ≤ b
      → IsWithin id b r
      → IsWithin id b (after_apply m r x)
  unfolding append_log
  after_apply-IsWithin id b m r (err c, s) t k h =
      (omega (arith, ap (λ (z : BoltStore). z.repl_lsn) t, h.0), h.1)
  after_apply-IsWithin id b m r (ok u, s) t k h =
      let r1 : Replicator = record (append_log m (record r { store = s })) {
        node = set_position (batch_position m) r.node;
      } in
      (omega (arith, (ack_leader-Sends r1).store, t, k), (ack_leader-Sends r1).id ∙ h.1)

  apply_incoming-IsWithin :
      (id : Bytes) (b : ℕ) (from : Bytes) (m : MutationBatch) (r : Replicator)
      → IsWithin id b r
      → IsWithin id (b + 1) (apply_incoming from m r)
  unfolding apply_incoming
  apply_incoming-IsWithin id b from m r h =
      let more : IsWithin id (b + 1) r = (omega (arith, h.0), h.1) in
      if_cases (IsWithin id (b + 1)) (is_foreign from r) _ _ (λ t. more)
        (λ t.
          if_cases (IsWithin id (b + 1)) r.need_snapshot _ _
            (λ u. Sends-IsWithin id (b + 1) r _ (request_snapshot-Sends r) more)
            (λ u.
              if_cases (IsWithin id (b + 1)) (leb m.lsn r.store.repl_lsn) _ _ (λ v. more)
                (λ v.
                  if_cases (IsWithin id (b + 1)) (m.lsn == add64 r.store.repl_lsn 1) _ _
                    (λ w.
                      after_apply-IsWithin id (b + 1) m r _ (apply_replicated-Took m r.store)
                        (ground arith) more)
                    (λ w. more))))

  restore-IsWithin :
      (id : Bytes) (b : ℕ) (from : Bytes) (data_in : Option Db) (lsn epoch : ℕ) (r : Replicator)
      → Fits data_in
      → lsn ≤ b
      → IsWithin id b r
      → IsWithin id b (restore from data_in lsn epoch r)
  unfolding restore restore_snapshot
  restore-IsWithin id b from none lsn epoch r fit k h =
      if_cases (IsWithin id b) (is_foreign from r) _ _ (λ t. h) (λ t. h)
  restore-IsWithin id b from (some db) lsn epoch r fit k h =
      if_cases (IsWithin id b) (is_foreign from r) _ _ (λ t. h)
        (λ t.
          let (db1, p, same1) = restore_snapshot_lem db lsn r.store fit in
          let (db2, q, same2) =
            stamp_repl_position_lem lsn epoch (record r.store { db = db1; repl_lsn = lsn }) in
          subst (IsWithin id b) (sym (ap (after_restore lsn epoch r) p ∙ ap (rebase lsn epoch r) q))
            (
              omega (arith, (ack_leader-Sends (rebased_on db2 lsn epoch r)).store, k),
              (ack_leader-Sends (rebased_on db2 lsn epoch r)).id ∙ h.1,
            ))

  -- The sequence number that a snapshot brings.
  abbrev pub lsn_in : Payload → ℕ
  lsn_in (snapshot data_in lsn epoch) = lsn
  lsn_in p = 0

  given-IsWithin :
      (id : Bytes) (b : ℕ) (from : Bytes) (p : Payload) (r r' : Replicator)
      → brings_data p ≡ true
      → FitsPayload p
      → lsn_in p ≤ b
      → IsWithin id b r
      → dispatch from p r ≡ some r'
      → IsWithin id (b + 1) r'
  given-IsWithin id b from (msg m) r r' g fit k h q = cc
  given-IsWithin id b from (batch m) r r' g fit k h q =
      subst (IsWithin id (b + 1)) (some-injective _ r' q) (apply_incoming-IsWithin id b from m r h)
  given-IsWithin id b from (catchup_req a ep) r r' g fit k h q = cc
  given-IsWithin id b from snapshot_req r r' g fit k h q = cc
  given-IsWithin id b from (snapshot d lsn ep) r r' g fit k h q =
      let l = restore-IsWithin id b from d lsn ep r fit k h in
      subst (IsWithin id (b + 1)) (some-injective _ r' q) (omega (arith, l.0), l.1)
  given-IsWithin id b from control r r' g fit k h q = cc

  pub recv-IsWithin :
      (id : Bytes) (b now : ℕ) (fr : Frame) (r r' : Replicator)
      → FitsPayload fr.payload
      → lsn_in fr.payload ≤ b
      → IsWithin id b r
      → recv now fr r ≡ some r'
      → IsWithin id (b + 1) r'
  unfolding recv
  recv-IsWithin id b now fr r r' fit k h q = elim (Bool-cases (brings_data fr.payload)) [
    | inl t ↦ given-IsWithin id b fr.from fr.payload (record r { now = now }) r' t fit k h q
    | inr t ↦
        let u = recv-Untouched now fr r r' (ap (λ c. c && not (is_foreign fr.from r)) t) q in
        (omega (arith, u.lsn, h.0), u.id ∙ h.1)
  ]

  pub tick-IsWithin :
      (id : Bytes) (b now : ℕ) (r : Replicator) → IsWithin id b r → IsWithin id (b + 1) (tick now r)
  tick-IsWithin id b now r h =
      let u = tick-Untouched now r in (omega (arith, u.lsn, h.0), u.id ∙ h.1)
