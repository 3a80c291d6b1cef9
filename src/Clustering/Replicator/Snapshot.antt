-- ===== src/Clustering/Replicator/Snapshot.antt =====
-- The way of a snapshot in corndogs/server/clustering/replicator.go, from serveSnapshot on the leader to
-- restore on a follower.
use corndogs.Prelude.{
  ℕ, ◌+◌, ◌^◌, ◌<◌, ◌≡◌, refl, ap, sym, subst, ◌∙◌, true, false, List, [], ◌∷◌, ◌++◌, some, arith,
  if◌then◌else◌, if_cases,
}
use corndogs.Bytes.{Bytes, equal}
use corndogs.Filestore.Task.{add64}
use corndogs.Filestore.Bolt.{Env}
use corndogs.Filestore.Tx.{Db, bucket_tasks, bucket_guarded}
use corndogs.Filestore.Counts.Tally.{CountKeysFit}
use corndogs.Filestore.ReplLog.{ReplLog, reset}
use corndogs.Filestore.Snapshots.{restore_snapshot, snapshot_to}
use corndogs.Filestore.Snapshots.Stamped.{
  SameTasks, CountsFit, stamp_repl_position_lem, restore_snapshot_lem,
}
use corndogs.Cluster.Floats.{Floats}
use corndogs.Cluster.Dict.{dict_get}
use corndogs.Cluster.Node.{Node, Position, position, is_leader, set_position, mark_caught_up}
use corndogs.Clustering.Replicator.{
  Replicator, Frame, snapshot, serve_snapshot, sent_recently, ack_leader, has_no_leader,
}
use corndogs.Clustering.Replicator.Handlers.{recv, restore, rebase, after_restore, is_foreign}

module _ ⦃f : Floats⦄ ⦃e : Env⦄ where
  -- The follower `g` has the tasks and the position of `l`, and is free to vote and to serve.
  pub record Rebased (l g : Replicator) : Type 0 where
    pub tasks : SameTasks l.store.db g.store.db
    pub lsn : g.store.repl_lsn ≡ l.store.repl_lsn
    pub at_position :
        position g.node ≡ record { last_epoch = l.node.last_epoch; lsn = l.store.repl_lsn }
    pub released : g.node.hold_joining ≡ false
    pub known : g.need_snapshot ≡ false
    pub log_end : g.log.last_lsn ≡ l.store.repl_lsn

  -- The frame that serveSnapshot sends.
  abbrev snapshot_frame : Replicator → Bytes → Db → Frame
  snapshot_frame l to db = record {
    from = l.id;
    to = to;
    payload = snapshot (some db) l.store.repl_lsn l.node.last_epoch;
  }

  serve_snapshot-sent :
      (to : Bytes) (l : Replicator)
      → is_leader l.node.role ≡ true
      → sent_recently l.now (dict_get to l.snap_sent_at) ≡ false
      → (db : Db) × ((serve_snapshot to l).sent ≡ l.sent ++ snapshot_frame l to db ∷ [])
        × SameTasks l.store.db db
  unfolding serve_snapshot snapshot_to
  serve_snapshot-sent to l t u =
      let (db, p, same) = stamp_repl_position_lem l.node.applied_lsn l.node.last_epoch l.store in
      (db, rw (t, u, p) refl, same)

  reset_end :
      (lsn epoch : ℕ) (l : ReplLog)
      → lsn + 1 < 2 ^ 64
      → (reset (add64 lsn 1) epoch l).last_lsn ≡ lsn
  unfolding reset
  reset_end lsn epoch l h = ground arith

  rebased_position :
      (p : Position) (n : Node)
      → (position (mark_caught_up (set_position p n)) ≡ p)
        × ((mark_caught_up (set_position p n)).hold_joining ≡ false)
  unfolding mark_caught_up set_position corndogs.Cluster.Node.arm_stand_timer
  rebased_position p n = ground arith

  ack_leader_sent :
      (r : Replicator) → (frames : List Frame) × (ack_leader r ≡ record r { sent = frames })
  unfolding ack_leader
  ack_leader_sent r =
      if_cases (λ (r' : Replicator). (frames : List Frame) × (r' ≡ record r { sent = frames }))
        (has_no_leader r) _ _ (λ t. (r.sent, refl)) (λ t. (_, refl))

  SameTasks-CountsFit : (db db' : Db) → SameTasks db db' → CountsFit db → CountsFit db'
  unfolding equal
  SameTasks-CountsFit db db' same fit = record {
    tasks = subst (λ b. CountKeysFit (e.entries b)) (sym (same bucket_tasks refl refl)) fit.tasks;
    guarded =
        subst (λ b. CountKeysFit (e.entries b)) (sym (same bucket_guarded refl refl)) fit.guarded;
  }

  SameTasks-trans : (a b c : Db) → SameTasks a b → SameTasks b c → SameTasks a c
  SameTasks-trans a b c h k name nc nm = k name nc nm ∙ h name nc nm

  -- The replicator after restore, before its acknowledgement.
  abbrev pub rebased_on : Db → ℕ → ℕ → Replicator → Replicator
  rebased_on db lsn epoch g = record g {
    store = record g.store { db = db; repl_lsn = lsn };
    log = reset (add64 lsn 1) epoch g.log;
    need_snapshot = false;
    node = mark_caught_up (set_position (record { last_epoch = epoch; lsn = lsn }) g.node);
  }

  restore_lem :
      (from : Bytes) (data_in : Db) (lsn epoch : ℕ) (g : Replicator)
      → is_foreign from g ≡ false
      → CountsFit data_in
      → (db : Db) × (frames : List Frame) × (restore from (some data_in) lsn epoch g
          ≡ record (rebased_on db lsn epoch g) { sent = frames })
        × SameTasks data_in db
  unfolding restore
  restore_lem from data_in lsn epoch g near fit =
      let (db1, p, same1) = restore_snapshot_lem data_in lsn g.store fit in
      let (db2, q, same2) =
        stamp_repl_position_lem lsn epoch (record g.store { db = db1; repl_lsn = lsn }) in
      let (frames, a) = ack_leader_sent (rebased_on db2 lsn epoch g) in
      (
        db2,
        frames,
        ap
              (λ c.
                if c
                then g
                else after_restore lsn epoch g (restore_snapshot (some data_in) lsn g.store))
              near
            ∙ ap (after_restore lsn epoch g) p
            ∙ ap (rebase lsn epoch g) q
            ∙ a,
        SameTasks-trans data_in db1 db2 same1 same2,
      )

  -- A leader `l` that has not sent follower `g` a snapshot of late sends one when it is asked to. If `g`
  -- takes `l` for its leader, then on receiving that frame it has the leader's tasks, sequence number and
  -- position, whatever it held before, its log ends there, and it is no longer held back. The count keys
  -- of the leader's tasks fit in bbolt, and its sequence number has a successor below 2 ^ 64.
  pub serve_snapshot-recv :
      (l g : Replicator) (now : ℕ)
      → is_leader l.node.role ≡ true
      → sent_recently l.now (dict_get g.id l.snap_sent_at) ≡ false
      → is_foreign l.id g ≡ false
      → CountsFit l.store.db
      → l.store.repl_lsn + 1 < 2 ^ 64
      → (fr : Frame) × ((serve_snapshot g.id l).sent ≡ l.sent ++ fr ∷ [])
        × (g' : Replicator) × (recv now fr g ≡ some g')
        × Rebased l g'
  unfolding recv
  serve_snapshot-recv l g now t u near fit room =
      let (db, p, same) = serve_snapshot-sent g.id l t u in
      let g0 : Replicator = record g { now = now } in
      let (db', frames, q, same') =
        restore_lem l.id db l.store.repl_lsn l.node.last_epoch g0 near
          (SameTasks-CountsFit l.store.db db same fit) in
      let pos : Position = record { last_epoch = l.node.last_epoch; lsn = l.store.repl_lsn } in
      let (at, free) = rebased_position pos g.node in
      (
        snapshot_frame l g.id db,
        p,
        _,
        ap some q,
        record {
          tasks = SameTasks-trans l.store.db db db' same same';
          lsn = refl;
          at_position = at;
          released = free;
          known = refl;
          log_end = reset_end l.store.repl_lsn l.node.last_epoch g.log room;
        },
      )
