-- ===== src/Clustering/Replicator/Restored.antt =====
-- A snapshot that a replicator of corndogs/server/clustering/replicator.go restores keeps its invariant.
use corndogs.Prelude.{
  if_cases, ℕ, ◌≡◌, refl, ap, sym, subst, ◌∙◌, inl, inr, false, true≢false, [], ◌∷◌, Option, none,
  some, arith, Bool-cases,
}
use corndogs.Bytes.{Bytes, equal}
use corndogs.Bytes.Laws.{equal_iff}
use corndogs.Filestore.Task.{add64}
use corndogs.Filestore.Bolt.{Env}
use corndogs.Filestore.Tx.{Db, ok}
use corndogs.Filestore.Replication.{BoltStore}
use corndogs.Filestore.ReplLog.{reset}
use corndogs.Filestore.Snapshots.{restore_snapshot}
use corndogs.Filestore.Snapshots.Stamped.{stamp_repl_position_lem, restore_snapshot_lem, CountsFit}
use corndogs.Cluster.Floats.{Floats}
use corndogs.Cluster.Node.{Node, Position, is_leader, set_position, mark_caught_up}
use corndogs.Cluster.Steps.{on_caught_up, step}
use corndogs.Cluster.Steps.Safety.{step-Good}
use corndogs.Cluster.Steps.Acked.{mark_caught_up-Keeps, not_leader-AckedWithin}
use corndogs.Clustering.Replicator.{Replicator}
use corndogs.Clustering.Replicator.Handlers.{is_foreign, restore, after_restore, rebase}
use corndogs.Clustering.Replicator.Sound.{IsAt, IsSound, reset-IsBased, reset_last}
use corndogs.Clustering.Replicator.Kept.{Sends-IsSound, ack_leader-Sends, set_position-IsAt}

module _ ⦃f : Floats⦄ ⦃e : Env⦄ where
  -- A replicator that follows another one does not lead, and knows that it does not.
  abbrev Follows : Replicator → Type 0
  Follows r = (is_leader r.node.role ≡ false) × (r.was_leader ≡ false)

  foreign_lem :
      (from : Bytes) (r : Replicator)
      → is_foreign from r ≡ false
      → (equal r.node.leader_id [] ≡ false) × (from ≡ r.node.leader_id)
  foreign_lem from r h = ground (arith, equal_iff from r.node.leader_id)

  equal_empty : (a : Bytes) → equal a [] ≡ false → a ≡ [] → ⊥
  unfolding equal
  equal_empty [] h k = cc
  equal_empty (x ∷ xs) h k = cc

  has_leader-Follows :
      (from : Bytes) (r : Replicator)
      → equal from r.id ≡ false
      → is_foreign from r ≡ false
      → IsSound r
      → Follows r
  has_leader-Follows from r other foreign ((a, l), c) =
      let (some_leader, by) = foreign_lem from r foreign in
      let follows : is_leader r.node.role ≡ false = elim (Bool-cases (is_leader r.node.role)) [
        | inl t ↦
            elim (true≢false
              (sym ((equal_iff from r.id).1 (by ∙ a.formed.leading t ∙ a.same_id)) ∙ other)) [ ]
        | inr t ↦ t
      ] in
      (
        follows,
        elim (Bool-cases r.was_leader) [
          | inl w ↦ elim (equal_empty r.node.leader_id some_leader (c.deposed w follows)) [ ]
          | inr w ↦ w
        ],
      )

  rebased-IsSound :
      (lsn epoch : ℕ) (r : Replicator) (s : BoltStore)
      → Follows r
      → s.repl_lsn ≡ lsn
      → IsSound r
      → IsSound (rebase lsn epoch r (ok tt, s))
  unfolding step
  rebased-IsSound lsn epoch r s (n, w) t ((a, l), c) =
      let p : Position = record { last_epoch = epoch; lsn = lsn } in
      let n1 : Node = set_position p r.node in
      let at_p : IsAt r.id lsn n1 =
        set_position-IsAt r.id p r.node a.formed a.same_id (not_leader-AckedWithin lsn r.node n) in
      let k = mark_caught_up-Keeps lsn n1 at_p.acked in
      let r1 : Replicator = record r {
        store = s;
        log = reset (add64 lsn 1) epoch r.log;
        need_snapshot = false;
        node = mark_caught_up n1;
      } in
      let same : IsAt r.id s.repl_lsn r1.node =
        subst (λ i. IsAt r.id i (mark_caught_up n1)) (sym t)
          (record {
            formed = step-Good on_caught_up n1 at_p.formed;
            same_id = k.same_id ∙ at_p.same_id;
            position = k.same_lsn ∙ at_p.position;
            acked = k.within;
          }) in
      Sends-IsSound r1 _ (ack_leader-Sends r1) (
        (same, (reset-IsBased lsn epoch r.log, inl (omega (arith, reset_last lsn epoch r.log, t)))),
        record {
          within = λ u. elim (true≢false (sym u ∙ w)) [ ];
          deposed = λ u. elim (true≢false (sym u ∙ w)) [ ];
        },
      )

  -- What bbolt opens from the bytes of a snapshot has count keys that fit.
  abbrev pub Fits : Option Db → Type 0
  Fits none = Unit {0}
  Fits (some db) = CountsFit db

  after_restore-IsSound :
      (data_in : Option Db) (lsn epoch : ℕ) (r : Replicator)
      → Fits data_in
      → Follows r
      → IsSound r
      → IsSound (after_restore lsn epoch r (restore_snapshot data_in lsn r.store))
  unfolding restore_snapshot
  after_restore-IsSound none lsn epoch r fit w h = h
  after_restore-IsSound (some db) lsn epoch r fit w h =
      let (db1, p, same1) = restore_snapshot_lem db lsn r.store fit in
      let (db2, q, same2) =
        stamp_repl_position_lem lsn epoch (record r.store { db = db1; repl_lsn = lsn }) in
      subst IsSound (sym (ap (after_restore lsn epoch r) p ∙ ap (rebase lsn epoch r) q))
        (rebased-IsSound lsn epoch r (record r.store { db = db2; repl_lsn = lsn }) w refl h)

  pub restore-IsSound :
      (from : Bytes) (data_in : Option Db) (lsn epoch : ℕ) (r : Replicator)
      → equal from r.id ≡ false
      → Fits data_in
      → IsSound r
      → IsSound (restore from data_in lsn epoch r)
  unfolding restore
  restore-IsSound from data_in lsn epoch r other fit h =
      if_cases IsSound (is_foreign from r) _ _ (λ t. h)
        (λ t. after_restore-IsSound data_in lsn epoch r fit (has_leader-Follows from r other t h) h)
