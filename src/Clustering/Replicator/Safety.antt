-- ===== src/Clustering/Replicator/Safety.antt =====
-- What holds of a replicator of corndogs/server/clustering/replicator.go from New on.
use corndogs.Prelude.{
  ℕ, ◌+◌, ◌^◌, ◌≤◌, ◌<◌, ◌≡◌, sym, subst, ◌∙◌, inl, inr, true, false, true≢false, Option, none,
  some, arith, Bool-cases, ◌&&◌, ◌==◌, if_cases, some-injective,
}
use corndogs.Bytes.{Bytes}
use corndogs.Filestore.Bolt.{Env}
use corndogs.Filestore.Tx.{Exec}
use corndogs.Filestore.Replication.{BoltStore}
use corndogs.Filestore.ReplLog.{ReplLog}
use corndogs.Filestore.Snapshots.{read_repl_position, has_task_data}
use corndogs.Cluster.Floats.{Floats}
use corndogs.Cluster.Node.{Node, Position, is_leader, set_position, hold_joining_now}
use corndogs.Cluster.Recv.{durable_lsn}
use corndogs.Cluster.Election.{same_position}
use corndogs.Cluster.Steps.{on_hold, step}
use corndogs.Cluster.Steps.Safety.{IsWellFormed, IsHeld, step-Good}
use corndogs.Cluster.Steps.Acked.{
  durable_lsn_within, not_leader-AckedWithin, hold_joining-Keeps, hold_joining-IsHeld,
}
use corndogs.Clustering.Replicator.{
  Replicator, Frame, new_replicator, made, recover_position, rebased, newer_position, log_position,
}
use corndogs.Clustering.Replicator.Handlers.{tick, recv, write, request_rollback, last_lsn}
use corndogs.Clustering.Replicator.Sound.{IsBased, IsAt, IsSound, reset-IsBased, reset_last}
use corndogs.Clustering.Replicator.Kept.{Sends-IsSound, set_position-IsAt}
use corndogs.Clustering.Replicator.Incoming.{write-IsSound}
use corndogs.Clustering.Replicator.Runs.{
  IsPeers, Returns, tick-IsSound, recv-Returns, request_rollback-Sends,
}

module _ ⦃f : Floats⦄ ⦃e : Env⦄ where
  -- One call of the replicator. A write has room for its sequence number.
  pub data Step (r r' : Replicator) : Type 0 where
    ticked : (now : ℕ) → r' ≡ tick now r → Step r r'
    received : (now : ℕ) → (fr : Frame) → IsPeers r fr → recv now fr r ≡ some r' → Step r r'
    wrote : (fn : Exec (Unit {0})) → r.store.repl_lsn + 1 < 2 ^ 64 → r' ≡ (write fn r).1 → Step r r'
    rolled_back : r' ≡ request_rollback r → Step r r'

  pub data Reach (r : Replicator) : Replicator → Type 0 where
    here : Reach r r
    next : {s t : Replicator} → Reach r s → Step s t → Reach r t

  returned-IsSound :
      (r' : Replicator) (o : Option Replicator) → o ≡ some r' → Returns o → IsSound r'
  returned-IsSound r' o q (r1, p, h) = subst IsSound (some-injective r1 r' (sym p ∙ q)) h

  Step-IsSound : (r r' : Replicator) → Step r r' → IsSound r → IsSound r'
  Step-IsSound r r' (ticked now q) h = subst IsSound (sym q) (tick-IsSound now r h)
  Step-IsSound r r' (received now fr p q) h =
      returned-IsSound r' (recv now fr r) q (recv-Returns now fr r p h)
  Step-IsSound r r' (wrote fn l q) h = subst IsSound (sym q) (write-IsSound fn r l h)
  Step-IsSound r r' (rolled_back q) h =
      subst IsSound (sym q) (Sends-IsSound r _ (request_rollback-Sends r) h)

  Reach-IsSound : (r r' : Replicator) → Reach r r' → IsSound r → IsSound r'
  Reach-IsSound r r' here h = h
  Reach-IsSound r r' (next {s} {t} p st) h = Step-IsSound s r' st (Reach-IsSound r s p h)

  -- A member before it is given to New.
  pub record IsFresh (id : Bytes) (n : Node) : Type 0 where
    pub formed : IsWellFormed n
    pub same_id : n.id ≡ id
    pub follows : is_leader n.role ≡ false

  -- The log that recoverPosition leaves ends at the position that it found, or before it.
  abbrev Recovers : Option (Position × ReplLog) → Type 0
  Recovers none = Unit {0}
  Recovers (some (pos, l)) = IsBased l × (l.last_lsn ≤ pos.lsn)

  same_position_lsn : (p q : Position) → same_position p q ≡ true → p.lsn ≡ q.lsn
  unfolding same_position
  same_position_lsn p q h = ground arith

  rebased-Recovers :
      (s : BoltStore) (l : ReplLog) (o : Option Position) → IsBased l → Recovers (rebased s l o)
  rebased-Recovers s l none h = tt
  rebased-Recovers s l (some pos) h =
      if_cases Recovers (pos.lsn == 0 && has_task_data s.db) _ _ (λ t. tt)
        (λ t. elim (Bool-cases (same_position pos (log_position l))) [
          | inl u ↦ rw u (h, omega (arith, same_position_lsn pos (log_position l) u))
          | inr u ↦
              rw u (reset-IsBased pos.lsn pos.last_epoch l, reset_last pos.lsn pos.last_epoch l)
        ])

  held_lem :
      (id : Bytes) (lsn : ℕ) (n : Node)
      → IsAt id lsn n
      → IsAt id lsn (hold_joining_now n) × IsHeld (hold_joining_now n)
  unfolding step
  held_lem id lsn n a =
      let k = hold_joining-Keeps lsn n a.acked in
      (
        record {
          formed = step-Good on_hold n a.formed;
          same_id = k.same_id ∙ a.same_id;
          position = k.same_lsn ∙ a.position;
          acked = k.within;
        },
        hold_joining-IsHeld n,
      )

  made-IsSound :
      (id : Bytes) (n : Node) (s : BoltStore) (l : ReplLog) (ack_count : ℕ)
      (o : Option (Position × ReplLog))
      → IsFresh id n
      → IsBased l
      → Recovers o
      → IsSound (made id n s ack_count o l)
  made-IsSound id n s l ack_count none h b o =
      let p : Position = record { last_epoch = 0; lsn = 0 } in
      let (a, k) =
        held_lem id 0 (set_position p n)
          (set_position-IsAt id p n h.formed h.same_id (not_leader-AckedWithin 0 n h.follows)) in
      (
        (a, (b, inr k)),
        record {
          within = λ w. elim (true≢false (sym w)) [ ];
          deposed = λ w. elim (true≢false (sym w)) [ ];
        },
      )
  made-IsSound id n s l ack_count (some (pos, l')) h b (b', k) = (
    (
      set_position-IsAt id pos n h.formed h.same_id (not_leader-AckedWithin pos.lsn n h.follows),
      (b', inl k),
    ),
    record {
      within = λ w. elim (true≢false (sym w)) [ ];
      deposed = λ w. elim (true≢false (sym w)) [ ];
    },
  )

  -- What a caller can rely on.
  pub record IsSafe (r : Replicator) : Type 0 where
    pub position : r.node.applied_lsn ≡ last_lsn r
    pub committed : r.was_leader ≡ true → r.committed_lsn ≤ last_lsn r
    pub durable : durable_lsn r.ack_count r.node ≤ last_lsn r
    pub handles :
        (now : ℕ) (fr : Frame) → IsPeers r fr → (r' : Replicator) × (recv now fr r ≡ some r')

  pub IsSound-IsSafe : (r : Replicator) → IsSound r → IsSafe r
  unfolding last_lsn
  IsSound-IsSafe r h = record {
    position = h.0.0.position;
    committed = h.1.within;
    durable =
        durable_lsn_within r.store.repl_lsn r.ack_count r.node h.0.0.acked
          (omega (arith, h.0.0.position));
    handles = λ now fr p. let (r', q, k) = recv-Returns now fr r p h in (r', q);
  }

  pub new_replicator-IsSound :
      (id : Bytes) (n : Node) (s : BoltStore) (l : ReplLog) (ack_count : ℕ)
      → IsFresh id n
      → IsBased l
      → IsSound (new_replicator id n s l ack_count)
  unfolding new_replicator recover_position
  new_replicator-IsSound id n s l ack_count h b =
      made-IsSound id n s l ack_count (recover_position s l) h b
        (rebased-Recovers s l (newer_position (log_position l) (read_repl_position s.db)) b)

  -- A replicator that New makes of a member that does not lead stays safe through any ticks, frames of
  -- other members, writes with a sequence number below 2 ^ 64 and rollbacks, where the count keys of the
  -- snapshots in the frames fit in bbolt: the member's position is that of the store, neither the commit
  -- point of a leader nor what a quorum has acknowledged to it is beyond its own data, and no frame of
  -- another member makes it panic.
  pub Reach-IsSafe :
      (id : Bytes) (n : Node) (s : BoltStore) (l : ReplLog) (ack_count : ℕ) (r : Replicator)
      → IsFresh id n
      → IsBased l
      → Reach (new_replicator id n s l ack_count) r
      → IsSafe r
  Reach-IsSafe id n s l ack_count r h b p = IsSound-IsSafe r (
      Reach-IsSound (new_replicator id n s l ack_count) r p
        (new_replicator-IsSound id n s l ack_count h b))
