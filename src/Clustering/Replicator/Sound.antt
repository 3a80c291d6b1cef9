-- ===== src/Clustering/Replicator/Sound.antt =====
-- The invariant of a replicator of corndogs/server/clustering/replicator.go, and the parts of it that its
-- member, its store and its log keep.
use corndogs.Prelude.{
  ℕ, ◌^◌, ◌≤◌, ◌<◌, ◌≡◌, refl, sym, ◌∙◌, ◌⊎◌, inl, inr, Bool, true, false, true≢false, [], some,
  arith, Bool-cases, ltb,
}
use corndogs.Bytes.{Bytes}
use corndogs.Filestore.Task.{add64}
use corndogs.Filestore.Bolt.{Env}
use corndogs.Filestore.Replication.{MutationBatch}
use corndogs.Filestore.ReplLog.{ReplLog, append, reset, epoch_at, roll, note_epoch, write_frame}
use corndogs.Cluster.Floats.{Floats}
use corndogs.Cluster.Node.{Node, is_leader}
use corndogs.Cluster.Recv.{durable_lsn}
use corndogs.Cluster.Steps.Safety.{IsWellFormed, IsHeld}
use corndogs.Cluster.Steps.Acked.{AckedWithin, durable_lsn_within}
use corndogs.Clustering.Replicator.{Replicator, refresh_committed, raise_committed, as_leader}

-- The base of the log is not after its end, which is a 64-bit word.
abbrev pub IsBased : ReplLog → Type 0
IsBased l = (l.base_lsn ≤ l.last_lsn) × (l.last_lsn < 2 ^ 64)

module _ ⦃f : Floats⦄ where
  -- The log ends at `lsn` or before it, or the member is held back until it has a snapshot.
  abbrev pub IsLogged : Node → ℕ → ReplLog → Type 0
  IsLogged n lsn l = IsBased l × ((l.last_lsn ≤ lsn) ⊎ IsHeld n)

  -- The member of a replicator, with the sequence number `lsn` of its store.
  pub record IsAt (id : Bytes) (lsn : ℕ) (n : Node) : Type 0 where
    pub formed : IsWellFormed n
    pub same_id : n.id ≡ id
    pub position : n.applied_lsn ≡ lsn
    pub acked : AckedWithin lsn n

  -- A member that led, and that has not yet noticed that it no longer does, has no leader.
  pub record Commits (lsn : ℕ) (n : Node) (was_leader : Bool) (committed : ℕ) : Type 0 where
    pub within : was_leader ≡ true → committed ≤ lsn
    pub deposed : was_leader ≡ true → is_leader n.role ≡ false → n.leader_id ≡ []

module _ ⦃f : Floats⦄ ⦃e : Env⦄ where
  abbrev pub InStep : Replicator → Type 0
  InStep r = IsAt r.id r.store.repl_lsn r.node × IsLogged r.node r.store.repl_lsn r.log

  abbrev pub IsSound : Replicator → Type 0
  IsSound r = InStep r × Commits r.store.repl_lsn r.node r.was_leader r.committed_lsn

  raise_committed-IsSound :
      (d : ℕ) (r : Replicator) → d ≤ r.store.repl_lsn → IsSound r → IsSound (raise_committed d r)
  raise_committed-IsSound d r h (i, c) = elim (Bool-cases (ltb r.committed_lsn d)) [
    | inl t ↦ rw t (i, record { within = λ w. h; deposed = c.deposed })
    | inr t ↦ rw t (i, c)
  ]

  as_leader-IsSound :
      (r : Replicator)
      → is_leader r.node.role ≡ true
      → InStep r
      → (r.was_leader ≡ true → r.committed_lsn ≤ r.store.repl_lsn)
      → IsSound (as_leader r)
  as_leader-IsSound r t i c = elim (Bool-cases r.was_leader) [
    | inl w ↦
        rw w (i, record { within = λ u. c w; deposed = λ u v. elim (true≢false (sym t ∙ v)) [ ] })
    | inr w ↦ rw w (
      i,
      record { within = λ u. omega arith; deposed = λ u v. elim (true≢false (sym t ∙ v)) [ ] },
    )
  ]

  as_leader_keeps :
      (r : Replicator)
      → ((as_leader r).ack_count ≡ r.ack_count)
        × ((as_leader r).node ≡ r.node)
        × ((as_leader r).store ≡ r.store)
  as_leader_keeps r = elim (Bool-cases r.was_leader) [
    | inl w ↦ rw w (refl, refl, refl)
    | inr w ↦ rw w (refl, refl, refl)
  ]

  -- After refreshCommitted the commit point is right again, wherever the member has moved.
  pub refresh_committed-IsSound :
      (r : Replicator)
      → InStep r
      → (r.was_leader ≡ true → r.committed_lsn ≤ r.store.repl_lsn)
      → IsSound (refresh_committed r)
  unfolding refresh_committed
  refresh_committed-IsSound r i c =
      let d : durable_lsn r.ack_count r.node ≤ r.store.repl_lsn =
        durable_lsn_within r.store.repl_lsn r.ack_count r.node i.0.acked
          (omega (arith, i.0.position)) in
      elim (Bool-cases (is_leader r.node.role)) [
        | inl t ↦ rw t (
            raise_committed-IsSound (durable_lsn r.ack_count r.node) (as_leader r)
              (rw ((as_leader_keeps r).2) d) (as_leader-IsSound r t i c))
        | inr t ↦ rw t (
          i,
          record {
            within = λ w. elim (true≢false (sym w)) [ ];
            deposed = λ w. elim (true≢false (sym w)) [ ];
          },
        )
      ]

pub reset-IsBased : (lsn epoch : ℕ) (l : ReplLog) → IsBased (reset (add64 lsn 1) epoch l)
unfolding reset
reset-IsBased lsn epoch l = (omega arith, ground arith)

pub reset_last : (lsn epoch : ℕ) (l : ReplLog) → (reset (add64 lsn 1) epoch l).last_lsn ≤ lsn
unfolding reset
reset_last lsn epoch l = ground arith

pub append_last :
    (b : MutationBatch) (l l' : ReplLog)
    → append b l ≡ some l'
    → 0 < b.lsn
    → IsBased l
    → IsBased l' × (l'.last_lsn ≡ b.lsn)
unfolding append roll note_epoch write_frame
append_last b l l' h p k = ground arith

-- A position whose epoch the log knows is not after the end of the log.
pub epoch_at_within :
    (l : ReplLog) (lsn ep : ℕ) → IsBased l → epoch_at l lsn ≡ some ep → lsn ≤ l.last_lsn
unfolding epoch_at
epoch_at_within l lsn ep h k = ground arith
