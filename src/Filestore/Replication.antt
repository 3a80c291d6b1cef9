-- ===== src/Filestore/Replication.antt =====
-- The replication primitives of corndogs/server/store/filestore/replication.go, and the ways in which
-- boltstore.go and committer.go run a write: db.Update, `writeCapturing` on a leader, the group
-- committer, and `ApplyReplicated` on a follower.
pub mod Captured
pub mod Counts
pub mod Tasks
pub mod Operations
pub mod Guarded
pub mod Follower
pub mod Numbered
pub mod Wire
pub mod Grouped
use corndogs.Prelude.{
  ℕ, ◌≡◌, Bool, true, false, not, ◌&&◌, ◌||◌, List, [], ◌∷◌, ◌++◌, Option, none, some,
  if◌then◌else◌, ◌==◌,
}
use corndogs.Bytes.{Bytes, equal, be}
use corndogs.Filestore.Task.{add64}
use corndogs.Filestore.Bolt.{Env}
use corndogs.Filestore.Tx.{
  Exec, Db, Tx, Result, ok, err, Mutation, AuditEvent, set_bucket, put_refused, non_contiguous,
  codes, bucket_tasks, bucket_guarded, bucket_counts, bucket_meta,
}

-- MutationBatch
pub record MutationBatch : Type 0 where
  pub lsn : ℕ
  pub epoch : ℕ
  pub mutations : List Mutation

abbrev pub key_repl_position : Bytes
key_repl_position = codes "repl-position"

-- keyCountsReady of counts.go
abbrev pub key_counts_ready : Bytes
key_counts_ready = codes "counts-ready"

abbrev is_empty {ℓ} : {A : Type ℓ} → List A → Bool
is_empty [] = true
is_empty (x ∷ xs) = false

unfoldable pub changes_tasks : List Mutation → Bool
changes_tasks [] = false
changes_tasks (m ∷ ms) =
    (equal m.bucket bucket_tasks || equal m.bucket bucket_guarded) || changes_tasks ms

unfoldable pub changes_counts : List Mutation → Bool
changes_counts [] = false
changes_counts (m ∷ ms) = equal m.bucket bucket_counts || changes_counts ms

-- batchKeepsCounts of counts.go
unfoldable pub batch_keeps_counts : MutationBatch → Bool
unfolding changes_tasks changes_counts
batch_keeps_counts b = not (changes_tasks b.mutations) || changes_counts b.mutations

module _ ⦃e : Env⦄ where
  abbrev pub put_back : Db → Bytes → Option e.Bucket → Option Db
  put_back db name none = none
  put_back db name (some b) = some (set_bucket db name b)

  -- One round of the loop of applyBatch.
  unfoldable pub apply_mutation : Mutation → Db → Option Db
  apply_mutation m db =
      if m.delete
      then some (set_bucket db m.bucket (e.delete (db m.bucket) m.key))
      else put_back db m.bucket (e.put (db m.bucket) m.key m.value)

  abbrev and_apply : Option Db → (Db → Option Db) → Option Db
  and_apply none f = none
  and_apply (some db) f = f db

  unfoldable pub apply_mutations : List Mutation → Db → Option Db
  apply_mutations [] db = some db
  apply_mutations (m ∷ ms) db = and_apply (apply_mutation m db) (apply_mutations ms)

  unfoldable pub put_repl_position : ℕ → ℕ → Db → Option Db
  put_repl_position lsn epoch db =
      put_back db bucket_meta (e.put (db bucket_meta) key_repl_position (be 8 lsn ++ be 8 epoch))

  unfoldable pub apply_batch : MutationBatch → Db → Option Db
  apply_batch b db = and_apply (apply_mutations b.mutations db) (put_repl_position b.lsn b.epoch)

  -- The fields of BoltStore that a write changes. `published` is what the sink has received.
  pub record BoltStore : Type 0 where
    pub db : Db
    pub audit : List AuditEvent
    pub repl_lsn : ℕ
    pub published : List MutationBatch

module _ ⦃e : Env⦄ where
  abbrev pub begin : BoltStore → Bool → Tx
  begin s capturing = record { db = s.db; capturing = capturing; muts = []; audit = s.audit }

  -- An audit event is written to its own file at once, so it outlives a rollback.
  abbrev direct {ℓ} : {A : Type ℓ} → BoltStore → Result A × Tx → Result A × BoltStore
  direct s (ok a, tx) = (ok a, record s { db = tx.db; audit = tx.audit })
  direct s (err c, tx) = (err c, record s { audit = tx.audit })

  -- db.Update(fn): commits, or rolls back on an error.
  unfoldable pub update_db {ℓ} : {A : Type ℓ} → Exec A → BoltStore → Result A × BoltStore
  update_db fn s = direct s (fn (begin s false))

  abbrev commit_position {ℓ} :
      {A : Type ℓ}
      → BoltStore
      → A
      → MutationBatch
      → List AuditEvent
      → Option Db
      → Result A × BoltStore
  commit_position s a b audit none = (err put_refused, record s { audit = audit })
  commit_position s a b audit (some db) =
      (ok a, record { db = db; audit = audit; repl_lsn = b.lsn; published = s.published ++ b ∷ [] })

  abbrev publish {ℓ} : {A : Type ℓ} → BoltStore → ℕ → Result A × Tx → Result A × BoltStore
  publish s tag (err c, tx) = (err c, record s { audit = tx.audit })
  publish s tag (ok a, tx) =
      if is_empty tx.muts
      then (ok a, record s { db = tx.db; audit = tx.audit })
      else commit_position s a
          (record { lsn = add64 s.repl_lsn 1; epoch = tag; mutations = tx.muts }) tx.audit
          (put_repl_position (add64 s.repl_lsn 1) tag tx.db)

  -- writeCapturing
  unfoldable pub write_capturing {ℓ} : {A : Type ℓ} → Exec A → ℕ → BoltStore → Result A × BoltStore
  write_capturing fn tag s = publish s tag (fn (begin s true))

  abbrev pub install : BoltStore → MutationBatch → Option Db → Result (Unit {0}) × BoltStore
  install s b none = (err put_refused, s)
  install s b (some db) = (
    ok tt,
    record s {
      db =
          if not (batch_keeps_counts b)
          then set_bucket db bucket_meta (e.delete (db bucket_meta) key_counts_ready)
          else db;
      repl_lsn = b.lsn;
    },
  )

  -- ApplyReplicated
  unfoldable pub apply_replicated : MutationBatch → BoltStore → Result (Unit {0}) × BoltStore
  apply_replicated b s =
      if not (b.lsn == add64 s.repl_lsn 1)
      then (err non_contiguous, s)
      else install s b (apply_batch b s.db)

  abbrev next_op {ℓ} :
      {A : Type ℓ} → Result A × Tx → (Tx → List (Result A) × Tx) → List (Result A) × Tx
  next_op (r, tx) more = let (rs, tx') = more tx in (r ∷ rs, tx')

  -- The transaction of the group committer's `run`: an error of one write is kept for its caller, and
  -- what the write did before it stays in the transaction.
  unfoldable pub run_batch {ℓ} : {A : Type ℓ} → List (Exec A) → Tx → List (Result A) × Tx
  run_batch [] tx = ([], tx)
  run_batch (fn ∷ fns) tx = next_op (fn tx) (run_batch fns)

  -- One round of `run`: the whole batch in one transaction, which then commits.
  unfoldable pub commit_group {ℓ} :
      {A : Type ℓ} → List (Exec A) → BoltStore → List (Result A) × BoltStore
  unfolding run_batch
  commit_group fns s =
      let (rs, tx) = run_batch fns (begin s false) in
      (rs, record s { db = tx.db; audit = tx.audit })
