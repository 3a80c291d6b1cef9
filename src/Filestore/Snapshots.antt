-- ===== src/Filestore/Snapshots.antt =====
-- Positions and snapshots: ReadReplPosition, StampReplPosition and HasTaskData of
-- corndogs/server/store/filestore/replication.go, SnapshotTo and RestoreSnapshot of boltstore.go. A
-- snapshot is what bbolt opens from its bytes, if it opens them. Copying and renaming the file succeeds.
pub mod Stamped
use corndogs.Prelude.{
  ℕ, zero, suc, ◌≡◌, take, Bool, true, false, not, ◌||◌, List, [], ◌∷◌, ◌++◌, Option, none, some,
  if◌then◌else◌, ◌==◌, length,
}
use corndogs.Bytes.{Bytes, of_be}
use corndogs.Filestore.Bolt.{Env, Entries}
use corndogs.Filestore.Tx.{
  Db, Result, ok, err, put_refused, bad_snapshot, bucket_tasks, bucket_guarded, bucket_archived,
  bucket_meta,
}
use corndogs.Filestore.Replication.{
  BoltStore, MutationBatch, put_repl_position, key_repl_position, apply_batch,
}
use corndogs.Filestore.Counts.{ensure_counts}

-- What ReadReplPosition returns: no position, the one that is stored, or an error.
pub data StoredPosition : Type 0 where
  no_stored : StoredPosition
  stored_at : (lsn : ℕ) → (epoch : ℕ) → StoredPosition
  bad_position : StoredPosition

abbrev skip : ℕ → Bytes → Bytes
skip zero xs = xs
skip (suc n) [] = []
skip (suc n) (x ∷ xs) = skip n xs

unfoldable pub position_of : Option Bytes → StoredPosition
position_of none = no_stored
position_of (some v) =
    if not (length v == 16)
    then bad_position
    else stored_at (of_be 0 (take 8 v)) (of_be 0 (skip 8 v))

abbrev is_nil : Entries → Bool
is_nil [] = true
is_nil (x ∷ xs) = false

module _ ⦃e : Env⦄ where
  unfoldable pub read_repl_position : Db → StoredPosition
  unfolding position_of
  read_repl_position db = position_of (e.get (db bucket_meta) key_repl_position)

  abbrev pub stamped : BoltStore → Option Db → Result (Unit {0}) × BoltStore
  stamped s none = (err put_refused, s)
  stamped s (some db) = (ok tt, record s { db = db })

  unfoldable pub stamp_repl_position : ℕ → ℕ → BoltStore → Result (Unit {0}) × BoltStore
  stamp_repl_position lsn epoch s = stamped s (put_repl_position lsn epoch s.db)

  -- ApplyBatch, on the database alone
  unfoldable pub apply_batch_to : MutationBatch → BoltStore → Result (Unit {0}) × BoltStore
  apply_batch_to b s = stamped s (apply_batch b s.db)

  unfoldable pub has_task_data : Db → Bool
  has_task_data db =
      not (is_nil (e.entries (db bucket_tasks)))
      || (not (is_nil (e.entries (db bucket_guarded)))
          || not (is_nil (e.entries (db bucket_archived))))

  -- SnapshotTo: the data, and its sequence number
  unfoldable pub snapshot_to : BoltStore → Db × ℕ
  snapshot_to s = (s.db, s.repl_lsn)

  abbrev pub counted : BoltStore → Option Db → Result (Unit {0}) × BoltStore
  counted s none = (err put_refused, s)
  counted s (some db) = (ok tt, record s { db = db })

  abbrev install_snapshot : BoltStore → Result (Unit {0}) × BoltStore
  install_snapshot s = counted s (ensure_counts s.db)

  -- RestoreSnapshot. An error of ensureCounts comes after the swap.
  unfoldable pub restore_snapshot : Option Db → ℕ → BoltStore → Result (Unit {0}) × BoltStore
  unfolding ensure_counts
  restore_snapshot none lsn s = (err bad_snapshot, s)
  restore_snapshot (some db) lsn s = install_snapshot (record s { db = db; repl_lsn = lsn })
