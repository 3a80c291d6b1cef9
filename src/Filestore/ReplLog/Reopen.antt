-- ===== src/Filestore/ReplLog/Reopen.antt =====
-- A log that is opened again.
use corndogs.Prelude.{◌≤◌, ℕ, suc, ◌+◌, ◌≡◌, List, [], ◌∷◌, ◌++◌, length, All}
use corndogs.Bytes.{Bytes}
use corndogs.Filestore.Replication.{MutationBatch}
use corndogs.Filestore.ReplLog.{Segment, ReplLog, roll, note_epoch}
use corndogs.Filestore.ReplLog.Open.{Disk}
use corndogs.Filestore.ReplLog.Frames.{FitsBatch}
use corndogs.Filestore.ReplLog.Chunks.{Numbered}
use corndogs.Filestore.ReplLog.Appended.{IsStored}
use corndogs.Filestore.ReplLog.Epochs.{Indexed}

-- The directory of a log in which `p` follows the last whole batch.
abbrev disk_with : ReplLog → Bytes → Disk
disk_with l p = record {
  files = l.closed ++ record l.active { bytes = l.active.bytes ++ p } ∷ [];
  lines = l.lines;
}

-- What Append makes of the log before it writes the batch: a new segment and a line of the index, where
-- they are needed.
abbrev pub begun : MutationBatch → ReplLog → ReplLog
begun b l = note_epoch b (roll b l)

-- The directory when Append of `b` has written only `p` of the batch.
unfoldable pub torn_disk : MutationBatch → ReplLog → Bytes → Disk
unfolding roll note_epoch
torn_disk b l p = disk_with (begun b l) p

-- The log holds the batches `bs`, and its index says their epochs, and may say a later one.
record IsWhole (l : ReplLog) (bs : List MutationBatch) : Type 0 where
  stored : IsStored l bs
  numbered : Numbered l.first_seg bs
  last_is : suc l.last_lsn ≡ l.first_seg + length bs
  fits : All FitsBatch bs
  based : suc l.base_lsn ≤ l.first_seg
  indexed : Indexed l.epochs bs

-- The log with other segments and another end.
abbrev with_files : ReplLog → List Segment → Segment → ℕ → ReplLog
with_files l before last lsn = record l { closed = before; active = last; last_lsn = lsn }
