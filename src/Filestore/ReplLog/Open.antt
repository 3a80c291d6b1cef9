-- ===== src/Filestore/ReplLog/Open.antt =====
-- OpenReplLog and Truncate of repllog.go: what a log is made of again after the process has ended, and
-- the removal of segments.
use corndogs.Prelude.{
  ℕ, ◌-◌, ◌^◌, List, [], ◌∷◌, ◌++◌, Option, none, some, if◌then◌else◌, ◌==◌, leb, length, take,
}
use corndogs.Bytes.{Bytes}
use corndogs.Filestore.Task.{add64}
use corndogs.Filestore.Replication.{MutationBatch}
use corndogs.Filestore.Replication.Wire.{
  DecodeError, end_of_input, unexpected_end, too_many_mutations, field_too_long,
}
use corndogs.Filestore.ReplLog.{
  Segment, EpochStart, EpochLine, base_line, start_line, ReplLog, Scan, scan_segment,
}

-- The directory of a log.
pub record Disk : Type 0 where
  pub files : List Segment
  pub lines : List EpochLine

abbrev pub disk : ReplLog → Disk
disk l = record { files = l.closed ++ l.active ∷ []; lines = l.lines }

-- What loadEpochs sets.
pub record EpochIndex : Type 0 where
  pub base_lsn : ℕ
  pub base_ep : ℕ
  pub epochs : List EpochStart

abbrev pub load_line : EpochLine → EpochIndex → EpochIndex
load_line (base_line lsn epoch) i = record { base_lsn = lsn; base_ep = epoch; epochs = [] }
load_line (start_line first_lsn epoch) i = record i {
  epochs = i.epochs ++ record { first = first_lsn; ep = epoch } ∷ [];
}

-- The loop of loadEpochs.
unfoldable pub load_epochs : EpochIndex → List EpochLine → EpochIndex
load_epochs i [] = i
load_epochs i (line ∷ lines) = load_epochs (load_line line i) lines

abbrev pub no_epochs : EpochIndex
no_epochs = record { base_lsn = 0; base_ep = 0; epochs = [] }

abbrev pub last_batch : ℕ → List MutationBatch → ℕ
last_batch lsn [] = lsn
last_batch lsn (b ∷ bs) = last_batch b.lsn bs

abbrev pub kept_bytes : Bytes → DecodeError → Bytes → Bytes
kept_bytes bytes end_of_input left = bytes
kept_bytes bytes unexpected_end left = take (length bytes - length left) bytes
kept_bytes bytes too_many_mutations left = take (length bytes - length left) bytes
kept_bytes bytes field_too_long left = take (length bytes - length left) bytes

abbrev pub tail_of_scan : Bytes → Option Scan → Option (ℕ × Bytes)
tail_of_scan bytes none = none
tail_of_scan bytes (some s) = some (last_batch 0 s.batches, kept_bytes bytes s.error s.left)

-- recoverSegmentTail: the last sequence number, and the file as it leaves it
unfoldable pub recover_segment_tail : Bytes → Option (ℕ × Bytes)
unfolding scan_segment
recover_segment_tail bytes = tail_of_scan bytes (scan_segment bytes)

-- All segments but the last, and the last.
abbrev pub split_last : Segment → List Segment → List Segment × Segment
split_last s [] = ([], s)
split_last s (t ∷ segs) = let (before, last) = split_last t segs in (s ∷ before, last)

abbrev pub resume :
    EpochIndex → Disk → ℕ → ℕ → List Segment × Segment → Option (ℕ × Bytes) → Option ReplLog
resume i d chunk_bytes first_seg (before, last) none = none
resume i d chunk_bytes first_seg (before, last) (some (last_lsn, bytes)) = some (record {
  closed = before;
  active = record last { bytes = bytes };
  lines = d.lines;
  chunk_bytes = chunk_bytes;
  last_lsn = if last_lsn == 0 then add64 last.first_batch (2 ^ 64 - 1) else last_lsn;
  first_seg = first_seg;
  epochs = i.epochs;
  base_lsn = i.base_lsn;
  base_ep = i.base_ep;
})

abbrev pub open_files : EpochIndex → Disk → ℕ → List Segment → Option ReplLog
open_files i d chunk_bytes [] = some (record {
  closed = [];
  active = record { first_batch = add64 i.base_lsn 1; bytes = [] };
  lines = d.lines;
  chunk_bytes = chunk_bytes;
  last_lsn = i.base_lsn;
  first_seg = add64 i.base_lsn 1;
  epochs = i.epochs;
  base_lsn = i.base_lsn;
  base_ep = i.base_ep;
})
open_files i d chunk_bytes (s ∷ segs) =
    resume i d chunk_bytes s.first_batch (split_last s segs)
      (recover_segment_tail (split_last s segs).1.bytes)

-- OpenReplLog
unfoldable pub open_repl_log : ℕ → Disk → Option ReplLog
unfolding load_epochs recover_segment_tail
open_repl_log chunk_bytes d = open_files (load_epochs no_epochs d.lines) d chunk_bytes d.files

abbrev pub next_first : Segment → List Segment → ℕ
next_first active [] = active.first_batch
next_first active (s ∷ segs) = s.first_batch

-- The loop of Truncate: the segments that stay and firstSeg.
unfoldable pub truncate_closed : ℕ → Segment → List Segment → ℕ → List Segment × ℕ
truncate_closed floor active [] first_seg = ([], first_seg)
truncate_closed floor active (s ∷ segs) first_seg =
    if leb (next_first active segs) floor
    then truncate_closed floor active segs (next_first active segs)
    else (
      s ∷ (truncate_closed floor active segs first_seg).0,
      (truncate_closed floor active segs first_seg).1,
    )

unfoldable pub truncate : ℕ → ReplLog → ReplLog
unfolding truncate_closed
truncate floor l = record l {
  closed = (truncate_closed floor l.active l.closed l.first_seg).0;
  first_seg = (truncate_closed floor l.active l.closed l.first_seg).1;
}
