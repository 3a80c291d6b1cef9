-- ===== src/Filestore/ReplLog.antt =====
-- The replication log of corndogs/server/store/filestore/repllog.go. The directory is its segment files in
-- the order of the numbers in their names, and the lines of the epoch index. A file operation succeeds.
pub mod Open
pub mod Frames
pub mod Recover
pub mod Chunks
pub mod Epochs
pub mod Appended
pub mod ReadBack
pub mod FirstEpoch
pub mod Loaded
pub mod Files
pub mod Reopen
pub mod Total
pub mod Truncated
use corndogs.Prelude.{
  ℕ, zero, suc, ◌+◌, ◌-◌, ◌^◌, ◌≡◌, Bool, true, false, not, ◌&&◌, ◌||◌, List, [], ◌∷◌, ◌++◌, Option,
  none, some, if◌then◌else◌, ◌==◌, ltb, leb, length,
}
use corndogs.Bytes.{Bytes}
use corndogs.Filestore.Task.{add64}
use corndogs.Filestore.Replication.{MutationBatch}
use corndogs.Filestore.Replication.Wire.{
  encode_batch, decode_batch, DecodeError, end_of_input, unexpected_end, too_many_mutations,
  field_too_long, Decoded, decoded, failed,
}

-- A segment file: the number in its name and its bytes.
pub record Segment : Type 0 where
  pub first_batch : ℕ
  pub bytes : Bytes

-- epochStart
pub record EpochStart : Type 0 where
  pub first : ℕ
  pub ep : ℕ

-- A line of the epoch index, "base <lsn> <epoch>" or "<first> <epoch>".
pub data EpochLine : Type 0 where
  base_line : (lsn : ℕ) → (epoch : ℕ) → EpochLine
  start_line : (first_lsn : ℕ) → (epoch : ℕ) → EpochLine

-- The active segment is the last; its number is firstSeq and its size curBytes.
pub record ReplLog : Type 0 where
  pub closed : List Segment
  pub active : Segment
  pub lines : List EpochLine
  pub chunk_bytes : ℕ
  pub last_lsn : ℕ
  pub first_seg : ℕ
  pub epochs : List EpochStart
  pub base_lsn : ℕ
  pub base_ep : ℕ

-- firstLSNLocked
unfoldable pub first_lsn : ReplLog → ℕ
first_lsn l =
    if l.first_seg == 0 || ltb l.last_lsn l.first_seg then add64 l.last_lsn 1 else l.first_seg

-- The loop of epochAtLocked, and of withEpoch in ReadFrom.
unfoldable pub last_start : ℕ → ℕ → List EpochStart → ℕ
last_start lsn ep [] = ep
last_start lsn ep (e ∷ es) =
    let later = last_start lsn e.ep es in if ltb lsn e.first then ep else later

-- epochAtLocked
unfoldable pub epoch_at : ReplLog → ℕ → Option ℕ
unfolding first_lsn last_start
epoch_at l lsn =
    if lsn == 0
    then some 0
    else if lsn == l.base_lsn
    then some l.base_ep
    else if ltb lsn l.base_lsn || (ltb l.last_lsn lsn || ltb lsn (first_lsn l))
    then none
    else some (last_start lsn 0 l.epochs)

abbrev known_epoch : Option ℕ → ℕ
known_epoch none = 0
known_epoch (some ep) = ep

-- LastEpoch
unfoldable pub log_epoch : ReplLog → ℕ
unfolding epoch_at
log_epoch l = known_epoch (epoch_at l l.last_lsn)

-- The steps of Append: a new segment if the active one is full, a line of the epoch index if the epoch
-- changes, and the batch.
unfoldable pub roll : MutationBatch → ReplLog → ReplLog
roll b l =
    if ltb 0 l.chunk_bytes && leb l.chunk_bytes (length l.active.bytes)
    then record l {
      closed = l.closed ++ l.active ∷ [];
      active = record { first_batch = b.lsn; bytes = [] };
    }
    else l

unfoldable pub note_epoch : MutationBatch → ReplLog → ReplLog
unfolding log_epoch
note_epoch b l = if b.epoch == log_epoch l then l else record l {
  lines = l.lines ++ start_line b.lsn b.epoch ∷ [];
  epochs = l.epochs ++ record { first = b.lsn; ep = b.epoch } ∷ [];
}

unfoldable pub write_frame : MutationBatch → ReplLog → ReplLog
unfolding encode_batch
write_frame b l = record l {
  active = record l.active { bytes = l.active.bytes ++ encode_batch b };
  last_lsn = b.lsn;
}

-- Append; `none` is the error on a sequence number that does not follow
unfoldable pub append : MutationBatch → ReplLog → Option ReplLog
unfolding roll note_epoch write_frame
append b l =
    if not (b.lsn == add64 l.last_lsn 1)
    then none
    else some (write_frame b (note_epoch b (roll b l)))

-- Reset
unfoldable pub reset : ℕ → ℕ → ReplLog → ReplLog
reset next_lsn base_epoch l =
    let next = if next_lsn == 0 then 1 else next_lsn in
    record {
      closed = [];
      active = record { first_batch = next; bytes = [] };
      lines = base_line (next - 1) base_epoch ∷ [];
      chunk_bytes = l.chunk_bytes;
      last_lsn = next - 1;
      first_seg = next;
      epochs = [];
      base_lsn = next - 1;
      base_ep = base_epoch;
    }

-- What a reader finds in a segment: the batches, the bytes from where it fails, and the error.
pub record Scan : Type 0 where
  pub batches : List MutationBatch
  pub left : Bytes
  pub error : DecodeError

abbrev pub cons_scan : MutationBatch → Option Scan → Option Scan
cons_scan b none = none
cons_scan b (some s) = some (record s { batches = b ∷ s.batches })

abbrev pub scan_step : Bytes → Decoded MutationBatch → (Bytes → Option Scan) → Option Scan
scan_step r (failed x) next = some (record { batches = []; left = r; error = x })
scan_step r (decoded b rest) next = cons_scan b (next rest)

-- The loop of replaySegment and recoverSegmentTail; `none` is a lack of fuel
unfoldable pub scan : ℕ → Bytes → Option Scan
unfolding decode_batch
scan zero r = none
scan (suc n) r = scan_step r (decode_batch r) (scan n)

-- Every batch takes bytes, so one round more than there are bytes is enough.
unfoldable pub scan_segment : Bytes → Option Scan
unfolding scan
scan_segment r = scan (suc (length r)) r

-- The end of the file ends the replay of a segment without an error.
abbrev pub replay_error : DecodeError → Option DecodeError
replay_error end_of_input = none
replay_error unexpected_end = none
replay_error too_many_mutations = some too_many_mutations
replay_error field_too_long = some field_too_long

-- withEpoch
abbrev pub with_epoch : List EpochStart → MutationBatch → MutationBatch
with_epoch epochs b = record b { epoch = last_start b.lsn b.epoch epochs }

abbrev pub newer : ℕ → List EpochStart → List MutationBatch → List MutationBatch
newer after epochs [] = []
newer after epochs (b ∷ bs) =
    let rest = newer after epochs bs in if leb b.lsn after then rest else with_epoch epochs b ∷ rest

-- The batches given to the function of ReadFrom, and the error with which it ends.
pub record Replay : Type 0 where
  pub given : List MutationBatch
  pub failure : Option DecodeError

abbrev pub then_replay : List MutationBatch → Option DecodeError → Option Replay → Option Replay
then_replay bs (some x) next = some (record { given = bs; failure = some x })
then_replay bs none none = none
then_replay bs none (some r) = some (record r { given = bs ++ r.given })

abbrev pub replay_scan : ℕ → List EpochStart → Option Scan → Option Replay → Option Replay
replay_scan after epochs none next = none
replay_scan after epochs (some s) next =
    then_replay (newer after epochs s.batches) (replay_error s.error) next

unfoldable pub replay_segments : ℕ → List EpochStart → List Segment → Option Replay
unfolding scan_segment last_start
replay_segments after epochs [] = some (record { given = []; failure = none })
replay_segments after epochs (s ∷ segs) =
    replay_scan after epochs (scan_segment s.bytes) (replay_segments after epochs segs)

abbrev pub some_starts : ℕ → List Segment → Bool
some_starts after [] = false
some_starts after (s ∷ segs) = leb s.first_batch (add64 after 1) || some_starts after segs

-- `seqs[start:]`, from the last segment that starts at `after + 1` or before
unfoldable pub from_start : ℕ → List Segment → List Segment
from_start after [] = []
from_start after (s ∷ segs) =
    let later = from_start after segs in if some_starts after segs then later else s ∷ segs

abbrev pub segments : ReplLog → List Segment
segments l = l.closed ++ l.active ∷ []

-- ReadFrom
unfoldable pub read_from : ℕ → ReplLog → Option Replay
unfolding replay_segments from_start
read_from after l = replay_segments after l.epochs (from_start after (segments l))
