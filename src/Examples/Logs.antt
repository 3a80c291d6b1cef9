-- ===== src/Examples/Logs.antt =====
-- A replication log with two batches, and the theorems about it.
use corndogs.Prelude.{ℕ, ◌+◌, ◌^◌, ◌<◌, ◌≡◌, refl, List, [], ◌∷◌, none, some, false, arith}
use corndogs.Bytes.{Bytes}
use corndogs.Filestore.Tx.{bucket_tasks}
use corndogs.Filestore.Replication.{MutationBatch}
use corndogs.Filestore.Replication.Wire.{encode_batch}
use corndogs.Filestore.ReplLog.{ReplLog, Replay, append, reset, read_from, epoch_at}
use corndogs.Filestore.ReplLog.Open.{truncate}
use corndogs.Filestore.ReplLog.Frames.{FitsBatch}
use corndogs.Filestore.ReplLog.Truncated.{read_from-truncate}
use corndogs.Filestore.ReplLog.Total.{read_from-Returns}
use corndogs.Filestore.ReplLog.ReadBack.{append_all, later_than, append_all-read_from}
use corndogs.Filestore.ReplLog.FirstEpoch.{append-epoch_at}

-- A batch that puts one task.
abbrev pub task_batch : ℕ → ℕ → MutationBatch
task_batch n tag = record {
  lsn = n;
  epoch = tag;
  mutations = record { bucket = bucket_tasks; key = 1 ∷ []; value = 2 ∷ []; delete = false } ∷ [];
}

-- Segments of at least 20 bytes.
abbrev pub small_log : ReplLog
small_log = record {
  closed = [];
  active = record { first_batch = 1; bytes = [] };
  lines = [];
  chunk_bytes = 20;
  last_lsn = 0;
  first_seg = 1;
  epochs = [];
  base_lsn = 0;
  base_ep = 0;
}

abbrev two_batches : List MutationBatch
two_batches = task_batch 5 513 ∷ task_batch 6 769 ∷ []

fits_5 : FitsBatch (task_batch 5 513)
fits_5 = (omega arith, omega arith, ((omega arith, omega arith, omega arith), tt))

fits_6 : FitsBatch (task_batch 6 769)
fits_6 = (omega arith, omega arith, ((omega arith, omega arith, omega arith), tt))

append_all-read_from_example :
    (l' : ReplLog) × (append_all two_batches (reset 5 257 small_log) ≡ some l')
    × ((after : ℕ)
        → after + 1 < 2 ^ 64
        → read_from after l'
          ≡ some (record { given = later_than after two_batches; failure = none }))
append_all-read_from_example =
    append_all-read_from 5 257 small_log two_batches (omega arith) (refl, (refl, tt))
      (fits_5, (fits_6, tt)) (λ e. absurd (omega (arith, e)))

-- The first bytes of a batch that starts a segment and an epoch.
abbrev torn_start : Bytes
torn_start = 0 ∷ 0 ∷ 0 ∷ []

read_from-Returns_example : (r : Replay) × (read_from 4 small_log ≡ some r)
read_from-Returns_example = read_from-Returns 4 small_log

-- Batches 1 to 5 in a closed segment.
abbrev cut_log : ReplLog
cut_log = record small_log {
  closed = record { first_batch = 1; bytes = encode_batch (task_batch 5 513) } ∷ [];
  active = record { first_batch = 6; bytes = [] };
  last_lsn = 5;
}

read_from-truncate_example : read_from 5 (truncate 6 cut_log) ≡ read_from 5 cut_log
read_from-truncate_example = read_from-truncate 5 6 cut_log (omega arith)

append-epoch_at_example :
    (l' : ReplLog) × (append (task_batch 5 513) (reset 5 513 small_log) ≡ some l')
    × (epoch_at l' 5 ≡ some 0)
append-epoch_at_example =
    append-epoch_at 5 513 small_log (task_batch 5 513) (omega arith) refl fits_5 refl
