-- ===== src/Filestore/ReplLog/Files.antt =====
-- The files of a log as OpenReplLog of corndogs/server/store/filestore/repllog.go reads them.
use corndogs.Prelude.{
  ℕ, suc, ◌+◌, ◌-◌, ◌^◌, ◌<◌, ◌≡◌, refl, ap, List, [], ◌∷◌, ◌++◌, some, if◌then◌else◌, ◌==◌, length,
  arith,
}
use corndogs.Bytes.{Bytes, IsWord64}
use corndogs.Filestore.Task.{add64}
use corndogs.Filestore.Replication.{MutationBatch}
use corndogs.Filestore.ReplLog.{Segment, ReplLog}
use corndogs.Filestore.ReplLog.Open.{
  Disk, EpochIndex, last_batch, split_last, open_files, recover_segment_tail,
}
use corndogs.Filestore.ReplLog.Chunks.{segment_of, segments_of, joined, Numbered}

split_last-snoc :
    (s : Segment) (before : List Segment) (x : Segment)
    → split_last s (before ++ x ∷ []) ≡ (s ∷ before, x)
split_last-snoc s [] x = refl
split_last-snoc s (t ∷ before) x = ap (λ r. (s ∷ r.0, r.1)) (split_last-snoc t before x)

last_batch-Numbered :
    (n lsn : ℕ) (b : MutationBatch) (bs : List MutationBatch)
    → Numbered n (b ∷ bs)
    → suc (last_batch lsn (b ∷ bs)) ≡ n + length (b ∷ bs)
last_batch-Numbered n lsn b [] h = omega (arith, h.0)
last_batch-Numbered n lsn b (c ∷ bs) h = omega (arith, last_batch-Numbered (suc n) b.lsn c bs h.1)

-- What OpenReplLog sets the last number to, for a last segment that starts at `n`.
abbrev pub resumed_lsn : ℕ → ℕ → ℕ
resumed_lsn n lsn = if lsn == 0 then add64 n (2 ^ 64 - 1) else lsn

pub resumed_lsn-last :
    (n last : ℕ) (a : List MutationBatch)
    → Numbered n a
    → 0 < n
    → suc last ≡ n + length a
    → IsWord64 last
    → resumed_lsn n (last_batch 0 a) ≡ last
resumed_lsn-last n last [] h w e k = omega (arith, e, k)
resumed_lsn-last n last (b ∷ a) h w e k = ground (arith, last_batch-Numbered n 0 b a h, e)

-- The log of a directory whose last segment has been recovered.
abbrev pub opened : EpochIndex → Disk → ℕ → ℕ → List Segment → Segment → ReplLog
opened i d chunk_bytes first_seg before last = record {
  closed = before;
  active = last;
  lines = d.lines;
  chunk_bytes = chunk_bytes;
  last_lsn = 0;
  first_seg = first_seg;
  epochs = i.epochs;
  base_lsn = i.base_lsn;
  base_ep = i.base_ep;
}

pub open_files-segments_of :
    (i : EpochIndex) (d : Disk) (chunk_bytes n m lsn : ℕ) (cs : List (List MutationBatch))
    (bytes kept : Bytes)
    → m ≡ n + length (joined cs)
    → recover_segment_tail bytes ≡ some (lsn, kept)
    → open_files i d chunk_bytes
        (segments_of n cs ++ record { first_batch = m; bytes = bytes } ∷ [])
      ≡ some
          (record (opened i d chunk_bytes n
            (segments_of n cs)
            (record { first_batch = m; bytes = kept })) { last_lsn = resumed_lsn m lsn })
open_files-segments_of i d chunk_bytes n m lsn [] bytes kept w e =
    let k : m ≡ n = omega (arith, w) in
    rw e (
      ap
        (λ (j : ℕ).
          some (record (opened i d chunk_bytes j [] (record { first_batch = m; bytes = kept })) {
            last_lsn = resumed_lsn m lsn;
          }))
        k)
open_files-segments_of i d chunk_bytes n m lsn (c ∷ cs) bytes kept w e =
    rw
      (
        split_last-snoc (segment_of n c) (segments_of (n + length c) cs)
            (record { first_batch = m; bytes = bytes }),
        e,
      )
      refl
