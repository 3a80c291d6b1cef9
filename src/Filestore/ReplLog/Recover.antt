-- ===== src/Filestore/ReplLog/Recover.antt =====
-- A crash in the middle of a write to a segment.
use corndogs.Prelude.{
  length-append, ℕ, ◌-◌, ◌≡◌, refl, ap, ◌∙◌, List, [], ◌∷◌, ◌++◌, append-nil, some, length, take,
  All, arith,
}
use corndogs.Bytes.{Bytes}
use corndogs.Filestore.Replication.{MutationBatch}
use corndogs.Filestore.Replication.Wire.{encode_batch}
use corndogs.Filestore.Replication.Wire.Torn.{torn_error, decode_batch_torn}
use corndogs.Filestore.ReplLog.Open.{recover_segment_tail, tail_of_scan, last_batch, kept_bytes}
use corndogs.Filestore.ReplLog.Frames.{FitsBatch, encode_all, bare, scan_segment-encode_all}

last_batch-bare : (lsn : ℕ) (bs : List MutationBatch) → last_batch lsn (bare bs) ≡ last_batch lsn bs
last_batch-bare lsn [] = refl
last_batch-bare lsn (b ∷ bs) = last_batch-bare b.lsn bs

take-length : (a p : Bytes) → take (length a) (a ++ p) ≡ a
take-length [] p = refl
take-length (x ∷ a) p = ap (λ t. x ∷ t) (take-length a p)

take-append : (a p : Bytes) → take (length (a ++ p) - length p) (a ++ p) ≡ a
take-append a p =
    let e : (length (a ++ p) - length p) ≡ length a = omega (arith, length-append a p) in
    ap (λ n. take n (a ++ p)) e ∙ take-length a p

-- Either way the whole batches stay.
kept_bytes-torn : (a p : Bytes) → kept_bytes (a ++ p) (torn_error p) p ≡ a
kept_bytes-torn a [] = append-nil a
kept_bytes-torn a (x ∷ p) = take-append a (x ∷ p)

-- A segment that ends in a part `p` of a batch, which may be empty: recovery keeps the batches before
-- it, and only these, and gives the number of the last. The batches are within the limits of the codec.
pub recover_segment_tail-torn :
    (bs : List MutationBatch) (b : MutationBatch) (p : Bytes) (y : ℕ) (q : Bytes)
    → All FitsBatch bs
    → FitsBatch b
    → encode_batch b ≡ p ++ y ∷ q
    → recover_segment_tail (encode_all bs ++ p) ≡ some (last_batch 0 bs, encode_all bs)
unfolding recover_segment_tail
recover_segment_tail-torn bs b p y q k h e =
    ap (tail_of_scan (encode_all bs ++ p))
      (scan_segment-encode_all bs p (torn_error p) k (decode_batch_torn b p y q e h.0 h.1 h.2))
    ∙ rw (last_batch-bare 0 bs, kept_bytes-torn (encode_all bs) p) refl
