-- ===== src/Filestore/ReplLog/Frames.antt =====
-- Reading back the batches that were written to a segment.
use corndogs.Prelude.{
  length-append, ℕ, zero, suc, ◌≤◌, ◌<◌, ◌≡◌, refl, ap, List, [], ◌∷◌, ◌++◌, append_assoc, some,
  length, All, arith,
}
use corndogs.Bytes.BigEndian.{length-be_onto}
use corndogs.Bytes.{be_onto, be, Bytes, IsWord64}
use corndogs.Filestore.Replication.{MutationBatch}
use corndogs.Filestore.Replication.Wire.{
  encode_mutations, encode_batch, decode_batch, DecodeError, failed, max_batch_mutations,
}
use corndogs.Filestore.Replication.Wire.RoundTrip.{Fits, decode-encode_batch}
use corndogs.Filestore.ReplLog.{Scan, scan, scan_step, scan_segment}

-- The limits of the codec.
abbrev pub FitsBatch : MutationBatch → Type 0
FitsBatch b = IsWord64 b.lsn × (length b.mutations ≤ max_batch_mutations) × All Fits b.mutations

abbrev pub encode_all : List MutationBatch → Bytes
encode_all [] = []
encode_all (b ∷ bs) = encode_batch b ++ encode_all bs

-- A batch as it is in a segment, which holds no epochs.
abbrev pub bare : List MutationBatch → List MutationBatch
bare [] = []
bare (b ∷ bs) = record b { epoch = 0 } ∷ bare bs

-- What a reader finds behind the batches `bs`, where it fails.
abbrev pub found : List MutationBatch → Bytes → DecodeError → Scan
found bs p x = record { batches = bare bs; left = p; error = x }

scan-encode_all :
    (n : ℕ) (bs : List MutationBatch) (p : Bytes) (x : DecodeError)
    → length bs < n
    → All FitsBatch bs
    → decode_batch p ≡ failed x
    → scan n (encode_all bs ++ p) ≡ some (found bs p x)
unfolding scan
scan-encode_all zero bs p x h k e = absurd (omega arith)
scan-encode_all (suc n) [] p x h k e = ap (λ d. scan_step p d (scan n)) e
scan-encode_all (suc n) (b ∷ bs) p x h k e =
    rw
      (
        append_assoc (encode_batch b) (encode_all bs) p,
        decode-encode_batch b (encode_all bs ++ p) k.0.0 k.0.1 k.0.2,
        scan-encode_all n bs p x (omega arith) k.1 e,
      )
      refl

length-encode_batch : (b : MutationBatch) → 8 ≤ length (encode_batch b)
unfolding encode_batch be
length-encode_batch b = omega (
  arith,
  length-append (be_onto 8 b.lsn []) (be 4 (length b.mutations) ++ encode_mutations b.mutations),
  length-be_onto 8 b.lsn [],
)

length-encode_all : (bs : List MutationBatch) → length bs ≤ length (encode_all bs)
length-encode_all [] = omega arith
length-encode_all (b ∷ bs) = omega (
  arith,
  length-append (encode_batch b) (encode_all bs),
  length-encode_batch b,
  length-encode_all bs,
)

-- A segment of whole batches with `p` behind them, which does not decode.
pub scan_segment-encode_all :
    (bs : List MutationBatch) (p : Bytes) (x : DecodeError)
    → All FitsBatch bs
    → decode_batch p ≡ failed x
    → scan_segment (encode_all bs ++ p) ≡ some (found bs p x)
unfolding scan_segment
scan_segment-encode_all bs p x k e =
    scan-encode_all (suc (length (encode_all bs ++ p))) bs p x
      (omega (arith, length-append (encode_all bs) p, length-encode_all bs)) k e
