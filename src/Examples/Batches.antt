-- ===== src/Examples/Batches.antt =====
-- A batch of two mutations, and the theorems about the batch codec at it.
use corndogs.Prelude.{◌≡◌, refl, true, false, [], ◌∷◌, ◌++◌, arith}
use corndogs.Bytes.{Bytes, be}
use corndogs.Filestore.Tx.{bucket_tasks}
use corndogs.Filestore.Replication.{MutationBatch}
use corndogs.Filestore.Replication.Wire.{
  encode_batch, encode_mutations, decode_batch, decoded, failed,
}
use corndogs.Filestore.Replication.Wire.RoundTrip.{decode-encode_batch}
use corndogs.Filestore.Replication.Wire.Torn.{torn_error, decode_batch_torn}

abbrev small_batch : MutationBatch
small_batch = record {
  lsn = 7;
  epoch = 513;
  mutations =
      record { bucket = bucket_tasks; key = 1 ∷ []; value = 2 ∷ 3 ∷ []; delete = false }
      ∷ record { bucket = bucket_tasks; key = 4 ∷ []; value = []; delete = true }
      ∷ [];
}

decode-encode_batch_example :
    decode_batch (encode_batch small_batch ++ 9 ∷ [])
    ≡ decoded (record small_batch { epoch = 0 }) (9 ∷ [])
decode-encode_batch_example =
    decode-encode_batch small_batch (9 ∷ []) (omega arith) (omega arith)
      ((omega arith, omega arith, omega arith), ((omega arith, omega arith, omega arith), tt))

-- The first three bytes of the sequence number.
abbrev torn_head : Bytes
torn_head = 0 ∷ 0 ∷ 0 ∷ []

abbrev torn_rest : Bytes
torn_rest = 0 ∷ 0 ∷ 0 ∷ 7 ∷ 0 ∷ 0 ∷ 0 ∷ 2 ∷ []

decode_batch_torn_example : decode_batch torn_head ≡ failed (torn_error torn_head)
unfolding encode_batch be
decode_batch_torn_example =
    decode_batch_torn small_batch torn_head 0 (torn_rest ++ encode_mutations small_batch.mutations)
      refl (omega arith) (omega arith)
      ((omega arith, omega arith, omega arith), ((omega arith, omega arith, omega arith), tt))
