-- ===== src/Filestore/Replication/Wire.antt =====
-- EncodeBatch and DecodeBatch of corndogs/server/store/filestore/replication.go. A writer is the bytes
-- that it has taken, and a reader is the bytes that it has left.
pub mod RoundTrip
pub mod Torn
use corndogs.Prelude.{
  ℕ, zero, suc, ◌+◌, ◌%◌, ◌^◌, ◌≡◌, Bool, true, false, List, [], ◌∷◌, ◌++◌, Option, none, some,
  if◌then◌else◌, ◌==◌, ltb, length,
}
use corndogs.Bytes.{Bytes, be, of_be}
use corndogs.Filestore.Tx.{Mutation}
use corndogs.Filestore.Replication.{MutationBatch}

abbrev pub flag : Bool → ℕ
flag true = 1
flag false = 0

unfoldable pub encode_field : Bytes → Bytes
encode_field f = be 4 (length f) ++ f

unfoldable pub encode_mutation : Mutation → Bytes
unfolding encode_field
encode_mutation m =
    flag m.delete ∷ (encode_field m.bucket ++ (encode_field m.key ++ encode_field m.value))

unfoldable pub encode_mutations : List Mutation → Bytes
unfolding encode_mutation
encode_mutations [] = []
encode_mutations (m ∷ ms) = encode_mutation m ++ encode_mutations ms

unfoldable pub encode_batch : MutationBatch → Bytes
unfolding encode_mutations
encode_batch b = be 8 b.lsn ++ (be 4 (length b.mutations) ++ encode_mutations b.mutations)

-- maxBatchMutations and maxMutationField
abbrev pub max_batch_mutations : ℕ
max_batch_mutations = 2 ^ 24

abbrev pub max_mutation_field : ℕ
max_mutation_field = 2 ^ 31

-- io.EOF, io.ErrUnexpectedEOF, and the two limits
pub data DecodeError : Type 0 where
  end_of_input : DecodeError
  unexpected_end : DecodeError
  too_many_mutations : DecodeError
  field_too_long : DecodeError

-- What was read and what is left, or the error.
pub data Decoded (A : Type 0) : Type 0 where
  decoded : (a : A) → (rest : Bytes) → Decoded A
  failed : (error : DecodeError) → Decoded A

abbrev pub cons_first : ℕ → Option (Bytes × Bytes) → Option (Bytes × Bytes)
cons_first x none = none
cons_first x (some (taken, rest)) = some (x ∷ taken, rest)

-- io.ReadFull of `n` bytes; `none` where the input ends before
unfoldable pub read_full : ℕ → Bytes → Option (Bytes × Bytes)
read_full zero r = some ([], r)
read_full (suc n) [] = none
read_full (suc n) (x ∷ r) = cons_first x (read_full n r)

module _ {A : Type 0} where
  -- `if err != nil { return unexpected(err) }` after a read
  abbrev pub and_read : Option (Bytes × Bytes) → (Bytes → Bytes → Decoded A) → Decoded A
  and_read none k = failed unexpected_end
  and_read (some (taken, rest)) k = k taken rest

  abbrev pub and_decode : {B : Type 0} → Decoded B → (B → Bytes → Decoded A) → Decoded A
  and_decode (failed x) k = failed x
  and_decode (decoded b rest) k = k b rest

abbrev pub field_data : ℕ → Bytes → Decoded Bytes
field_data n r =
    if ltb max_mutation_field n
    then failed field_too_long
    else and_read (read_full n r) (λ taken rest. decoded taken rest)

abbrev pub after_length : Bytes → Bytes → Decoded Bytes
after_length l r = field_data (of_be 0 l) r

unfoldable pub read_field : Bytes → Decoded Bytes
unfolding read_full
read_field r = and_read (read_full 4 r) after_length

-- The mutation once its three fields are there, and before.
abbrev pub after_value : Bytes → Bytes → Bytes → Bytes → Bytes → Decoded Mutation
after_value fl bucket key value r =
    decoded (record { delete = of_be 0 fl % 2 == 1; bucket = bucket; key = key; value = value }) r

abbrev pub after_key : Bytes → Bytes → Bytes → Bytes → Decoded Mutation
after_key fl bucket key r = and_decode (read_field r) (after_value fl bucket key)

abbrev pub after_bucket : Bytes → Bytes → Bytes → Decoded Mutation
after_bucket fl bucket r = and_decode (read_field r) (after_key fl bucket)

abbrev pub after_flags : Bytes → Bytes → Decoded Mutation
after_flags fl r = and_decode (read_field r) (after_bucket fl)

unfoldable pub read_mutation : Bytes → Decoded Mutation
unfolding read_full
read_mutation r = and_read (read_full 1 r) after_flags

abbrev pub cons_decoded : Mutation → List Mutation → Bytes → Decoded (List Mutation)
cons_decoded m ms r = decoded (m ∷ ms) r

unfoldable pub read_mutations : ℕ → Bytes → Decoded (List Mutation)
unfolding read_mutation
read_mutations zero r = decoded [] r
read_mutations (suc n) r =
    and_decode (read_mutation r) (λ m r1. and_decode (read_mutations n r1) (cons_decoded m))

abbrev pub batch_end : ℕ → List Mutation → Bytes → Decoded MutationBatch
batch_end lsn ms r = decoded (record { lsn = lsn; epoch = 0; mutations = ms }) r

abbrev pub batch_mutations : ℕ → ℕ → Bytes → Decoded MutationBatch
batch_mutations lsn n r =
    if ltb max_batch_mutations n
    then failed too_many_mutations
    else and_decode (read_mutations n r) (batch_end lsn)

abbrev pub after_count : ℕ → Bytes → Bytes → Decoded MutationBatch
after_count lsn cnt r = batch_mutations lsn (of_be 0 cnt) r

abbrev pub after_lsn : Bytes → Option (Bytes × Bytes) → Decoded MutationBatch
after_lsn [] none = failed end_of_input
after_lsn (x ∷ r) none = failed unexpected_end
after_lsn r (some (head, r1)) = and_read (read_full 4 r1) (after_count (of_be 0 head))

unfoldable pub decode_batch : Bytes → Decoded MutationBatch
unfolding read_full read_mutations
decode_batch r = after_lsn r (read_full 8 r)
