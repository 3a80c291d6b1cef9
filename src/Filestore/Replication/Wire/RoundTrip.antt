-- ===== src/Filestore/Replication/Wire/RoundTrip.antt =====
-- An encoded batch decodes to itself, and a torn one never decodes.
use corndogs.Prelude.{
  ℕ, suc, ◌%◌, ◌^◌, ◌≤◌, ◌<◌, ◌≡◌, refl, ap, subst, ◌∙◌, Bool, true, false, List, [], ◌∷◌, ◌++◌,
  append_assoc, some, ◌==◌, ltb, length, All, arith,
}
use corndogs.Bytes.{Bytes, IsWord64, be, of_be}
use corndogs.Bytes.BigEndian.{length-be_onto, of_be-be_onto}
use corndogs.Filestore.Tx.{Mutation}
use corndogs.Filestore.Replication.{MutationBatch}
use corndogs.Filestore.Replication.Wire.{
  flag, encode_field, encode_mutation, encode_mutations, encode_batch, max_batch_mutations,
  max_mutation_field, Decoded, decoded, read_full, cons_first, and_read, and_decode, field_data,
  after_length, after_flags, after_bucket, after_key, after_value, cons_decoded, after_count,
  read_field, read_mutation, read_mutations, batch_mutations, after_lsn, decode_batch,
}

pub read_full-append : (s rest : Bytes) → read_full (length s) (s ++ rest) ≡ some (s, rest)
unfolding read_full
read_full-append [] rest = refl
read_full-append (x ∷ xs) rest = ap (cons_first x) (read_full-append xs rest)

-- The next `n` bytes are the word that was written.
pub read_word : (n v : ℕ) (rest : Bytes) → read_full n (be n v ++ rest) ≡ some (be n v, rest)
unfolding be
read_word n v rest =
    subst (λ k. read_full k (be n v ++ rest) ≡ some (be n v, rest))
      (length-be_onto n v [] ∙ omega arith) (read_full-append (be n v) rest)

pub of_be-be : (n v : ℕ) → v < 256 ^ n → of_be 0 (be n v) ≡ v
unfolding be
of_be-be n v h = of_be-be_onto n 0 v [] h ∙ unfold of_be in omega arith

read_field-encode_field :
    (f rest : Bytes)
    → length f ≤ max_mutation_field
    → read_field (encode_field f ++ rest) ≡ decoded f rest
unfolding read_field encode_field
read_field-encode_field f rest h =
    ap read_field_of (append_assoc (be 4 (length f)) f rest)
    ∙ (ap (λ r. and_read r after_length) (read_word 4 (length f) (f ++ rest))
        ∙ (ap (λ n. field_data n (f ++ rest)) (of_be-be 4 (length f) (omega arith))
            ∙ rw (fits, read_full-append f rest) refl))
  where
    read_field_of : Bytes → Decoded Bytes
    read_field_of r = and_read (read_full 4 r) after_length

    fits : ltb max_mutation_field (length f) ≡ false
    fits = ground arith

abbrev pub Fits : Mutation → Type 0
Fits m =
    (length m.bucket ≤ max_mutation_field)
    × (length m.key ≤ max_mutation_field)
    × (length m.value ≤ max_mutation_field)

flag-parity : (d : Bool) → (of_be 0 (flag d ∷ []) % 2 == 1) ≡ d
unfolding of_be
flag-parity true = refl
flag-parity false = refl

read_mutation-encode_mutation :
    (m : Mutation) (rest : Bytes)
    → Fits m
    → read_mutation (encode_mutation m ++ rest) ≡ decoded m rest
unfolding read_mutation encode_mutation read_full
read_mutation-encode_mutation m rest h =
    let k : Bytes = encode_field m.key in
    let v : Bytes = encode_field m.value in
    let fl : Bytes = flag m.delete ∷ [] in
    ap (after_flags fl) (
      append_assoc (encode_field m.bucket) (k ++ v) rest
      ∙ ap (λ r. encode_field m.bucket ++ r) (append_assoc k v rest))
    ∙ (ap (λ d. and_decode d (after_bucket fl))
          (read_field-encode_field m.bucket (k ++ (v ++ rest)) h.0)
        ∙ (ap (λ d. and_decode d (after_key fl m.bucket))
              (read_field-encode_field m.key (v ++ rest) h.1)
            ∙ (ap (λ d. and_decode d (after_value fl m.bucket m.key))
                  (read_field-encode_field m.value rest h.2)
                ∙ ap (λ x. decoded (record m { delete = x }) rest) (flag-parity m.delete))))

read_mutations-encode_mutations :
    (ms : List Mutation) (rest : Bytes)
    → All Fits ms
    → read_mutations (length ms) (encode_mutations ms ++ rest) ≡ decoded ms rest
unfolding read_mutations encode_mutations
read_mutations-encode_mutations [] rest h = refl
read_mutations-encode_mutations (m ∷ ms) rest h =
    ap (read_mutations (suc (length ms)))
      (append_assoc (encode_mutation m) (encode_mutations ms) rest)
    ∙ (ap
          (λ d.
            and_decode d (λ m1 r1. and_decode (read_mutations (length ms) r1) (cons_decoded m1)))
          (read_mutation-encode_mutation m (encode_mutations ms ++ rest) h.0)
        ∙ ap (λ d. and_decode d (cons_decoded m)) (read_mutations-encode_mutations ms rest h.1))

pub after_lsn-some :
    (r head r1 : Bytes)
    → after_lsn r (some (head, r1)) ≡ and_read (read_full 4 r1) (after_count (of_be 0 head))
after_lsn-some [] head r1 = refl
after_lsn-some (x ∷ r) head r1 = refl

batch_lem :
    (b : MutationBatch) (rest : Bytes)
    → IsWord64 b.lsn
    → length b.mutations ≤ max_batch_mutations
    → All Fits b.mutations
    → after_count
        (of_be 0 (be 8 b.lsn))
        (be 4 (length b.mutations))
        (encode_mutations b.mutations ++ rest)
      ≡ decoded (record b { epoch = 0 }) rest
batch_lem b rest hl hn hm =
    let r : Bytes = encode_mutations b.mutations ++ rest in
    let fits : ltb max_batch_mutations (length b.mutations) ≡ false = ground arith in
    ap (λ l. after_count l (be 4 (length b.mutations)) r) (of_be-be 8 b.lsn hl)
    ∙ (ap (λ n. batch_mutations b.lsn n r) (of_be-be 4 (length b.mutations) (omega arith))
        ∙ rw (fits, read_mutations-encode_mutations b.mutations rest hm) refl)

-- A batch within the limits of the decoder decodes to itself without its epoch, whatever follows it, and
-- leaves what follows.
pub decode-encode_batch :
    (b : MutationBatch) (rest : Bytes)
    → IsWord64 b.lsn
    → length b.mutations ≤ max_batch_mutations
    → All Fits b.mutations
    → decode_batch (encode_batch b ++ rest) ≡ decoded (record b { epoch = 0 }) rest
unfolding decode_batch encode_batch
decode-encode_batch b rest hl hn hm =
    let ms : Bytes = encode_mutations b.mutations in
    let cnt : Bytes = be 4 (length b.mutations) in
    ap decode_batch (
      append_assoc (be 8 b.lsn) (cnt ++ ms) rest
      ∙ ap (λ r. be 8 b.lsn ++ r) (append_assoc cnt ms rest))
    ∙ (ap (after_lsn (be 8 b.lsn ++ (cnt ++ (ms ++ rest))))
          (read_word 8 b.lsn (cnt ++ (ms ++ rest)))
        ∙ (after_lsn-some (be 8 b.lsn ++ (cnt ++ (ms ++ rest))) (be 8 b.lsn) (cnt ++ (ms ++ rest))
            ∙ (ap (λ r. and_read r (after_count (of_be 0 (be 8 b.lsn))))
                  (read_word 4 (length b.mutations) (ms ++ rest))
                ∙ batch_lem b rest hl hn hm)))
