-- ===== src/Filestore/Replication/Wire/Torn.antt =====
-- What the decoder makes of the first part of an encoded batch, as a torn log tail leaves it.
use corndogs.Prelude.{
  ℕ, zero, suc, ◌≤◌, ◌≡◌, refl, ap, sym, subst, ◌∙◌, [], ◌∷◌, ◌++◌, append-nil, Option, none, some,
  length, length-append, ltb, All, arith, Bool-cases, inl, inr,
}
use corndogs.Bytes.{Bytes, IsWord64, of_be}
use corndogs.Filestore.Replication.{MutationBatch}
use corndogs.Filestore.Replication.Wire.{
  encode_batch, max_batch_mutations, max_mutation_field, DecodeError, end_of_input, unexpected_end,
  too_many_mutations, field_too_long, Decoded, decoded, failed, read_full, cons_first, and_read,
  and_decode, field_data, after_length, after_flags, after_bucket, after_key, cons_decoded,
  batch_end, batch_mutations, after_count, after_lsn, read_field, read_mutation, read_mutations,
  decode_batch,
}
use corndogs.Filestore.Replication.Wire.RoundTrip.{Fits, decode-encode_batch}

-- `more` reads what `fewer` read, with `q` behind it: `fewer` only lacks input or is the same result.
abbrev Extends : {A : Type 0} → Bytes → Decoded A → Decoded A → Type 0
Extends q (decoded a r) more = more ≡ decoded a (r ++ q)
Extends q (failed unexpected_end) more = Unit
Extends q (failed end_of_input) more = ⊥
Extends q (failed too_many_mutations) more = more ≡ failed too_many_mutations
Extends q (failed field_too_long) more = more ≡ failed field_too_long

abbrev ExtendsRead : Bytes → Option (Bytes × Bytes) → Option (Bytes × Bytes) → Type 0
ExtendsRead q none more = Unit
ExtendsRead q (some (s, r)) more = more ≡ some (s, r ++ q)

cons_first-ExtendsRead :
    (q : Bytes) (x : ℕ) (o o' : Option (Bytes × Bytes))
    → ExtendsRead q o o'
    → ExtendsRead q (cons_first x o) (cons_first x o')
cons_first-ExtendsRead q x none o' h = tt
cons_first-ExtendsRead q x (some (s, r)) o' h = ap (cons_first x) h

read_full-ExtendsRead : (n : ℕ) (p q : Bytes) → ExtendsRead q (read_full n p) (read_full n (p ++ q))
unfolding read_full
read_full-ExtendsRead zero p q = refl
read_full-ExtendsRead (suc n) [] q = tt
read_full-ExtendsRead (suc n) (x ∷ p) q =
    cons_first-ExtendsRead q x (read_full n p) (read_full n (p ++ q)) (read_full-ExtendsRead n p q)

module _ {A : Type 0} where
  and_read-Extends :
      (q : Bytes) (k : Bytes → Bytes → Decoded A) (o o' : Option (Bytes × Bytes))
      → ExtendsRead q o o'
      → ((s r : Bytes) → Extends q (k s r) (k s (r ++ q)))
      → Extends q (and_read o k) (and_read o' k)
  and_read-Extends q k none o' h c = tt
  and_read-Extends q k (some (s, r)) o' h c =
      subst (λ x. Extends q (k s r) (and_read x k)) (sym h) (c s r)

  and_decode-Extends :
      {B : Type 0} (q : Bytes) (k : B → Bytes → Decoded A) (d d' : Decoded B)
      → Extends q d d'
      → ((b : B) (r : Bytes) → Extends q (k b r) (k b (r ++ q)))
      → Extends q (and_decode d k) (and_decode d' k)
  and_decode-Extends q k (decoded b r) d' h c =
      subst (λ x. Extends q (k b r) (and_decode x k)) (sym h) (c b r)
  and_decode-Extends q k (failed unexpected_end) d' h c = tt
  and_decode-Extends q k (failed end_of_input) d' h c = h
  and_decode-Extends q k (failed too_many_mutations) d' h c = ap (λ d. and_decode d k) h
  and_decode-Extends q k (failed field_too_long) d' h c = ap (λ d. and_decode d k) h

field_data-Extends : (n : ℕ) (p q : Bytes) → Extends q (field_data n p) (field_data n (p ++ q))
field_data-Extends n p q = elim (Bool-cases (ltb max_mutation_field n)) [
  | inl t ↦ rw t refl
  | inr t ↦ rw t (
      and_read-Extends q (λ s r. decoded s r) (read_full n p) (read_full n (p ++ q))
        (read_full-ExtendsRead n p q) (λ s r. refl))
]

read_field-Extends : (p q : Bytes) → Extends q (read_field p) (read_field (p ++ q))
unfolding read_field
read_field-Extends p q =
    and_read-Extends q after_length (read_full 4 p) (read_full 4 (p ++ q))
      (read_full-ExtendsRead 4 p q) (λ l r. field_data-Extends (of_be 0 l) r q)

read_mutation-Extends : (p q : Bytes) → Extends q (read_mutation p) (read_mutation (p ++ q))
unfolding read_mutation
read_mutation-Extends p q =
    and_read-Extends q after_flags (read_full 1 p) (read_full 1 (p ++ q))
      (read_full-ExtendsRead 1 p q)
      (λ fl r1.
        and_decode-Extends q (after_bucket fl) (read_field r1) (read_field (r1 ++ q))
          (read_field-Extends r1 q)
          (λ b r2.
            and_decode-Extends q (after_key fl b) (read_field r2) (read_field (r2 ++ q))
              (read_field-Extends r2 q)
              (λ k r3.
                and_decode-Extends q _ (read_field r3) (read_field (r3 ++ q))
                  (read_field-Extends r3 q) (λ v r4. refl))))

read_mutations-Extends :
    (n : ℕ) (p q : Bytes) → Extends q (read_mutations n p) (read_mutations n (p ++ q))
unfolding read_mutations
read_mutations-Extends zero p q = refl
read_mutations-Extends (suc n) p q =
    and_decode-Extends q _ (read_mutation p) (read_mutation (p ++ q)) (read_mutation-Extends p q)
      (λ m r.
        and_decode-Extends q (cons_decoded m) (read_mutations n r) (read_mutations n (r ++ q))
          (read_mutations-Extends n r q) (λ ms r'. refl))

batch_mutations-Extends :
    (lsn n : ℕ) (p q : Bytes) → Extends q (batch_mutations lsn n p) (batch_mutations lsn n (p ++ q))
batch_mutations-Extends lsn n p q = elim (Bool-cases (ltb max_batch_mutations n)) [
  | inl t ↦ rw t refl
  | inr t ↦ rw t (
      and_decode-Extends q (batch_end lsn) (read_mutations n p) (read_mutations n (p ++ q))
        (read_mutations-Extends n p q) (λ ms r. refl))
]

after_lsn-Extends :
    (x : ℕ) (p q : Bytes) (o o' : Option (Bytes × Bytes))
    → ExtendsRead q o o'
    → Extends q (after_lsn (x ∷ p) o) (after_lsn ((x ∷ p) ++ q) o')
after_lsn-Extends x p q none o' h = tt
after_lsn-Extends x p q (some (head, r)) o' h =
    subst (λ o. Extends q (after_lsn (x ∷ p) (some (head, r))) (after_lsn ((x ∷ p) ++ q) o)) (sym h)
      (and_read-Extends q (after_count (of_be 0 head)) (read_full 4 r) (read_full 4 (r ++ q))
        (read_full-ExtendsRead 4 r q)
        (λ cnt r2. batch_mutations-Extends (of_be 0 head) (of_be 0 cnt) r2 q))

decode_batch-Extends :
    (x : ℕ) (p q : Bytes) → Extends q (decode_batch (x ∷ p)) (decode_batch ((x ∷ p) ++ q))
unfolding decode_batch
decode_batch-Extends x p q =
    after_lsn-Extends x p q (read_full 8 (x ∷ p)) (read_full 8 ((x ∷ p) ++ q))
      (read_full-ExtendsRead 8 (x ∷ p) q)

-- The error of a torn batch.
abbrev pub torn_error : Bytes → DecodeError
torn_error [] = end_of_input
torn_error (x ∷ p) = unexpected_end

abbrev left_over : {A : Type 0} → Decoded A → ℕ
left_over (decoded a r) = suc (length r)
left_over (failed x) = 0

torn_result :
    (b : MutationBatch) (y : ℕ) (q : Bytes) (d d' : Decoded MutationBatch)
    → Extends (y ∷ q) d d'
    → d' ≡ decoded b []
    → d ≡ failed unexpected_end
torn_result b y q (decoded a r) d' h e =
    absurd (omega (arith, ap left_over (sym h ∙ e), length-append r (y ∷ q)))
torn_result b y q (failed unexpected_end) d' h e = refl
torn_result b y q (failed end_of_input) d' h e = elim h [ ]
torn_result b y q (failed too_many_mutations) d' h e =
    absurd (omega (arith, ap left_over (sym h ∙ e)))
torn_result b y q (failed field_too_long) d' h e = absurd (omega (arith, ap left_over (sym h ∙ e)))

-- The first part `p` of an encoded batch within the limits, with something missing, does not decode. The
-- error is the clean end of the input exactly when `p` is empty.
pub decode_batch_torn :
    (b : MutationBatch) (p : Bytes) (y : ℕ) (q : Bytes)
    → encode_batch b ≡ p ++ y ∷ q
    → IsWord64 b.lsn
    → length b.mutations ≤ max_batch_mutations
    → All Fits b.mutations
    → decode_batch p ≡ failed (torn_error p)
decode_batch_torn b [] y q e hl hn hm = unfold decode_batch read_full in refl
decode_batch_torn b (x ∷ p) y q e hl hn hm =
    torn_result (record b { epoch = 0 }) y q (decode_batch (x ∷ p))
      (decode_batch ((x ∷ p) ++ y ∷ q)) (decode_batch-Extends x p (y ∷ q))
      (ap decode_batch (sym e ∙ sym (append-nil (encode_batch b)))
        ∙ decode-encode_batch b [] hl hn hm)
