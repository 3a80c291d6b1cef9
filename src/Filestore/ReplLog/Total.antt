-- ===== src/Filestore/ReplLog/Total.antt =====
-- The readers of a segment come to an end.
use corndogs.Prelude.{
  ℕ, zero, suc, ◌+◌, ◌≤◌, ◌<◌, ◌≡◌, refl, List, [], ◌∷◌, ◌++◌, Option, none, some, ltb, length,
  arith, Bool-cases, inl, inr,
}
use corndogs.Bytes.{Bytes, of_be}
use corndogs.Filestore.Replication.{MutationBatch}
use corndogs.Filestore.Replication.Wire.{
  Decoded, decoded, failed, read_full, cons_first, and_read, and_decode, field_data, after_length,
  after_flags, after_bucket, after_key, after_value, cons_decoded, after_count, after_lsn,
  read_field, read_mutation, read_mutations, batch_mutations, batch_end, decode_batch,
  max_mutation_field, max_batch_mutations,
}
use corndogs.Filestore.ReplLog.{
  replay_error, newer, DecodeError, end_of_input, Scan, scan, scan_step, cons_scan, scan_segment,
  Replay, replay_segments, then_replay, from_start, read_from, ReplLog, EpochStart, Segment,
  segments,
}

-- At least `n` bytes of `m` are gone.
abbrev Took : ℕ → ℕ → Option (Bytes × Bytes) → Type 0
Took n m none = Unit {0}
Took n m (some (taken, rest)) = n + length rest ≤ m

cons_first-Took :
    (n m x : ℕ) (o : Option (Bytes × Bytes)) → Took n m o → Took (suc n) (suc m) (cons_first x o)
cons_first-Took n m x none h = tt
cons_first-Took n m x (some (taken, rest)) h = omega (arith, h)

read_full-Took : (n : ℕ) (r : Bytes) → Took n (length r) (read_full n r)
unfolding read_full
read_full-Took zero r = omega arith
read_full-Took (suc n) [] = tt
read_full-Took (suc n) (x ∷ r) = cons_first-Took n (length r) x (read_full n r) (read_full-Took n r)

module _ {A : Type 0} where
  -- At most `m` bytes are left.
  abbrev Leaves : ℕ → Decoded A → Type 0
  Leaves m (failed x) = Unit {0}
  Leaves m (decoded a rest) = length rest ≤ m

  Leaves-later : (m n : ℕ) (d : Decoded A) → m ≤ n → Leaves m d → Leaves n d
  Leaves-later m n (failed x) w h = tt
  Leaves-later m n (decoded a rest) w h = omega (arith, w, h)

  and_read-Leaves :
      (n m : ℕ) (o : Option (Bytes × Bytes)) (k : Bytes → Bytes → Decoded A)
      → Took n m o
      → ((t r : Bytes) → Leaves (length r) (k t r))
      → (m' : ℕ) → m ≤ n + m'
      → Leaves m' (and_read o k)
  and_read-Leaves n m none k h f m' w = tt
  and_read-Leaves n m (some (taken, rest)) k h f m' w =
      Leaves-later (length rest) m' (k taken rest) (omega (arith, h, w)) (f taken rest)

module _ {A B : Type 0} where
  and_decode-Leaves :
      (m : ℕ) (d : Decoded B) (k : B → Bytes → Decoded A)
      → Leaves m d
      → ((b : B) (r : Bytes) → Leaves (length r) (k b r))
      → Leaves m (and_decode d k)
  and_decode-Leaves m (failed x) k h f = tt
  and_decode-Leaves m (decoded b rest) k h f = Leaves-later (length rest) m (k b rest) h (f b rest)

field_data-Leaves : (n : ℕ) (r : Bytes) → Leaves (length r) (field_data n r)
field_data-Leaves n r = elim (Bool-cases (ltb max_mutation_field n)) [
  | inl t ↦ rw t tt
  | inr t ↦ rw t (
      and_read-Leaves n (length r) (read_full n r) (λ taken rest. decoded taken rest)
        (read_full-Took n r) (λ a b. omega arith) (length r) (omega arith))
]

read_field-Leaves : (r : Bytes) → Leaves (length r) (read_field r)
unfolding read_field
read_field-Leaves r =
    and_read-Leaves 4 (length r) (read_full 4 r) after_length (read_full-Took 4 r)
      (λ l t. field_data-Leaves (of_be 0 l) t) (length r) (omega arith)

read_mutation-Leaves : (r : Bytes) → Leaves (length r) (read_mutation r)
unfolding read_mutation
read_mutation-Leaves r =
    and_read-Leaves 1 (length r) (read_full 1 r) after_flags (read_full-Took 1 r)
      (λ fl a.
        and_decode-Leaves (length a) (read_field a) (after_bucket fl) (read_field-Leaves a)
          (λ bucket b.
            and_decode-Leaves (length b) (read_field b) (after_key fl bucket) (read_field-Leaves b)
              (λ key c.
                and_decode-Leaves (length c) (read_field c) (after_value fl bucket key)
                  (read_field-Leaves c) (λ value e. omega arith))))
      (length r) (omega arith)

read_mutations-Leaves : (n : ℕ) (r : Bytes) → Leaves (length r) (read_mutations n r)
unfolding read_mutations
read_mutations-Leaves zero r = omega arith
read_mutations-Leaves (suc n) r =
    and_decode-Leaves (length r) (read_mutation r)
      (λ m r1. and_decode (read_mutations n r1) (cons_decoded m)) (read_mutation-Leaves r)
      (λ m r1.
        and_decode-Leaves (length r1) (read_mutations n r1) (cons_decoded m)
          (read_mutations-Leaves n r1) (λ ms r2. omega arith))

batch_mutations-Leaves : (lsn n : ℕ) (r : Bytes) → Leaves (length r) (batch_mutations lsn n r)
batch_mutations-Leaves lsn n r = elim (Bool-cases (ltb max_batch_mutations n)) [
  | inl t ↦ rw t tt
  | inr t ↦ rw t (
      and_decode-Leaves (length r) (read_mutations n r) (batch_end lsn) (read_mutations-Leaves n r)
        (λ ms r2. omega arith))
]

after_lsn-Leaves :
    (m : ℕ) (r : Bytes) (o : Option (Bytes × Bytes)) → Took 8 (suc m) o → Leaves m (after_lsn r o)
after_lsn-Leaves m [] none h = tt
after_lsn-Leaves m (x ∷ r) none h = tt
after_lsn-Leaves m r (some (head, rest)) h =
    and_read-Leaves 4 (length rest) (read_full 4 rest) (after_count (of_be 0 head))
      (read_full-Took 4 rest) (λ cnt t. batch_mutations-Leaves (of_be 0 head) (of_be 0 cnt) t) m
      (omega (arith, h))

-- A batch takes at least a byte.
decode_batch-Leaves : (x : ℕ) (r : Bytes) → Leaves (length r) (decode_batch (x ∷ r))
unfolding decode_batch
decode_batch-Leaves x r =
    after_lsn-Leaves (length r) (x ∷ r) (read_full 8 (x ∷ r)) (read_full-Took 8 (x ∷ r))

-- There is a result.
abbrev Returns : {A : Type 0} → Option A → Type 0
Returns {A} o = (a : A) × (o ≡ some a)

cons_scan-Returns : (b : MutationBatch) (o : Option Scan) → Returns o → Returns (cons_scan b o)
cons_scan-Returns b o h = rw h.1 (record h.0 { batches = b ∷ h.0.batches }, refl)

scan_step-Returns :
    (m n : ℕ) (r : Bytes) (d : Decoded MutationBatch)
    → m < n
    → Leaves m d
    → ((t : Bytes) → length t < n → Returns (scan n t))
    → Returns (scan_step r d (scan n))
scan_step-Returns m n r (failed x) w h f = (record { batches = []; left = r; error = x }, refl)
scan_step-Returns m n r (decoded b rest) w h f =
    cons_scan-Returns b (scan n rest) (f rest (omega (arith, w, h)))

scan-Returns : (n : ℕ) (r : Bytes) → length r < n → Returns (scan n r)
unfolding scan
scan-Returns zero r h = absurd (omega (arith, h))
scan-Returns (suc n) [] h =
    unfold decode_batch read_full in
    (record { batches = []; left = []; error = end_of_input }, refl)
scan-Returns (suc n) (x ∷ r) h =
    scan_step-Returns (length r) n (x ∷ r) (decode_batch (x ∷ r)) (omega (arith, h))
      (decode_batch-Leaves x r) (scan-Returns n)

scan_segment-Returns : (r : Bytes) → Returns (scan_segment r)
unfolding scan_segment
scan_segment-Returns r = scan-Returns (suc (length r)) r (omega arith)

then_replay-Returns :
    (bs : List MutationBatch) (x : Option DecodeError) (next : Option Replay)
    → Returns next
    → Returns (then_replay bs x next)
then_replay-Returns bs (some x) next h = (record { given = bs; failure = some x }, refl)
then_replay-Returns bs none next h = rw h.1 (record h.0 { given = bs ++ h.0.given }, refl)

replay_segments-Returns :
    (after : ℕ) (es : List EpochStart) (segs : List Segment)
    → Returns (replay_segments after es segs)
unfolding replay_segments
replay_segments-Returns after es [] = (record { given = []; failure = none }, refl)
replay_segments-Returns after es (s ∷ segs) =
    let r : Returns (scan_segment s.bytes) = scan_segment-Returns s.bytes in
    rw r.1 (
      then_replay-Returns (newer after es r.0.batches) (replay_error r.0.error)
        (replay_segments after es segs) (replay_segments-Returns after es segs))

-- ReadFrom comes to an end on every log, whatever bytes its segments hold: the fuel of one round more
-- than a segment has bytes is enough.
pub read_from-Returns : (after : ℕ) (l : ReplLog) → (r : Replay) × (read_from after l ≡ some r)
unfolding read_from
read_from-Returns after l = replay_segments-Returns after l.epochs (from_start after (segments l))
