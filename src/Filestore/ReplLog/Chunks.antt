-- ===== src/Filestore/ReplLog/Chunks.antt =====
-- The segments of a log as lists of batches, and what ReadFrom gives of them.
use corndogs.Prelude.{
  subst, true≢false, ℕ, suc, ◌+◌, ◌≤◌, ◌≡◌, refl, sym, ap, ◌∙◌, true, List, [], ◌∷◌, ◌++◌,
  append_assoc, append-nil, none, some, leb, length, length-append, All, arith, Bool-cases, inl,
  inr,
}
use corndogs.Filestore.Task.{add64}
use corndogs.Filestore.Replication.{MutationBatch}
use corndogs.Filestore.Replication.Wire.{read_full, end_of_input, decode_batch, failed}
use corndogs.Filestore.ReplLog.{
  Segment, EpochStart, scan_segment, Replay, replay_segments, newer, some_starts, from_start,
  with_epoch,
}
use corndogs.Filestore.ReplLog.Frames.{found, FitsBatch, encode_all, bare, scan_segment-encode_all}

abbrev pub segment_of : ℕ → List MutationBatch → Segment
segment_of first bs = record { first_batch = first; bytes = encode_all bs }

-- Consecutive segments, the first of which starts at `n`.
abbrev pub segments_of : ℕ → List (List MutationBatch) → List Segment
segments_of n [] = []
segments_of n (c ∷ cs) = segment_of n c ∷ segments_of (n + length c) cs

abbrev pub joined : List (List MutationBatch) → List MutationBatch
joined [] = []
joined (c ∷ cs) = c ++ joined cs

-- The sequence numbers go up from `n`.
abbrev pub Numbered : ℕ → List MutationBatch → Type 0
Numbered n [] = Unit {0}
Numbered n (b ∷ bs) = (b.lsn ≡ n) × Numbered (suc n) bs

pub joined-append : (cs ds : List (List MutationBatch)) → joined (cs ++ ds) ≡ joined cs ++ joined ds
joined-append [] ds = refl
joined-append (c ∷ cs) ds = rw (joined-append cs ds, append_assoc c (joined cs) (joined ds)) refl

pub segments_of-append :
    (n : ℕ) (cs ds : List (List MutationBatch))
    → segments_of n (cs ++ ds) ≡ segments_of n cs ++ segments_of (n + length (joined cs)) ds
segments_of-append n [] ds = ap (λ (k : ℕ). segments_of k ds) (omega arith)
segments_of-append n (c ∷ cs) ds =
    ap (λ t. segment_of n c ∷ t)
      (segments_of-append (n + length c) cs ds
        ∙ ap (λ (k : ℕ). segments_of (n + length c) cs ++ segments_of k ds)
            (omega (arith, length-append c (joined cs))))

pub Numbered-append :
    (n : ℕ) (xs ys : List MutationBatch)
    → Numbered n (xs ++ ys)
    → Numbered n xs × Numbered (n + length xs) ys
Numbered-append n [] ys h = (tt, subst (λ (k : ℕ). Numbered k ys) (omega arith) h)
Numbered-append n (x ∷ xs) ys h =
    let t : Numbered (suc n) xs × Numbered (suc n + length xs) ys =
      Numbered-append (suc n) xs ys h.1 in
    ((h.0, t.0), subst (λ (k : ℕ). Numbered k ys) (omega arith) t.1)

pub append-Numbered :
    (n : ℕ) (xs ys : List MutationBatch)
    → Numbered n xs
    → Numbered (n + length xs) ys
    → Numbered n (xs ++ ys)
append-Numbered n [] ys h k = subst (λ (j : ℕ). Numbered j ys) (omega arith) k
append-Numbered n (x ∷ xs) ys h k =
    (h.0, append-Numbered (suc n) xs ys h.1 (subst (λ (j : ℕ). Numbered j ys) (omega arith) k))

bare-append : (xs ys : List MutationBatch) → bare (xs ++ ys) ≡ bare xs ++ bare ys
bare-append [] ys = refl
bare-append (x ∷ xs) ys = ap (λ t. record x { epoch = 0 } ∷ t) (bare-append xs ys)

newer-append :
    (after : ℕ) (es : List EpochStart) (xs ys : List MutationBatch)
    → newer after es (xs ++ ys) ≡ newer after es xs ++ newer after es ys
newer-append after es [] ys = refl
newer-append after es (x ∷ xs) ys = elim (Bool-cases (leb x.lsn after)) [
  | inl t ↦ rw t (newer-append after es xs ys)
  | inr t ↦ rw t (ap (λ r. with_epoch es x ∷ r) (newer-append after es xs ys))
]

-- Nothing is newer that comes before.
newer-before :
    (after : ℕ) (es : List EpochStart) (n : ℕ) (c : List MutationBatch)
    → Numbered n c
    → n + length c ≤ suc after
    → newer after es (bare c) ≡ []
newer-before after es n [] h k = refl
newer-before after es n (b ∷ c) h k =
    let t : leb b.lsn after ≡ true = ground (arith, h.0) in
    rw t (newer-before after es (suc n) c h.1 (omega arith))

-- Some segment starts no later than `after + 1`, so the first does.
some_starts-segments_of :
    (after n : ℕ) (cs : List (List MutationBatch))
    → add64 after 1 ≡ suc after
    → some_starts after (segments_of n cs) ≡ true
    → n ≤ suc after
some_starts-segments_of after n [] w h = elim (true≢false (sym h)) [ ]
some_starts-segments_of after n (c ∷ cs) w h =
    ground (arith, some_starts-segments_of after (n + length c) cs w, w, h)

nothing_left : decode_batch [] ≡ failed end_of_input
unfolding decode_batch read_full
nothing_left = refl

scan_found :
    (c : List MutationBatch)
    → All FitsBatch c
    → scan_segment (encode_all c) ≡ some (found c [] end_of_input)
scan_found c k =
    ap scan_segment (sym (append-nil (encode_all c)))
    ∙ scan_segment-encode_all c [] end_of_input k nothing_left

pub All-append :
    (xs ys : List MutationBatch) → All FitsBatch (xs ++ ys) → All FitsBatch xs × All FitsBatch ys
All-append [] ys h = (tt, h)
All-append (x ∷ xs) ys h = ((h.0, (All-append xs ys h.1).0), (All-append xs ys h.1).1)

-- The replay of a list of segments gives their newer batches.
abbrev given_newer : ℕ → List EpochStart → List MutationBatch → Replay
given_newer after es bs = record { given = newer after es (bare bs); failure = none }

given_newer-append :
    (after : ℕ) (es : List EpochStart) (xs ys : List MutationBatch)
    → newer after es (bare xs) ++ newer after es (bare ys) ≡ newer after es (bare (xs ++ ys))
given_newer-append after es xs ys =
    sym (newer-append after es (bare xs) (bare ys)) ∙ ap (newer after es) (sym (bare-append xs ys))

replay-segments_of :
    (after : ℕ) (es : List EpochStart) (n : ℕ) (cs : List (List MutationBatch))
    → All FitsBatch (joined cs)
    → replay_segments after es (segments_of n cs) ≡ some (given_newer after es (joined cs))
unfolding replay_segments
replay-segments_of after es n [] k = refl
replay-segments_of after es n (c ∷ cs) k =
    rw
      (
        scan_found c (All-append c (joined cs) k).0,
        replay-segments_of after es (n + length c) cs (All-append c (joined cs) k).1,
      )
      (ap (λ t. some (record { given = t; failure = none }))
        (given_newer-append after es c (joined cs)))

-- Nor does it miss one when it starts where ReadFrom does.
pub replay-from_start :
    (after : ℕ) (es : List EpochStart) (n : ℕ) (cs : List (List MutationBatch))
    → add64 after 1 ≡ suc after
    → Numbered n (joined cs)
    → All FitsBatch (joined cs)
    → replay_segments after es (from_start after (segments_of n cs))
      ≡ some (given_newer after es (joined cs))
unfolding from_start
replay-from_start after es n [] w h k = replay-segments_of after es n [] k
replay-from_start after es n (c ∷ cs) w h k =
    elim (Bool-cases (some_starts after (segments_of (n + length c) cs))) [
      | inl t ↦
          rw
            (
              t,
              replay-from_start after es (n + length c) cs w (Numbered-append n c (joined cs) h).1
                  (All-append c (joined cs) k).1,
            )
            (ap (λ r. some (record { given = r; failure = none }))
              (ap (λ r. r ++ newer after es (bare (joined cs)))
                  (sym (
                    newer-before after es n c (Numbered-append n c (joined cs) h).0
                      (some_starts-segments_of after (n + length c) cs w t)))
                ∙ given_newer-append after es c (joined cs)))
      | inr t ↦ rw t (replay-segments_of after es n (c ∷ cs) k)
    ]
