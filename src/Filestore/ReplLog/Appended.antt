-- ===== src/Filestore/ReplLog/Appended.antt =====
-- A log after a reset and any number of appends.
use corndogs.Prelude.{
  ap₂, ℕ, suc, ◌+◌, ◌≤◌, ◌<◌, ◌≡◌, refl, sym, ap, subst, ◌∙◌, true, List, [], ◌∷◌, ◌++◌,
  append_assoc, append-nil, some, if◌then◌else◌, ltb, leb, ◌==◌, ◌&&◌, length, length-append, All,
  arith, Bool-cases, inl, inr,
}
use corndogs.Bytes.{IsWord64}
use corndogs.Filestore.Task.{add64}
use corndogs.Filestore.Replication.{MutationBatch}
use corndogs.Filestore.Replication.Wire.{encode_batch}
use corndogs.Filestore.ReplLog.{
  EpochStart, first_lsn, ReplLog, roll, note_epoch, write_frame, append, log_epoch, epoch_at,
  last_start,
}
use corndogs.Filestore.ReplLog.Frames.{FitsBatch, encode_all}
use corndogs.Filestore.ReplLog.Chunks.{
  segment_of, segments_of, segments_of-append, joined, joined-append, Numbered, append-Numbered,
}
use corndogs.Filestore.ReplLog.Epochs.{StartsBy, Indexed, note_epoch-Indexed}

-- The files hold the batches `bs`, cut into the segments `cs` and the active one, `a`.
pub record IsStored (l : ReplLog) (bs : List MutationBatch) : Type 0 where
  pub cs : List (List MutationBatch)
  pub a : List MutationBatch
  pub whole : joined cs ++ a ≡ bs
  pub closed_is : l.closed ≡ segments_of l.first_seg cs
  pub active_is : l.active ≡ segment_of (l.first_seg + length (joined cs)) a

encode_all-snoc :
    (bs : List MutationBatch) (b : MutationBatch)
    → encode_all bs ++ encode_batch b ≡ encode_all (bs ++ b ∷ [])
encode_all-snoc [] b = sym (append-nil (encode_batch b))
encode_all-snoc (x ∷ bs) b =
    append_assoc (encode_batch x) (encode_all bs) (encode_batch b)
    ∙ ap (λ t. encode_batch x ++ t) (encode_all-snoc bs b)

pub roll-IsStored :
    (b : MutationBatch) (l : ReplLog) (bs : List MutationBatch)
    → b.lsn ≡ l.first_seg + length bs
    → IsStored l bs
    → IsStored (roll b l) bs
unfolding roll
roll-IsStored b l bs w h =
    elim (Bool-cases (ltb 0 l.chunk_bytes && leb l.chunk_bytes (length l.active.bytes))) [
      | inr t ↦ rw t h
      | inl t ↦ rw t (
          let all : joined (h.cs ++ h.a ∷ []) ≡ bs =
            joined-append h.cs (h.a ∷ []) ∙ ap (λ t. joined h.cs ++ t) (append-nil h.a) ∙ h.whole in
          record {
            cs = h.cs ++ h.a ∷ [];
            a = [];
            whole = append-nil (joined (h.cs ++ h.a ∷ [])) ∙ all;
            closed_is =
                rw (h.closed_is, h.active_is)
                  (sym (segments_of-append l.first_seg h.cs (h.a ∷ [])));
            active_is =
                ap (λ (n : ℕ). segment_of n []) (w ∙ ap (λ t. l.first_seg + length t) (sym all));
          })
    ]

write_frame-IsStored :
    (b : MutationBatch) (l : ReplLog) (bs : List MutationBatch)
    → IsStored l bs
    → IsStored (write_frame b l) (bs ++ b ∷ [])
unfolding write_frame
write_frame-IsStored b l bs h = record {
  cs = h.cs;
  a = h.a ++ b ∷ [];
  whole = sym (append_assoc (joined h.cs) h.a (b ∷ [])) ∙ ap (λ t. t ++ b ∷ []) h.whole;
  closed_is = h.closed_is;
  active_is = rw h.active_is (
      ap (λ t. record { first_batch = l.first_seg + length (joined h.cs); bytes = t })
        (encode_all-snoc h.a b));
}

pub note_epoch-IsStored :
    (b : MutationBatch) (l : ReplLog) (bs : List MutationBatch)
    → IsStored l bs
    → IsStored (note_epoch b l) bs
unfolding note_epoch
note_epoch-IsStored b l bs h = elim (Bool-cases (b.epoch == log_epoch l)) [
  | inl t ↦ rw t h
  | inr t ↦ rw t (record {
    cs = h.cs;
    a = h.a;
    whole = h.whole;
    closed_is = h.closed_is;
    active_is = h.active_is;
  })
]

-- The log holds the batches `bs`, and its index says their epochs.
pub record IsLog (l : ReplLog) (bs : List MutationBatch) : Type 0 where
  pub stored : IsStored l bs
  pub numbered : Numbered l.first_seg bs
  pub last_is : suc l.last_lsn ≡ l.first_seg + length bs
  pub fits : All FitsBatch bs
  pub based : suc l.base_lsn ≤ l.first_seg
  pub starts : StartsBy l.last_lsn l.epochs
  pub indexed : Indexed l.epochs bs

abbrev pub written : MutationBatch → ReplLog → ReplLog
written b l = write_frame b (note_epoch b (roll b l))

pub written-first_seg : (b : MutationBatch) (l : ReplLog) → (written b l).first_seg ≡ l.first_seg
unfolding write_frame note_epoch roll
written-first_seg b l = ground arith

pub written-base_lsn : (b : MutationBatch) (l : ReplLog) → (written b l).base_lsn ≡ l.base_lsn
unfolding write_frame note_epoch roll
written-base_lsn b l = ground arith

abbrev pub epochs_with : MutationBatch → ℕ → List EpochStart → List EpochStart
epochs_with b ep es =
    if b.epoch == ep then es else es ++ record { first = b.lsn; ep = b.epoch } ∷ []

pub note_epoch-epochs :
    (b : MutationBatch) (l : ReplLog)
    → (note_epoch b l).epochs ≡ epochs_with b (log_epoch l) l.epochs
unfolding note_epoch
note_epoch-epochs b l = elim (Bool-cases (b.epoch == log_epoch l)) [
  | inl t ↦ rw t refl
  | inr t ↦ rw t refl
]

roll-log_epoch : (b : MutationBatch) (l : ReplLog) → log_epoch (roll b l) ≡ log_epoch l
unfolding roll log_epoch epoch_at first_lsn
roll-log_epoch b l =
    elim (Bool-cases (ltb 0 l.chunk_bytes && leb l.chunk_bytes (length l.active.bytes))) [
      | inl t ↦ rw t refl
      | inr t ↦ rw t refl
    ]

roll-epochs : (b : MutationBatch) (l : ReplLog) → (roll b l).epochs ≡ l.epochs
unfolding roll
roll-epochs b l =
    elim (Bool-cases (ltb 0 l.chunk_bytes && leb l.chunk_bytes (length l.active.bytes))) [
      | inl t ↦ rw t refl
      | inr t ↦ rw t refl
    ]

pub written-epochs :
    (b : MutationBatch) (l : ReplLog) → (written b l).epochs ≡ (note_epoch b l).epochs
unfolding write_frame
written-epochs b l =
    note_epoch-epochs b (roll b l)
    ∙ (ap₂ (epochs_with b) (roll-log_epoch b l) (roll-epochs b l) ∙ sym (note_epoch-epochs b l))

Numbered-below :
    (n : ℕ) (bs : List MutationBatch)
    → Numbered n bs
    → All (λ (x : MutationBatch). x.lsn < n + length bs) bs
Numbered-below n [] h = tt
Numbered-below n (b ∷ bs) h = (
  omega (arith, h.0),
  subst (λ (k : ℕ). All (λ (x : MutationBatch). x.lsn < k) bs) (omega arith)
      (Numbered-below (suc n) bs h.1),
)

All-snoc :
    (bs : List MutationBatch) (b : MutationBatch)
    → All FitsBatch bs
    → FitsBatch b
    → All FitsBatch (bs ++ b ∷ [])
All-snoc [] b h k = (k, tt)
All-snoc (x ∷ bs) b h k = (h.0, All-snoc bs b h.1 k)

pub append_next :
    (b : MutationBatch) (l : ReplLog)
    → b.lsn ≡ suc l.last_lsn
    → IsWord64 b.lsn
    → append b l ≡ some (written b l)
unfolding append
append_next b l w k =
    let t : (b.lsn == add64 l.last_lsn 1) ≡ true = ground (arith, w, k) in rw t refl

pub append-IsLog :
    (b : MutationBatch) (l : ReplLog) (bs : List MutationBatch)
    → IsLog l bs
    → b.lsn ≡ l.first_seg + length bs
    → FitsBatch b
    → (b.epoch ≡ log_epoch l → last_start l.last_lsn 0 l.epochs ≡ b.epoch)
    → (append b l ≡ some (written b l)) × IsLog (written b l) (bs ++ b ∷ [])
append-IsLog b l bs h w k e =
    let below : All (λ (x : MutationBatch). x.lsn < b.lsn) bs =
      subst (λ (n : ℕ). All (λ (x : MutationBatch). x.lsn < n) bs) (sym w)
        (Numbered-below l.first_seg bs h.numbered) in
    let accepted : append b l ≡ some (written b l) =
      append_next b l (omega (arith, w, h.last_is)) k.0 in
    let index : StartsBy b.lsn (note_epoch b l).epochs
        × Indexed (note_epoch b l).epochs (bs ++ b ∷ []) =
      note_epoch-Indexed l bs b (omega (arith, w, h.last_is)) below h.starts h.indexed e in
    (
      accepted,
      record {
        stored =
            write_frame-IsStored b _ bs
              (note_epoch-IsStored b _ bs (roll-IsStored b l bs w h.stored));
        numbered =
            rw (written-first_seg b l) (append-Numbered l.first_seg bs (b ∷ []) h.numbered (w, tt));
        last_is =
            rw (written-first_seg b l, length-append bs (b ∷ []))
              (unfold write_frame in omega (arith, w));
        fits = All-snoc bs b h.fits k;
        based = rw (written-first_seg b l, written-base_lsn b l) h.based;
        starts = rw (written-epochs b l) (unfold write_frame in index.0);
        indexed = rw (written-epochs b l) index.1;
      },
    )
