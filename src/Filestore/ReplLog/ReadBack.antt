-- ===== src/Filestore/ReplLog/ReadBack.antt =====
-- What is read from a log is what was appended to it.
use corndogs.Prelude.{
  ==_refl, ℕ, ◌+◌, ◌-◌, ◌^◌, ◌≤◌, ◌<◌, ◌≡◌, refl, sym, ap, subst, ◌∙◌, true, false, List, [], ◌∷◌,
  ◌++◌, append_assoc, append-nil, Option, none, some, if◌then◌else◌, ltb, leb, ◌==◌, ◌⊎◌, length,
  length-append, All, arith, Bool-cases, inl, inr,
}
use corndogs.Filestore.Replication.{MutationBatch}
use corndogs.Filestore.ReplLog.{
  from_start, replay_segments, ReplLog, EpochStart, append, reset, read_from, log_epoch, epoch_at,
  last_start, first_lsn, newer, segments,
}
use corndogs.Filestore.ReplLog.Frames.{FitsBatch, bare}
use corndogs.Filestore.ReplLog.Chunks.{
  segment_of, segments_of, segments_of-append, joined, joined-append, Numbered, replay-from_start,
}
use corndogs.Filestore.ReplLog.Epochs.{Indexed, log_epoch-last_start}
use corndogs.Filestore.ReplLog.Appended.{written-first_seg, IsStored, IsLog, written, append-IsLog}

-- The batches after `after`, as they were appended.
abbrev pub later_than : ℕ → List MutationBatch → List MutationBatch
later_than after [] = []
later_than after (b ∷ bs) = if ltb after b.lsn then b ∷ later_than after bs else later_than after bs

newer-later_than :
    (after : ℕ) (es : List EpochStart) (bs : List MutationBatch)
    → Indexed es bs
    → newer after es (bare bs) ≡ later_than after bs
newer-later_than after es [] h = refl
newer-later_than after es (b ∷ bs) h = elim (Bool-cases (ltb after b.lsn)) [
  | inl t ↦
      let u : leb b.lsn after ≡ false = ground (arith, t) in
      rw (u, t, h.0) (ap (λ r. b ∷ r) (newer-later_than after es bs h.1))
  | inr t ↦
      let u : leb b.lsn after ≡ true = ground (arith, t) in
      rw (u, t) (newer-later_than after es bs h.1)
]

pub read_from-IsStored :
    (l : ReplLog) (bs : List MutationBatch) (after : ℕ)
    → IsStored l bs
    → Numbered l.first_seg bs
    → All FitsBatch bs
    → Indexed l.epochs bs
    → after + 1 < 2 ^ 64
    → read_from after l ≡ some (record { given = later_than after bs; failure = none })
unfolding read_from
read_from-IsStored l bs after h n k i w =
    let cut : segments l ≡ segments_of l.first_seg (h.cs ++ h.a ∷ []) =
      rw (h.closed_is, h.active_is) (sym (segments_of-append l.first_seg h.cs (h.a ∷ []))) in
    let all : joined (h.cs ++ h.a ∷ []) ≡ bs =
      joined-append h.cs (h.a ∷ []) ∙ ap (λ t. joined h.cs ++ t) (append-nil h.a) ∙ h.whole in
    ap (λ t. replay_segments after l.epochs (from_start after t)) cut
    ∙ (replay-from_start after l.epochs l.first_seg (h.cs ++ h.a ∷ []) (omega arith)
          (subst (Numbered l.first_seg) (sym all) n) (subst (All FitsBatch) (sym all) k)
        ∙ ap (λ t. some (record { given = t; failure = none }))
            (ap (λ t. newer after l.epochs (bare t)) all ∙ newer-later_than after l.epochs bs i))

abbrev and_append : Option ReplLog → (ReplLog → Option ReplLog) → Option ReplLog
and_append none k = none
and_append (some l) k = k l

-- Append, once for each batch.
unfoldable pub append_all : List MutationBatch → ReplLog → Option ReplLog
unfolding append
append_all [] l = some l
append_all (b ∷ bs) l = and_append (append b l) (append_all bs)

-- The first batch has another epoch than the position before it, unless that epoch is 0.
abbrev pub OtherEpoch : ℕ → List MutationBatch → Type 0
OtherEpoch epoch [] = Unit {0}
OtherEpoch epoch (b ∷ bs) = b.epoch ≡ epoch → epoch ≡ 0

-- `bs` can be appended, and the log then holds them too.
abbrev pub Appends : List MutationBatch → List MutationBatch → ReplLog → Type 0
Appends done bs l = (l' : ReplLog) × (append_all bs l ≡ some l') × IsLog l' (done ++ bs)

append_all-then :
    (done bs : List MutationBatch) (b : MutationBatch) (l l1 : ReplLog)
    → append b l ≡ some l1
    → Appends (done ++ b ∷ []) bs l1
    → Appends done (b ∷ bs) l
unfolding append_all
append_all-then done bs b l l1 e r =
    (r.0, rw e r.1, subst (IsLog r.0) (append_assoc done (b ∷ []) bs) r.2)

append_rest :
    (done bs : List MutationBatch) (l : ReplLog)
    → IsLog l done
    → 1 ≤ length done
    → Numbered (l.first_seg + length done) bs
    → All FitsBatch bs
    → Appends done bs l
append_rest done [] l h w n k = (l, unfold append_all in refl, rw (append-nil done) h)
append_rest done (b ∷ bs) l h w n k =
    let known : log_epoch l ≡ last_start l.last_lsn 0 l.epochs =
      log_epoch-last_start l h.based (omega (arith, h.last_is)) in
    let step : (append b l ≡ some (written b l)) × IsLog (written b l) (done ++ b ∷ []) =
      append-IsLog b l done h n.0 k.0 (λ e. sym known ∙ sym e) in
    append_all-then done bs b l (written b l) step.0 (
      append_rest (done ++ b ∷ []) bs (written b l) step.1
        (omega (arith, length-append done (b ∷ [])))
        (subst (λ (m : ℕ). Numbered m bs)
          (omega (arith, length-append done (b ∷ []), written-first_seg b l)) n.1)
        k.1)

reset-IsLog : (next epoch : ℕ) (l : ReplLog) → 0 < next → IsLog (reset next epoch l) []
unfolding reset
reset-IsLog next epoch l w =
    let t : (next == 0) ≡ false = ground arith in
    rw t (record {
      stored = record {
        cs = [];
        a = [];
        whole = refl;
        closed_is = refl;
        active_is = ap (λ (n : ℕ). segment_of n []) (omega arith);
      };
      numbered = tt;
      last_is = omega arith;
      fits = tt;
      based = omega arith;
      starts = tt;
      indexed = tt;
    })

pub reset-first_seg :
    (next epoch : ℕ) (l : ReplLog) → 0 < next → (reset next epoch l).first_seg ≡ next
unfolding reset
reset-first_seg next epoch l w = ground arith

reset-epochs :
    (next epoch : ℕ) (l : ReplLog)
    → last_start (reset next epoch l).last_lsn 0 (reset next epoch l).epochs ≡ 0
unfolding reset last_start
reset-epochs next epoch l = refl

-- What Append compares the first epoch with: 0, or the epoch that was given to Reset.
reset-log_epoch :
    (next epoch : ℕ) (l : ReplLog)
    → (log_epoch (reset next epoch l) ≡ 0) ⊎ (log_epoch (reset next epoch l) ≡ epoch)
unfolding reset log_epoch epoch_at first_lsn
reset-log_epoch next epoch l = elim (Bool-cases ((if next == 0 then 1 else next) - 1 == 0)) [
  | inl t ↦ inl (rw t refl)
  | inr t ↦ inr (rw (t, ==_refl ((if next == 0 then 1 else next) - 1)) refl)
]

first_epoch :
    (next epoch : ℕ) (l : ReplLog) (b : MutationBatch)
    → (b.epoch ≡ epoch → epoch ≡ 0)
    → b.epoch ≡ log_epoch (reset next epoch l)
    → last_start (reset next epoch l).last_lsn 0 (reset next epoch l).epochs ≡ b.epoch
first_epoch next epoch l b h e = elim (reset-log_epoch next epoch l) [
  | inl t ↦ omega (arith, reset-epochs next epoch l, e, t)
  | inr t ↦ omega (arith, reset-epochs next epoch l, e, t, h (e ∙ t))
]

pub reset-Appends :
    (next epoch : ℕ) (l : ReplLog) (bs : List MutationBatch)
    → 0 < next
    → Numbered next bs
    → All FitsBatch bs
    → OtherEpoch epoch bs
    → Appends [] bs (reset next epoch l)
reset-Appends next epoch l [] w n k o =
    (reset next epoch l, unfold append_all in refl, reset-IsLog next epoch l w)
reset-Appends next epoch l (b ∷ bs) w n k o =
    let l0 : ReplLog = reset next epoch l in
    let first : l0.first_seg ≡ next = reset-first_seg next epoch l w in
    let step : (append b l0 ≡ some (written b l0)) × IsLog (written b l0) (b ∷ []) =
      append-IsLog b l0 [] (reset-IsLog next epoch l w) (omega (arith, n.0, first)) k.0
        (first_epoch next epoch l b o) in
    append_all-then [] bs b l0 (written b l0) step.0 (
      append_rest (b ∷ []) bs (written b l0) step.1 (omega arith)
        (subst (λ (m : ℕ). Numbered m bs) (omega (arith, written-first_seg b l0, first)) n.1) k.1)

-- Batches that are numbered from `next`, at least 1, and are within the limits of the codec can all be
-- appended to a log that was reset to `next`, whatever the size of its segments. ReadFrom then gives
-- exactly the batches after a given number, in order, with their epochs, and no error. This is under the
-- condition that the first batch has another epoch than the one given to Reset, or that this is 0. It
-- leaves out the log that goes on in the epoch of a restored snapshot.
pub append_all-read_from :
    (next epoch : ℕ) (l : ReplLog) (bs : List MutationBatch)
    → 0 < next
    → Numbered next bs
    → All FitsBatch bs
    → OtherEpoch epoch bs
    → (l' : ReplLog) × (append_all bs (reset next epoch l) ≡ some l')
      × ((after : ℕ)
          → after + 1 < 2 ^ 64
          → read_from after l' ≡ some (record { given = later_than after bs; failure = none }))
append_all-read_from next epoch l bs w n k o =
    let r : Appends [] bs (reset next epoch l) = reset-Appends next epoch l bs w n k o in
    (
      r.0,
      r.1,
      λ after v. read_from-IsStored r.0 bs after r.2.stored r.2.numbered r.2.fits r.2.indexed v,
    )
