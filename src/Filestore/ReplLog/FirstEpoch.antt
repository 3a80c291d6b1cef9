-- ===== src/Filestore/ReplLog/FirstEpoch.antt =====
-- The epoch of the first batch after a reset.
use corndogs.Prelude.{
  ==_refl, ℕ, suc, ◌-◌, ◌≤◌, ◌<◌, ◌≡◌, refl, ap, ◌∙◌, false, [], some, ◌==◌, arith,
}
use corndogs.Filestore.Replication.{MutationBatch}
use corndogs.Filestore.ReplLog.{
  write_frame, ReplLog, append, reset, log_epoch, epoch_at, last_start, first_lsn,
}
use corndogs.Filestore.ReplLog.Frames.{FitsBatch}
use corndogs.Filestore.ReplLog.Appended.{
  epochs_with, note_epoch-epochs, written-epochs, written-base_lsn, append_next, written-first_seg,
  written,
}
use corndogs.Filestore.ReplLog.ReadBack.{reset-first_seg}

epoch_at-index :
    (lsn : ℕ) (l : ReplLog)
    → 0 < lsn
    → l.base_lsn < lsn
    → 0 < l.first_seg
    → l.first_seg ≤ lsn
    → l.last_lsn ≡ lsn
    → epoch_at l lsn ≡ some (last_start lsn 0 l.epochs)
unfolding epoch_at first_lsn
epoch_at-index lsn l a b z c d = ground arith

reset_no_line :
    (next epoch : ℕ) (l : ReplLog) (b : MutationBatch)
    → 1 < next
    → b.epoch ≡ epoch
    → epochs_with b (log_epoch (reset next epoch l)) (reset next epoch l).epochs ≡ []
unfolding reset log_epoch epoch_at first_lsn
reset_no_line next epoch l b w h =
    let t : (next == 0) ≡ false = ground arith in
    let u : ((next - 1) == 0) ≡ false = ground arith in
    rw (t, u, ==_refl (next - 1), h, ==_refl epoch) refl

-- The first batch after a reset at a position above 0, with the epoch that was given to Reset, gets no
-- line in the epoch index: EpochAt gives 0 for it. The batch is within the limits of the codec.
pub append-epoch_at :
    (next epoch : ℕ) (l : ReplLog) (b : MutationBatch)
    → 1 < next
    → b.lsn ≡ next
    → FitsBatch b
    → b.epoch ≡ epoch
    → (l' : ReplLog) × (append b (reset next epoch l) ≡ some l') × (epoch_at l' b.lsn ≡ some 0)
unfolding write_frame last_start
append-epoch_at next epoch l b w e k h =
    let l0 : ReplLog = reset next epoch l in
    let last : suc l0.last_lsn ≡ next = unfold reset in ground arith in
    let base : suc l0.base_lsn ≡ next = unfold reset in ground arith in
    let first : (written b l0).first_seg ≡ next =
      written-first_seg b l0 ∙ reset-first_seg next epoch l (omega arith) in
    let no_line : (written b l0).epochs ≡ [] =
      written-epochs b l0 ∙ (note_epoch-epochs b l0 ∙ reset_no_line next epoch l b w h) in
    (
      written b l0,
      append_next b l0 (omega (arith, e, last)) k.0,
      epoch_at-index b.lsn (written b l0) (omega (arith, e))
            (omega (arith, e, written-base_lsn b l0, base)) (omega (arith, first))
            (omega (arith, first, e)) refl
          ∙ ap (λ t. some (last_start b.lsn 0 t)) no_line,
    )
