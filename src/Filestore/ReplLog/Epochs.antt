-- ===== src/Filestore/ReplLog/Epochs.antt =====
-- The epoch index: what it says of a batch is the batch's epoch.
use corndogs.Prelude.{
  ℕ, suc, ◌≤◌, ◌<◌, ◌≡◌, refl, ◌∙◌, List, [], ◌∷◌, ◌++◌, ◌==◌, ==_iff, All, arith, Bool-cases, inl,
  inr,
}
use corndogs.Filestore.Replication.{MutationBatch}
use corndogs.Filestore.ReplLog.{
  EpochStart, ReplLog, last_start, log_epoch, epoch_at, first_lsn, note_epoch,
}

abbrev pub StartsBy : ℕ → List EpochStart → Type 0
StartsBy m es = All (λ (e : EpochStart). e.first ≤ m) es

-- Every batch of `bs` has the epoch of the last start that is not after it.
abbrev pub Indexed : List EpochStart → List MutationBatch → Type 0
Indexed es bs = All (λ (b : MutationBatch). last_start b.lsn 0 es ≡ b.epoch) bs

pub last_start-later :
    (m k ep : ℕ) (es : List EpochStart)
    → StartsBy m es
    → m ≤ k
    → last_start k ep es ≡ last_start m ep es
unfolding last_start
last_start-later m k ep [] h w = refl
last_start-later m k ep (e ∷ es) h w = ground (arith, h.0, last_start-later m k e.ep es h.1 w)

last_start-before :
    (lsn ep : ℕ) (es : List EpochStart) (e : EpochStart)
    → lsn < e.first
    → last_start lsn ep (es ++ e ∷ []) ≡ last_start lsn ep es
unfolding last_start
last_start-before lsn ep [] e w = ground arith
last_start-before lsn ep (x ∷ es) e w = ground (arith, last_start-before lsn x.ep es e w)

last_start-at :
    (lsn ep : ℕ) (es : List EpochStart) (e : EpochStart)
    → StartsBy lsn es
    → e.first ≤ lsn
    → last_start lsn ep (es ++ e ∷ []) ≡ e.ep
unfolding last_start
last_start-at lsn ep [] e h w = ground arith
last_start-at lsn ep (x ∷ es) e h w = ground (arith, h.0, last_start-at lsn x.ep es e h.1 w)

pub StartsBy-later : (m k : ℕ) (es : List EpochStart) → m ≤ k → StartsBy m es → StartsBy k es
StartsBy-later m k [] w h = tt
StartsBy-later m k (e ∷ es) w h = (omega (arith, h.0), StartsBy-later m k es w h.1)

StartsBy-snoc :
    (m : ℕ) (es : List EpochStart) (e : EpochStart)
    → StartsBy m es
    → e.first ≤ m
    → StartsBy m (es ++ e ∷ [])
StartsBy-snoc m [] e h w = (w, tt)
StartsBy-snoc m (x ∷ es) e h w = (h.0, StartsBy-snoc m es e h.1 w)

-- A start that comes after them changes nothing for the batches so far.
Indexed-before :
    (es : List EpochStart) (e : EpochStart) (bs : List MutationBatch)
    → All (λ (b : MutationBatch). b.lsn < e.first) bs
    → Indexed es bs
    → Indexed (es ++ e ∷ []) bs
Indexed-before es e [] k h = tt
Indexed-before es e (b ∷ bs) k h =
    (last_start-before b.lsn 0 es e k.0 ∙ h.0, Indexed-before es e bs k.1 h.1)

Indexed-snoc :
    (es : List EpochStart) (bs : List MutationBatch) (b : MutationBatch)
    → Indexed es bs
    → last_start b.lsn 0 es ≡ b.epoch
    → Indexed es (bs ++ b ∷ [])
Indexed-snoc es [] b h k = (k, tt)
Indexed-snoc es (x ∷ bs) b h k = (h.0, Indexed-snoc es bs b h.1 k)

-- The next batch goes into the index with its epoch, if the epoch that Append compares it with is that
-- of the index.
pub note_epoch-Indexed :
    (l : ReplLog) (bs : List MutationBatch) (b : MutationBatch)
    → b.lsn ≡ suc l.last_lsn
    → All (λ (x : MutationBatch). x.lsn < b.lsn) bs
    → StartsBy l.last_lsn l.epochs
    → Indexed l.epochs bs
    → (b.epoch ≡ log_epoch l → last_start l.last_lsn 0 l.epochs ≡ b.epoch)
    → StartsBy b.lsn (note_epoch b l).epochs × Indexed (note_epoch b l).epochs (bs ++ b ∷ [])
unfolding note_epoch
note_epoch-Indexed l bs b w before s h k = elim (Bool-cases (b.epoch == log_epoch l)) [
  | inl t ↦ rw t (
    StartsBy-later l.last_lsn b.lsn l.epochs (omega arith) s,
    Indexed-snoc l.epochs bs b h (
        last_start-later l.last_lsn b.lsn 0 l.epochs s (omega arith)
        ∙ k ((==_iff b.epoch (log_epoch l)).0 t)),
  )
  | inr t ↦ rw t (
    StartsBy-snoc b.lsn l.epochs _ (StartsBy-later l.last_lsn b.lsn l.epochs (omega arith) s)
        (omega arith),
    Indexed-snoc _ bs b (Indexed-before l.epochs _ bs before h) (
        last_start-at b.lsn 0 l.epochs _ (StartsBy-later l.last_lsn b.lsn l.epochs (omega arith) s)
          (omega arith)),
  )
]

-- Of a log that has batches, the epoch of its end is that of the index.
pub log_epoch-last_start :
    (l : ReplLog)
    → suc l.base_lsn ≤ l.first_seg
    → l.first_seg ≤ l.last_lsn
    → log_epoch l ≡ last_start l.last_lsn 0 l.epochs
unfolding log_epoch epoch_at first_lsn
log_epoch-last_start l h k = ground arith
