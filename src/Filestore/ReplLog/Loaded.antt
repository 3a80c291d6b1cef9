-- ===== src/Filestore/ReplLog/Loaded.antt =====
-- The epoch index file says what the log has in memory.
use corndogs.Prelude.{
  some-ne-none, Option-cases, some-injective, ℕ, ◌≡◌, refl, sym, ap, subst, ◌∙◌, true, false, List,
  [], ◌∷◌, ◌++◌, none, some, ltb, leb, ◌==◌, ◌&&◌, length, Bool-cases, inl, inr,
}
use corndogs.Filestore.Task.{add64}
use corndogs.Filestore.Replication.{MutationBatch}
use corndogs.Filestore.ReplLog.{
  EpochLine, start_line, ReplLog, append, reset, roll, note_epoch, write_frame, log_epoch,
}
use corndogs.Filestore.ReplLog.Open.{EpochIndex, load_epochs, load_line, no_epochs}
use corndogs.Filestore.ReplLog.Appended.{written}
use corndogs.Filestore.ReplLog.ReadBack.{append_all}

abbrev pub index_of : ReplLog → EpochIndex
index_of l = record { base_lsn = l.base_lsn; base_ep = l.base_ep; epochs = l.epochs }

-- The lines of the index file say what the log has in memory.
abbrev pub IsLoaded : ReplLog → Type 0
IsLoaded l = load_epochs no_epochs l.lines ≡ index_of l

load_epochs-snoc :
    (i : EpochIndex) (ls : List EpochLine) (x : EpochLine)
    → load_epochs i (ls ++ x ∷ []) ≡ load_line x (load_epochs i ls)
unfolding load_epochs
load_epochs-snoc i [] x = refl
load_epochs-snoc i (y ∷ ls) x = load_epochs-snoc (load_line y i) ls x

pub note_epoch-IsLoaded : (b : MutationBatch) (l : ReplLog) → IsLoaded l → IsLoaded (note_epoch b l)
unfolding note_epoch
note_epoch-IsLoaded b l h = elim (Bool-cases (b.epoch == log_epoch l)) [
  | inl t ↦ rw t h
  | inr t ↦ rw t (
      load_epochs-snoc no_epochs l.lines (start_line b.lsn b.epoch)
      ∙ ap (load_line (start_line b.lsn b.epoch)) h)
]

pub roll-IsLoaded : (b : MutationBatch) (l : ReplLog) → IsLoaded l → IsLoaded (roll b l)
unfolding roll
roll-IsLoaded b l h =
    elim (Bool-cases (ltb 0 l.chunk_bytes && leb l.chunk_bytes (length l.active.bytes))) [
      | inl t ↦ rw t h
      | inr t ↦ rw t h
    ]

pub written-IsLoaded : (b : MutationBatch) (l : ReplLog) → IsLoaded l → IsLoaded (written b l)
unfolding write_frame
written-IsLoaded b l h = note_epoch-IsLoaded b (roll b l) (roll-IsLoaded b l h)

pub reset-IsLoaded : (next epoch : ℕ) (l : ReplLog) → IsLoaded (reset next epoch l)
unfolding reset load_epochs
reset-IsLoaded next epoch l = refl

append_accepted :
    (b : MutationBatch) (l : ReplLog)
    → (b.lsn == add64 l.last_lsn 1) ≡ true
    → append b l ≡ some (written b l)
unfolding append
append_accepted b l t = rw t refl

append_refused :
    (b : MutationBatch) (l : ReplLog) → (b.lsn == add64 l.last_lsn 1) ≡ false → append b l ≡ none
unfolding append
append_refused b l t = rw t refl

-- What each append keeps, all of them keep.
module _ (P : ReplLog → Type 0)
    (keeps : (b : MutationBatch) (l : ReplLog) → P l → P (written b l)) where
  append-keeps : (b : MutationBatch) (l l1 : ReplLog) → P l → append b l ≡ some l1 → P l1
  append-keeps b l l1 h e = elim (Bool-cases (b.lsn == add64 l.last_lsn 1)) [
    | inl t ↦
        subst P (some-injective (written b l) l1 (sym (append_accepted b l t) ∙ e)) (keeps b l h)
    | inr t ↦ elim (some-ne-none l1 (sym e ∙ append_refused b l t)) [ ]
  ]

  pub append_all-keeps :
      (bs : List MutationBatch) (l l' : ReplLog) → P l → append_all bs l ≡ some l' → P l'
  unfolding append_all
  append_all-keeps [] l l' h e = subst P (some-injective l l' e) h
  append_all-keeps (b ∷ bs) l l' h e = elim (Option-cases (append b l)) [
    | inl t ↦ elim (some-ne-none l' (sym e ∙ rw t refl)) [ ]
    | inr (l1, t) ↦ append_all-keeps bs l1 l' (append-keeps b l l1 h t) (sym (rw t refl) ∙ e)
  ]
