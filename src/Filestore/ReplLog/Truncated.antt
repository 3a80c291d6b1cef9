-- ===== src/Filestore/ReplLog/Truncated.antt =====
-- Truncate takes nothing away that is still wanted.
use corndogs.Prelude.{
  ℕ, ◌≤◌, ◌≡◌, refl, ap, ◌∙◌, true, false, List, [], ◌∷◌, ◌++◌, leb, arith, Bool-cases, inl, inr,
}
use corndogs.Filestore.Task.{add64}
use corndogs.Filestore.ReplLog.{
  Segment, ReplLog, some_starts, from_start, replay_segments, read_from,
}
use corndogs.Filestore.ReplLog.Open.{truncate, truncate_closed, next_first}

abbrev remaining : ℕ → Segment → List Segment → ℕ → List Segment
remaining floor active segs first_seg = (truncate_closed floor active segs first_seg).0

remaining-dropped :
    (floor : ℕ) (active s : Segment) (segs : List Segment) (first_seg : ℕ)
    → leb (next_first active segs) floor ≡ true
    → remaining floor active (s ∷ segs) first_seg
      ≡ remaining floor active segs (next_first active segs)
unfolding truncate_closed
remaining-dropped floor active s segs first_seg t = rw (remaining, t) refl

remaining-kept :
    (floor : ℕ) (active s : Segment) (segs : List Segment) (first_seg : ℕ)
    → leb (next_first active segs) floor ≡ false
    → remaining floor active (s ∷ segs) first_seg ≡ s ∷ remaining floor active segs first_seg
unfolding truncate_closed
remaining-kept floor active s segs first_seg t = rw (remaining, t) refl

-- The segment after a removed one starts early enough.
next_starts :
    (after floor : ℕ) (active : Segment) (segs : List Segment)
    → floor ≤ add64 after 1
    → leb (next_first active segs) floor ≡ true
    → some_starts after (segs ++ active ∷ []) ≡ true
next_starts after floor active [] w h = ground (arith, w, h)
next_starts after floor active (s ∷ segs) w h = ground (arith, w, h)

some_starts-remaining :
    (after floor : ℕ) (active : Segment) (segs : List Segment) (first_seg : ℕ)
    → floor ≤ add64 after 1
    → some_starts after (remaining floor active segs first_seg ++ active ∷ [])
      ≡ some_starts after (segs ++ active ∷ [])
some_starts-remaining after floor active [] first_seg w = unfold truncate_closed in refl
some_starts-remaining after floor active (s ∷ segs) first_seg w =
    elim (Bool-cases (leb (next_first active segs) floor)) [
      | inl t ↦
          rw
            (
              remaining-dropped floor active s segs first_seg t,
              some_starts-remaining after floor active segs (next_first active segs) w,
              next_starts after floor active segs w t,
            )
            (ground arith)
      | inr t ↦
          rw
            (
              remaining-kept floor active s segs first_seg t,
              some_starts-remaining after floor active segs first_seg w,
            )
            refl
    ]

-- If none starts early enough, none is removed.
remaining-all :
    (after floor : ℕ) (active : Segment) (segs : List Segment) (first_seg : ℕ)
    → floor ≤ add64 after 1
    → some_starts after (segs ++ active ∷ []) ≡ false
    → remaining floor active segs first_seg ≡ segs
remaining-all after floor active [] first_seg w h = unfold truncate_closed in refl
remaining-all after floor active (s ∷ segs) first_seg w h =
    elim (Bool-cases (leb (next_first active segs) floor)) [
      | inl t ↦ absurd (ground (arith, h, next_starts after floor active segs w t))
      | inr t ↦
          remaining-kept floor active s segs first_seg t
          ∙ ap (λ r. s ∷ r) (remaining-all after floor active segs first_seg w (ground (arith, h)))
    ]

from_start-remaining :
    (after floor : ℕ) (active : Segment) (segs : List Segment) (first_seg : ℕ)
    → floor ≤ add64 after 1
    → from_start after (remaining floor active segs first_seg ++ active ∷ [])
      ≡ from_start after (segs ++ active ∷ [])
unfolding from_start
from_start-remaining after floor active [] first_seg w = unfold truncate_closed in refl
from_start-remaining after floor active (s ∷ segs) first_seg w =
    elim (Bool-cases (leb (next_first active segs) floor)) [
      | inl t ↦
          rw
            (
              remaining-dropped floor active s segs first_seg t,
              next_starts after floor active segs w t,
            )
            (from_start-remaining after floor active segs (next_first active segs) w)
      | inr t ↦
          rw
            (
              remaining-kept floor active s segs first_seg t,
              some_starts-remaining after floor active segs first_seg w,
              from_start-remaining after floor active segs first_seg w,
            )
            (elim (Bool-cases (some_starts after (segs ++ active ∷ []))) [
              | inl u ↦ rw u refl
              | inr u ↦ rw (u, remaining-all after floor active segs first_seg w u) refl
            ])
    ]

-- After Truncate with a floor of at most `after + 1`, ReadFrom gives for `after` what it gave before.
pub read_from-truncate :
    (after floor : ℕ) (l : ReplLog)
    → floor ≤ add64 after 1
    → read_from after (truncate floor l) ≡ read_from after l
unfolding read_from truncate
read_from-truncate after floor l w =
    ap (replay_segments after l.epochs)
      (from_start-remaining after floor l.active l.closed l.first_seg w)
