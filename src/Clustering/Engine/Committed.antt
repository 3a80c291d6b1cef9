-- ===== src/Clustering/Engine/Committed.antt =====
-- What success means to a client.
use corndogs.Prelude.{
  ℕ, ◌≡◌, refl, sym, ap, some-ne-none, ==_refl, ◌∙◌, Bool, true, false, true≢false, not, ◌&&◌, ◌||◌,
  List, [], ◌∷◌, ◌++◌, Option, none, some, if◌then◌else◌, ◌==◌, leb, All, arith, Bool-cases, inl,
  inr,
}
use corndogs.Filestore.Task.{lt64}
use corndogs.Clustering.Engine.{
  track_leader, publish_topology, release_waiters, after_step, Replicated, Outcome, done,
  not_leader, no_quorum, commit_timeout, refused, CommitWaiter, Engine, verdict, keep_or_answer,
  release,
}

module _ ⦃r : Replicated⦄ {E : Type 0} where
  abbrev pub is_done : Outcome E → Bool
  is_done done = true
  is_done not_leader = false
  is_done no_quorum = false
  is_done commit_timeout = false
  is_done (refused x) = false

  -- Someone waits on the channel `c` for a position that is committed.
  abbrev pub committed_wait : Engine E → ℕ → List CommitWaiter → Bool
  committed_wait e c [] = false
  committed_wait e c (w ∷ ws) =
      (w.channel == c && leb w.lsn (r.committed_lsn e.rep)) || committed_wait e c ws

  -- A success is for a committed position on a leader.
  abbrev pub Backed : Engine E → List CommitWaiter → ℕ × Outcome E → Type 0
  Backed e ws a = is_done a.1 ≡ true → (r.is_leader e.rep ≡ true) × (committed_wait e a.0 ws ≡ true)

  -- A waiter that stays is before its deadline, and its member leads.
  abbrev pub IsPatient : Engine E → CommitWaiter → Type 0
  IsPatient e w = (lt64 e.now w.deadline ≡ true) × (r.is_leader e.rep ≡ true)

  Backed-cons :
      (e : Engine E) (w : CommitWaiter) (ws : List CommitWaiter) (xs : List (ℕ × Outcome E))
      → All (Backed e ws) xs
      → All (Backed e (w ∷ ws)) xs
  Backed-cons e w ws [] h = tt
  Backed-cons e w ws (a ∷ xs) h =
      ((λ d. ((h.0 d).0, ground (arith, (h.0 d).1))), Backed-cons e w ws xs h.1)

  abbrev done_in : Option (Outcome E) → Bool
  done_in none = false
  done_in (some o) = is_done o

  -- What goes to a waiter, from the tests of its verdict: leading, committed, in time.
  abbrev told : Bool → Bool → Bool → Option (Outcome E)
  told leads committed early =
      if leads && committed
      then some done
      else if not early || not leads
      then some commit_timeout
      else none

  told-done :
      (leads committed early : Bool) (o : Outcome E)
      → told leads committed early ≡ some o
      → is_done o ≡ true
      → (leads ≡ true) × (committed ≡ true)
  told-done true true early o h d = (refl, refl)
  told-done true false true o h d = elim (true≢false (sym (ap done_in h ∙ d))) [ ]
  told-done true false false o h d = elim (true≢false (sym (ap done_in h ∙ d))) [ ]
  told-done false committed true o h d = elim (true≢false (sym (ap done_in h ∙ d))) [ ]
  told-done false committed false o h d = elim (true≢false (sym (ap done_in h ∙ d))) [ ]

  told-none :
      (leads committed early : Bool)
      → told leads committed early ≡ none
      → (early ≡ true) × (leads ≡ true)
  told-none true true early h = elim (some-ne-none done h) [ ]
  told-none true false true h = (refl, refl)
  told-none true false false h = elim (some-ne-none commit_timeout h) [ ]
  told-none false committed true h = elim (some-ne-none commit_timeout h) [ ]
  told-none false committed false h = elim (some-ne-none commit_timeout h) [ ]

  verdict-Backed :
      (e : Engine E) (w : CommitWaiter) (ws : List CommitWaiter) (o : Outcome E)
      → verdict E e w ≡ some o
      → Backed e (w ∷ ws) (w.channel, o)
  unfolding verdict
  verdict-Backed e w ws o h d =
      let t : (r.is_leader e.rep ≡ true) × (leb w.lsn (r.committed_lsn e.rep) ≡ true) =
        told-done (r.is_leader e.rep) (leb w.lsn (r.committed_lsn e.rep)) (lt64 e.now w.deadline) o
          h d in
      (t.0, rw (==_refl w.channel, t.1) refl)

  verdict-IsPatient : (e : Engine E) (w : CommitWaiter) → verdict E e w ≡ none → IsPatient e w
  unfolding verdict
  verdict-IsPatient e w h =
      told-none (r.is_leader e.rep) (leb w.lsn (r.committed_lsn e.rep)) (lt64 e.now w.deadline) h

  keep_or_answer-Backed :
      (e : Engine E) (w : CommitWaiter) (ws : List CommitWaiter) (v : Option (Outcome E))
      (k : List CommitWaiter × List (ℕ × Outcome E))
      → verdict E e w ≡ v
      → All (IsPatient e) k.0 × All (Backed e ws) k.1
      → All (IsPatient e) (keep_or_answer E w v k).0
        × All (Backed e (w ∷ ws)) (keep_or_answer E w v k).1
  keep_or_answer-Backed e w ws none (kept, sent) h k =
      ((verdict-IsPatient e w h, k.0), Backed-cons e w ws sent k.1)
  keep_or_answer-Backed e w ws (some o) (kept, sent) h k =
      (k.0, (verdict-Backed e w ws o h, Backed-cons e w ws sent k.1))

  release-Backed :
      (e : Engine E) (ws : List CommitWaiter)
      → All (IsPatient e) (release E e ws).0 × All (Backed e ws) (release E e ws).1
  unfolding release
  release-Backed e [] = (tt, tt)
  release-Backed e (w ∷ ws) =
      keep_or_answer-Backed e w ws (verdict E e w) (release E e ws) refl (release-Backed e ws)

  -- What a step has sent, beyond what was sent before.
  abbrev pub Settled : Engine E → Engine E → Type 0
  Settled e e1 =
      All (IsPatient e) e1.waiters
      × ((sent : List (ℕ × Outcome E)) × (e1.answers ≡ e.answers ++ sent)
          × All (Backed e e.waiters) sent)

  track_leader-Settled : (e : Engine E) → Settled e (release_waiters E (track_leader E e))
  track_leader-Settled e = elim (Bool-cases (r.is_leader e.rep && not e.was_leader)) [
    | inl t ↦ rw t (settled (record e { leader_since = e.now; was_leader = true }))
    | inr t ↦ elim (Bool-cases (r.is_leader e.rep)) [
      | inl u ↦ rw (t, u) (settled e)
      | inr u ↦ rw (t, u) (settled (record e { was_leader = false }))
    ]
  ]
    where
      settled : (e : Engine E) → Settled e (release_waiters E e)
      settled e = (
        (release-Backed e e.waiters).0,
        ((release E e e.waiters).1, refl, (release-Backed e e.waiters).1),
      )

  pub after_step-Settled : (e : Engine E) → Settled e (after_step E e)
  unfolding after_step publish_topology
  after_step-Settled e = track_leader-Settled e
