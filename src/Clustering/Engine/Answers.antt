-- ===== src/Clustering/Engine/Answers.antt =====
-- How often each proposal that the loop takes is answered.
use corndogs.Prelude.{
  ℕ, ◌+◌, ◌≡◌, refl, ap, sym, subst, ◌∙◌, some-injective, some-ne-none, Option-cases, not, ◌&&◌,
  List, [], ◌∷◌, ◌++◌, Option, none, some, if◌then◌else◌, ◌==◌, leb, arith, Bool-cases, inl, inr,
}
use corndogs.Filestore.Task.{add64}
use corndogs.Clustering.Engine.{
  Replicated, Outcome, done, not_leader, no_quorum, refused, CommitWaiter, StoreWrite, wrote,
  write_failed, Proposal, Engine, handle_proposal, after_write, quorum_unreachable, verdict,
  keep_or_answer, release, track_leader, publish_topology, after_step, fail_each, fail_all_waiters,
  Input, frame, proposal, ticked, step, run,
}

module _ {E : Type 0} where
  -- How often something was sent on the channel `c`.
  abbrev pub sent_on : ℕ → List (ℕ × Outcome E) → ℕ
  sent_on c [] = 0
  sent_on c ((d, outcome) ∷ rest) = (if c == d then 1 else 0) + sent_on c rest

  sent_on-append :
      (c : ℕ) (xs ys : List (ℕ × Outcome E)) → sent_on c (xs ++ ys) ≡ sent_on c xs + sent_on c ys
  sent_on-append c [] ys = omega arith
  sent_on-append c ((d, o) ∷ xs) ys = omega (arith, sent_on-append c xs ys)

-- How many wait on the channel `c`.
abbrev pub waiting_on : ℕ → List CommitWaiter → ℕ
waiting_on c [] = 0
waiting_on c (w ∷ ws) = (if c == w.channel then 1 else 0) + waiting_on c ws

waiting_on-append :
    (c : ℕ) (xs ys : List CommitWaiter)
    → waiting_on c (xs ++ ys) ≡ waiting_on c xs + waiting_on c ys
waiting_on-append c [] ys = omega arith
waiting_on-append c (w ∷ xs) ys = omega (arith, waiting_on-append c xs ys)

module _ ⦃r : Replicated⦄ (E : Type 0) where
  fail_each-sent : (c : ℕ) (ws : List CommitWaiter) → sent_on c (fail_each E ws) ≡ waiting_on c ws
  fail_each-sent c [] = refl
  fail_each-sent c (w ∷ ws) = omega (arith, fail_each-sent c ws)

module _ ⦃r : Replicated⦄ {E : Type 0} where
  abbrev pub asked_by : ℕ → Input E → ℕ
  asked_by c (frame f) = 0
  asked_by c (proposal p) = if c == p.channel then 1 else 0
  asked_by c ticked = 0

  -- How many of the inputs are proposals with the channel `c`.
  abbrev pub asked_on : ℕ → List (Input E) → ℕ
  asked_on c [] = 0
  asked_on c (x ∷ xs) = asked_by c x + asked_on c xs

  -- What was sent, and what is still to be sent, on the channel `c`.
  abbrev pub due : ℕ → Engine E → ℕ
  due c e = sent_on c e.answers + waiting_on c e.waiters

  after_write-due :
      (c before channel : ℕ) (w : StoreWrite E) (e : Engine E)
      → due c (after_write E before channel w e) ≡ due c e + (if c == channel then 1 else 0)
  after_write-due c before channel (write_failed x rep) e =
      omega (arith, sent_on-append c e.answers ((channel, refused x) ∷ []))
  after_write-due c before channel (wrote rep) e =
      elim (Bool-cases (r.last_lsn rep == before && leb (r.last_lsn rep) (r.committed_lsn rep))) [
        | inl t ↦ rw t (omega (arith, sent_on-append c e.answers ((channel, done) ∷ [])))
        | inr t ↦ rw t (
            omega (
              arith,
              waiting_on-append c e.waiters
                  (record { lsn = r.last_lsn rep; deadline = _; channel = channel } ∷ []),
            ))
      ]

  handle_proposal-due :
      (c : ℕ) (p : Proposal E) (e : Engine E)
      → due c (handle_proposal E p e) ≡ due c e + (if c == p.channel then 1 else 0)
  unfolding handle_proposal
  handle_proposal-due c p e = elim (Bool-cases (r.is_leader e.rep)) [
    | inr t ↦ rw t (omega (arith, sent_on-append c e.answers ((p.channel, not_leader) ∷ [])))
    | inl t ↦ elim (Bool-cases (quorum_unreachable E e)) [
      | inl u ↦ rw (t, u) (omega (arith, sent_on-append c e.answers ((p.channel, no_quorum) ∷ [])))
      | inr u ↦ rw (t, u) (after_write-due c (r.last_lsn e.rep) p.channel (p.fn e.rep) e)
    ]
  ]

  keep_or_answer-due :
      (c : ℕ) (w : CommitWaiter) (v : Option (Outcome E))
      (k : List CommitWaiter × List (ℕ × Outcome E))
      → waiting_on c (keep_or_answer E w v k).0 + sent_on c (keep_or_answer E w v k).1
        ≡ (if c == w.channel then 1 else 0) + (waiting_on c k.0 + sent_on c k.1)
  keep_or_answer-due c w none (kept, sent) = omega arith
  keep_or_answer-due c w (some o) (kept, sent) = omega arith

  release-due :
      (c : ℕ) (e : Engine E) (ws : List CommitWaiter)
      → waiting_on c (release E e ws).0 + sent_on c (release E e ws).1 ≡ waiting_on c ws
  unfolding release
  release-due c e [] = omega arith
  release-due c e (w ∷ ws) =
      omega (arith, keep_or_answer-due c w (verdict E e w) (release E e ws), release-due c e ws)

  track_leader-due : (c : ℕ) (e : Engine E) → due c (track_leader E e) ≡ due c e
  track_leader-due c e = elim (Bool-cases (r.is_leader e.rep && not e.was_leader)) [
    | inl t ↦ rw t refl
    | inr t ↦ elim (Bool-cases (r.is_leader e.rep)) [
      | inl u ↦ rw (t, u) refl
      | inr u ↦ rw (t, u) refl
    ]
  ]

  after_step-due : (c : ℕ) (e : Engine E) → due c (after_step E e) ≡ due c e
  unfolding after_step publish_topology
  after_step-due c e =
      let t : Engine E = track_leader E e in
      omega (
        arith,
        sent_on-append c t.answers (release E t t.waiters).1,
        release-due c t t.waiters,
        track_leader-due c e,
      )

  -- A round that ends without a panic owes what it owed, and the answer to its proposal.
  step-due :
      (c : ℕ) (x : Input E) (e e1 : Engine E)
      → step E x e ≡ some e1
      → due c e1 ≡ due c e + asked_by c x
  unfolding step
  step-due c (frame f) e e1 h = elim (Option-cases (r.recv e.now f e.rep)) [
    | inl t ↦ elim (some-ne-none e1 (sym h ∙ rw t refl)) [ ]
    | inr (rep, t) ↦
        let e2 : Engine E = record e { rep = rep } in
        ap (due c) (sym (some-injective (after_step E e2) e1 (sym (rw t refl) ∙ h)))
        ∙ omega (arith, after_step-due c e2)
  ]
  step-due c (proposal p) e e1 h =
      let e2 : Engine E = handle_proposal E p e in
      ap (due c) (sym (some-injective (after_step E e2) e1 h))
      ∙ after_step-due c e2
      ∙ handle_proposal-due c p e
  step-due c ticked e e1 h =
      let e2 : Engine E = record e { now = add64 e.now 1; rep = r.tick (add64 e.now 1) e.rep } in
      ap (due c) (sym (some-injective (after_step E e2) e1 h)) ∙ omega (arith, after_step-due c e2)

  abbrev pub Answered : List (Input E) → Engine E → Engine E → Type 0
  Answered xs e e' = (e'.waiters ≡ []) × ((c : ℕ) → sent_on c e'.answers ≡ due c e + asked_on c xs)

  pub run-Answered :
      (xs : List (Input E)) (e e' : Engine E) → run E xs e ≡ some e' → Answered xs e e'
  unfolding run fail_all_waiters
  run-Answered [] e e' h = subst (Answered [] e) (some-injective (fail_all_waiters E e) e' h) (
    refl,
    λ c.
        omega
          (arith, sent_on-append c e.answers (fail_each E e.waiters), fail_each-sent E c e.waiters),
  )
  run-Answered (x ∷ xs) e e' h = elim (Option-cases (step E x e)) [
    | inl t ↦ elim (some-ne-none e' (sym h ∙ rw t refl)) [ ]
    | inr (e1, t) ↦
        let rest : Answered xs e1 e' = run-Answered xs e1 e' (sym (rw t refl) ∙ h) in
        (rest.0, λ c. omega (arith, rest.1 c, step-due c x e e1 t))
  ]
