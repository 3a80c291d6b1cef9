-- ===== src/Clustering/Engine/Confirmed.antt =====
-- What success means in a round of the loop of corndogs/server/clustering/engine.go.
use corndogs.Prelude.{
  ℕ, ◌≡◌, refl, sym, ap, subst, ◌∙◌, ==_refl, Bool, true, false, true≢false, not, ◌&&◌, ◌||◌, List,
  [], ◌∷◌, ◌++◌, append_assoc, append-nil, some, some-injective, some-ne-none, Option-cases, ◌==◌,
  leb, if_cases, All, arith, inl, inr,
}
use corndogs.Filestore.Task.{add64}
use corndogs.Clustering.Engine.{
  release, publish_topology, after_step, Replicated, Outcome, done, not_leader, no_quorum, refused,
  CommitWaiter, StoreWrite, wrote, write_failed, Proposal, Engine, Input, frame, proposal, ticked,
  step, handle_proposal, after_write, quorum_unreachable,
}
use corndogs.Clustering.Engine.Committed.{
  is_done, committed_wait, Backed, IsPatient, after_step-Settled,
}

All-map :
    {A : Type 0} (P Q : A → Type 0) (xs : List A) → ((a : A) → P a → Q a) → All P xs → All Q xs
All-map P Q [] f h = tt
All-map P Q (a ∷ xs) f h = (f a h.0, All-map P Q xs f h.1)

All-join : {A : Type 0} (P : A → Type 0) (xs ys : List A) → All P xs → All P ys → All P (xs ++ ys)
All-join P [] ys h k = k
All-join P (x ∷ xs) ys h k = (h.0, All-join P xs ys h.1 k)

module _ ⦃r : Replicated⦄ {E : Type 0} where
  abbrev wrote_it : StoreWrite E → Bool
  wrote_it (wrote rep) = true
  wrote_it (write_failed x rep) = false

  -- The round took a proposal with the channel `c`, which was written, and the log up to the write is
  -- committed.
  abbrev pub committed_ask : Input E → Engine E → Engine E → ℕ → Bool
  committed_ask (proposal p) e e1 c =
      p.channel == c && (wrote_it (p.fn e.rep) && leb (r.last_lsn e1.rep) (r.committed_lsn e1.rep))
  committed_ask x e e1 c = false

  -- A success is told by a leader, for a position that is committed: one that was waited for, or the
  -- write of the proposal.
  abbrev pub Confirmed : Input E → Engine E → Engine E → ℕ × Outcome E → Type 0
  Confirmed x e e1 a =
      is_done a.1 ≡ true
      → ((r.is_leader e.rep || r.is_leader e1.rep) ≡ true)
        × ((committed_wait e1 a.0 e.waiters || committed_ask x e e1 a.0) ≡ true)

  -- What a round has sent, and who still waits.
  abbrev pub Settles : Input E → Engine E → Engine E → Type 0
  Settles x e e1 =
      All (IsPatient e1) e1.waiters
      × ((sent : List (ℕ × Outcome E)) × (e1.answers ≡ e.answers ++ sent)
          × All (Confirmed x e e1) sent)

  -- Two engines with the same replicator at the same time.
  abbrev SameRep : Engine E → Engine E → Type 0
  SameRep e2 e1 = (e2.rep ≡ e1.rep) × (e2.now ≡ e1.now)

  after_step-SameRep : (e : Engine E) → SameRep e (after_step E e)
  unfolding after_step publish_topology release
  after_step-SameRep e =
      if_cases (SameRep e) (r.is_leader e.rep && not e.was_leader) _ _ (λ t. (refl, refl))
        (λ t.
          if_cases (SameRep e) (not (r.is_leader e.rep)) _ _ (λ u. (refl, refl))
            (λ u. (refl, refl)))

  IsPatient-SameRep :
      (e2 e1 : Engine E) (w : CommitWaiter) → SameRep e2 e1 → IsPatient e2 w → IsPatient e1 w
  IsPatient-SameRep e2 e1 w s h = (rw (sym s.1) h.0, rw (sym s.0) h.1)

  committed_wait-SameRep :
      (e2 e1 : Engine E) (c : ℕ) (ws : List CommitWaiter)
      → SameRep e2 e1
      → committed_wait e2 c ws ≡ committed_wait e1 c ws
  committed_wait-SameRep e2 e1 c [] s = refl
  committed_wait-SameRep e2 e1 c (w ∷ ws) s = rw (s.0, committed_wait-SameRep e2 e1 c ws s) refl

  committed_ask-SameRep :
      (x : Input E) (e e2 e1 : Engine E) (c : ℕ)
      → SameRep e2 e1
      → committed_ask x e e2 c ≡ committed_ask x e e1 c
  committed_ask-SameRep (frame f) e e2 e1 c s = refl
  committed_ask-SameRep (proposal p) e e2 e1 c s = rw s.0 refl
  committed_ask-SameRep ticked e e2 e1 c s = refl

  Confirmed-SameRep :
      (x : Input E) (e e2 e1 : Engine E) (a : ℕ × Outcome E)
      → SameRep e2 e1
      → Confirmed x e e2 a
      → Confirmed x e e1 a
  Confirmed-SameRep x e e2 e1 a s h d = (
    ap (λ t. r.is_leader e.rep || r.is_leader t) (sym s.0) ∙ (h d).0,
    sym (
          rw (committed_wait-SameRep e2 e1 a.0 e.waiters s, committed_ask-SameRep x e e2 e1 a.0 s)
            refl)
        ∙ (h d).1,
  )

  committed_wait-append :
      (e : Engine E) (c : ℕ) (xs ys : List CommitWaiter)
      → committed_wait e c (xs ++ ys) ≡ (committed_wait e c xs || committed_wait e c ys)
  committed_wait-append e c [] ys = refl
  committed_wait-append e c (w ∷ xs) ys = ground (arith, committed_wait-append e c xs ys)

  -- The part of a round before afterStep: what it has sent, and who joined those that wait.
  record Handled (x : Input E) (e e2 : Engine E) : Type 0 where
    sent : List (ℕ × Outcome E)
    answered : e2.answers ≡ e.answers ++ sent
    confirmed : All (Confirmed x e e2) sent
    joined : List CommitWaiter
    waits : e2.waiters ≡ e.waiters ++ joined
    asked : (c : ℕ) → committed_wait e2 c joined ≡ true → committed_ask x e e2 c ≡ true

  joined-Confirmed :
      (x : Input E) (e e2 : Engine E) (h : Handled x e e2) (a : ℕ × Outcome E)
      → Backed e2 e2.waiters a
      → Confirmed x e e2 a
  joined-Confirmed x e e2 h a back d =
      let b : (r.is_leader e2.rep ≡ true) × (committed_wait e2 a.0 e2.waiters ≡ true) = back d in
      let w : (committed_wait e2 a.0 e.waiters || committed_wait e2 a.0 h.joined) ≡ true =
        sym (committed_wait-append e2 a.0 e.waiters h.joined)
        ∙ ap (committed_wait e2 a.0) (sym h.waits)
        ∙ b.1 in
      (ground (arith, b.0), ground (arith, w, h.asked a.0))

  after_step-Settles :
      (x : Input E) (e e2 : Engine E) → Handled x e e2 → Settles x e (after_step E e2)
  after_step-Settles x e e2 h =
      let e1 : Engine E = after_step E e2 in
      let s : SameRep e2 e1 = after_step-SameRep e2 in
      let (patient, (more, eq, backed)) = after_step-Settled e2 in
      (
        All-map (IsPatient e2) (IsPatient e1) e1.waiters (λ w. IsPatient-SameRep e2 e1 w s) patient,
        (
          h.sent ++ more,
          eq ∙ ap (λ t. t ++ more) h.answered ∙ append_assoc e.answers h.sent more,
          All-map (Confirmed x e e2) (Confirmed x e e1) (h.sent ++ more)
              (λ a. Confirmed-SameRep x e e2 e1 a s)
              (All-join (Confirmed x e e2) h.sent more h.confirmed (
                All-map (Backed e2 e2.waiters) (Confirmed x e e2) more (joined-Confirmed x e e2 h)
                  backed)),
        ),
      )

  -- Nothing is sent before afterStep.
  silent :
      (x : Input E) (e e2 : Engine E)
      → e2.answers ≡ e.answers
      → e2.waiters ≡ e.waiters
      → Handled x e e2
  silent x e e2 h k = record {
    sent = [];
    answered = h ∙ sym (append-nil e.answers);
    confirmed = tt;
    joined = [];
    waits = k ∙ sym (append-nil e.waiters);
    asked = λ c t. elim (true≢false (sym t)) [ ];
  }

  -- A proposal that is answered at once, and not with success.
  turned_down :
      (x : Input E) (channel : ℕ) (o : Outcome E) (e e2 : Engine E)
      → is_done o ≡ false
      → e2.answers ≡ e.answers ++ (channel, o) ∷ []
      → e2.waiters ≡ e.waiters
      → Handled x e e2
  turned_down x channel o e e2 n h k = record {
    sent = (channel, o) ∷ [];
    answered = h;
    confirmed = ((λ d. elim (true≢false (sym d ∙ n)) [ ]), tt);
    joined = [];
    waits = k ∙ sym (append-nil e.waiters);
    asked = λ c t. elim (true≢false (sym t)) [ ];
  }

  after_write-Handled :
      (p : Proposal E) (w : StoreWrite E) (e : Engine E)
      → p.fn e.rep ≡ w
      → r.is_leader e.rep ≡ true
      → Handled (proposal p) e (after_write E (r.last_lsn e.rep) p.channel w e)
  after_write-Handled p (write_failed x rep) e q l =
      turned_down (proposal p) p.channel (refused x) e _ refl refl refl
  after_write-Handled p (wrote rep) e q l =
      if_cases (Handled (proposal p) e)
        (r.last_lsn rep == r.last_lsn e.rep && leb (r.last_lsn rep) (r.committed_lsn rep)) _ _
        (λ t. record {
          sent = (p.channel, done) ∷ [];
          answered = refl;
          confirmed = (
            (λ d. (
              ground (arith, l),
              (let c : leb (r.last_lsn rep) (r.committed_lsn rep) ≡ true = ground (arith, t) in
                  rw (==_refl p.channel, q, c) (ground arith)),
            )),
            tt,
          );
          joined = [];
          waits = sym (append-nil e.waiters);
          asked = λ c u. elim (true≢false (sym u)) [ ];
        })
        (λ t. record {
          sent = [];
          answered = sym (append-nil e.answers);
          confirmed = tt;
          joined = _ ∷ [];
          waits = refl;
          asked = λ c u. rw q (ground (arith, u));
        })

  handle_proposal-Handled :
      (p : Proposal E) (e : Engine E) → Handled (proposal p) e (handle_proposal E p e)
  unfolding handle_proposal
  handle_proposal-Handled p e =
      if_cases (Handled (proposal p) e) (not (r.is_leader e.rep)) _ _
        (λ t. turned_down (proposal p) p.channel not_leader e _ refl refl refl)
        (λ t.
          if_cases (Handled (proposal p) e) (quorum_unreachable E e) _ _
            (λ u. turned_down (proposal p) p.channel no_quorum e _ refl refl refl)
            (λ u. after_write-Handled p (p.fn e.rep) e refl (ground (arith, t))))

  -- In each round of the loop that does not panic, whether it takes a frame, a proposal or a tick, success
  -- is sent only by a member that leads at the start or at the end of the round, and only on a channel on
  -- which someone waited for a position that is committed at the end of the round, or on the channel of the
  -- proposal that the round took, whose write did not fail and with the whole log up to it committed. This
  -- holds for the answer that handleProposal sends itself and for those of afterStep. Everyone who still
  -- waits is before the deadline and the member leads, and what was sent before is unchanged.
  pub step-Settles : (x : Input E) (e e1 : Engine E) → step E x e ≡ some e1 → Settles x e e1
  unfolding step
  step-Settles (frame f) e e1 h = elim (Option-cases (r.recv e.now f e.rep)) [
    | inl t ↦ elim (some-ne-none e1 (sym h ∙ rw t refl)) [ ]
    | inr (rep, t) ↦
        let e2 : Engine E = record e { rep = rep } in
        subst (Settles (frame f) e) (some-injective (after_step E e2) e1 (sym (rw t refl) ∙ h))
          (after_step-Settles (frame f) e e2 (silent (frame f) e e2 refl refl))
  ]
  step-Settles (proposal p) e e1 h =
      subst (Settles (proposal p) e) (some-injective (after_step E (handle_proposal E p e)) e1 h)
        (after_step-Settles (proposal p) e (handle_proposal E p e) (handle_proposal-Handled p e))
  step-Settles ticked e e1 h =
      let e2 : Engine E = record e { now = add64 e.now 1; rep = r.tick (add64 e.now 1) e.rep } in
      subst (Settles ticked e) (some-injective (after_step E e2) e1 h)
        (after_step-Settles ticked e e2 (silent ticked e e2 refl refl))
