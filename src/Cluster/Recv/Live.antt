-- ===== src/Cluster/Recv/Live.antt =====
-- The followers that a leader counts as live.
use corndogs.Prelude.{
  ℕ, ◌+◌, ◌^◌, ◌≤◌, ◌<◌, ◌≡◌, ◌↔◌, ◌∙◌, refl, ap, sym, subst, Bool, true, false, true≢false, not,
  ◌&&◌, List, [], ◌∷◌, some, Option-cases, Bool-cases, inl, inr, arith,
}
use corndogs.Bytes.{Bytes, equal}
use corndogs.Bytes.Laws.{equal_iff}
use corndogs.Bytes.Sort.{contains}
use corndogs.Cluster.Floats.{Floats}
use corndogs.Cluster.Dict.{Dict, dict_get, or_zero}
use corndogs.Cluster.Node.{Node, is_leader}
use corndogs.Filestore.Task.{sub64, lt64}
use corndogs.Cluster.Recv.{live_among, live_followers, is_live}

module _ ⦃f : Floats⦄ where
  -- The test that a peer has to pass.
  abbrev pub passes : Bytes → ℕ → Dict ℕ → Bytes → Bool
  passes id cutoff acked p = not (equal p id) && is_live cutoff (dict_get p acked)

  both_true : (a b : Bool) → (a && b) ≡ true → (a ≡ true) × (b ≡ true)
  both_true true b h = (refl, h)
  both_true false b h = elim (true≢false (sym h)) [ ]

  live_among-contains :
      (p id : Bytes) (cutoff : ℕ) (acked : Dict ℕ) (peers : List Bytes)
      → contains p (live_among id cutoff acked peers)
        ≡ (contains p peers && passes id cutoff acked p)
  unfolding live_among
  live_among-contains p id cutoff acked [] = refl
  live_among-contains p id cutoff acked (x ∷ xs) = elim (Bool-cases (equal p x)) [
    | inl q ↦
        let same : passes id cutoff acked x ≡ passes id cutoff acked p =
          ap (passes id cutoff acked) (sym ((equal_iff p x).0 q)) in
        ground (arith, live_among-contains p id cutoff acked xs, same)
    | inr q ↦ ground (arith, live_among-contains p id cutoff acked xs)
  ]

  -- The member is another peer that has acknowledged, at a time from which no more than the failure
  -- timeout has gone by.
  pub record IsFresh (p : Bytes) (n : Node) : Type 0 where
    pub peer : contains p n.peers ≡ true
    pub other : equal p n.id ≡ false
    pub at : ℕ
    pub acknowledged : dict_get p n.acked_at ≡ some at
    pub recent : n.now ≤ at + n.cfg.failure_timeout

  -- The test of a time on the clock, without wrap-around.
  not_before :
      (now span at : ℕ)
      → now < 2 ^ 63
      → span < 2 ^ 63
      → at < 2 ^ 63
      → (not (lt64 at (sub64 now span)) ≡ true) ↔ (now ≤ at + span)
  not_before now span at h k w = (λ t. ground (arith, t, h, k, w), λ t. ground (arith, t, h, k, w))

  passes-at :
      (p id : Bytes) (cutoff : ℕ) (acked : Dict ℕ)
      → passes id cutoff acked p ≡ true
      → (equal p id ≡ false)
        × ((at : ℕ) × (dict_get p acked ≡ some at) × (not (lt64 at cutoff) ≡ true))
  passes-at p id cutoff acked h = elim (Option-cases (dict_get p acked)) [
    | inl t ↦
        let u : (not (equal p id) && is_live cutoff (dict_get p acked)) ≡ false =
          rw t (ground arith) in
        elim (true≢false (sym h ∙ u)) [ ]
    | inr (at, t) ↦
        let u : (not (equal p id) && not (lt64 at cutoff)) ≡ true =
          ap (λ o. not (equal p id) && is_live cutoff o) (sym t) ∙ h in
        (ground (arith, u), (at, t, ground (arith, u)))
  ]

  at-passes :
      (p id : Bytes) (cutoff at : ℕ) (acked : Dict ℕ)
      → equal p id ≡ false
      → dict_get p acked ≡ some at
      → not (lt64 at cutoff) ≡ true
      → passes id cutoff acked p ≡ true
  at-passes p id cutoff at acked h k w = rw (h, k) w

  -- On a clock of 63 bits, LiveFollowers of a leader has exactly the members that are other peers, have
  -- acknowledged, and did so at a time from which no more than the failure timeout has gone by.
  pub live_followers-IsFresh :
      (p : Bytes) (n : Node)
      → is_leader n.role ≡ true
      → n.now < 2 ^ 63
      → n.cfg.failure_timeout < 2 ^ 63
      → or_zero 0 (dict_get p n.acked_at) < 2 ^ 63
      → (contains p (live_followers n) ≡ true) ↔ IsFresh p n
  unfolding live_followers
  live_followers-IsFresh p n l h k w =
      let cutoff : ℕ = sub64 n.now n.cfg.failure_timeout in
      let c : contains p (live_followers n)
          ≡ (contains p n.peers && passes n.id cutoff n.acked_at p) =
        rw l (live_among-contains p n.id cutoff n.acked_at n.peers) in
      let small : (at : ℕ) → dict_get p n.acked_at ≡ some at → at < 2 ^ 63 =
        λ at e. subst (λ o. or_zero 0 o < 2 ^ 63) e w in
      (
        λ t.
            let both =
              both_true (contains p n.peers) (passes n.id cutoff n.acked_at p) (sym c ∙ t) in
            let (o, (at, e, u)) = passes-at p n.id cutoff n.acked_at both.1 in
            record {
              peer = both.0;
              other = o;
              at = at;
              acknowledged = e;
              recent = (not_before n.now n.cfg.failure_timeout at h k (small at e)).0 u;
            },
        λ x.
            c
            ∙ rw x.peer (
                at-passes p n.id cutoff x.at n.acked_at x.other x.acknowledged (
                  (not_before n.now n.cfg.failure_timeout x.at h k (small x.at x.acknowledged)).1
                    x.recent)),
      )
