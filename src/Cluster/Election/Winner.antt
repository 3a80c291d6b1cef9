-- ===== src/Cluster/Election/Winner.antt =====
-- The winner of a round has the newest position of the bidders.
use corndogs.Prelude.{
  ◌≡◌, refl, ap, sym, subst, ◌∙◌, true, false, [], ◌∷◌, none, some, if◌then◌else◌, arith, All,
  Bool-cases, inl, inr,
}
use corndogs.Bytes.{Bytes, equal}
use corndogs.Bytes.Laws.{equal_iff}
use corndogs.Cluster.Floats.{Floats}
use corndogs.Cluster.Dict.{Dict, dict_get, or_zero}
use corndogs.Cluster.Node.{Node, Position, older, position, is_leader}
use corndogs.Cluster.Election.{
  Best, better, best_bidder, entries, highest_bidder, decide_election, no_position, same_position,
}

older_trans : (p q r : Position) → older p q ≡ false → older q r ≡ false → older p r ≡ false
unfolding older
older_trans p q r h k = ground arith

older_same : (p q : Position) → same_position p q ≡ true → older p q ≡ false
unfolding older same_position
older_same p q h = ground arith

older_asym : (p q : Position) → older p q ≡ true → older q p ≡ false
unfolding older
older_asym p q h = ground arith

module _ ⦃f : Floats⦄ where
  abbrev pub position_in : Dict Position → Bytes → Position
  position_in pos id = or_zero no_position (dict_get id pos)

  -- No bidder of the list is newer than `top`.
  abbrev pub Newest : Dict Position → Position → Dict f.Float → Type 0
  Newest pos top = All (λ entry. older top (position_in pos entry.0) ≡ false)

  better-older :
      (best : Best) (id : Bytes) (b : f.Float) (p : Position)
      → equal best.best_id [] ≡ false
      → better best id b p ≡ true
      → older p best.best_pos ≡ false
  unfolding better
  better-older best id b p e h = elim (Bool-cases (older best.best_pos p)) [
    | inl o ↦ older_asym best.best_pos p o
    | inr o ↦ older_same p best.best_pos (ground arith)
  ]

  rejected-older :
      (best : Best) (id : Bytes) (b : f.Float) (p : Position)
      → better best id b p ≡ false
      → (equal best.best_id [] ≡ false) × (older best.best_pos p ≡ false)
  unfolding better
  rejected-older best id b p h = (ground arith, ground arith)

  abbrev Top : Dict Position → Best → Best → Dict f.Float → Type 0
  Top pos best top ds =
      (equal best.best_id [] ≡ false → older top.best_pos best.best_pos ≡ false)
      × Newest pos top.best_pos ds

  -- One round of the loop keeps the newer position.
  abbrev chosen : Best → Bytes → f.Float → Position → Best
  chosen best id b p =
      if better best id b p then record { best_id = id; best_bid = b; best_pos = p } else best

  older_refl : (p : Position) → older p p ≡ false
  unfolding older
  older_refl p = ground arith

  abbrev Chosen : Best → Position → Best → Type 0
  Chosen best p c =
      (equal c.best_id [] ≡ false)
      × (older c.best_pos p ≡ false)
      × (equal best.best_id [] ≡ false → older c.best_pos best.best_pos ≡ false)

  chosen-Chosen :
      (best : Best) (id : Bytes) (b : f.Float) (p : Position)
      → equal id [] ≡ false
      → Chosen best p (chosen best id b p)
  chosen-Chosen best id b p h = elim (Bool-cases (better best id b p)) [
    | inl t ↦ rw t (h, older_refl p, λ e. better-older best id b p e t)
    | inr t ↦
        let (e, o) = rejected-older best id b p t in rw t (e, o, λ e'. older_refl best.best_pos)
  ]

  best_bidder-Top :
      (pos : Dict Position) (best : Best) (ds : Dict f.Float)
      → All (λ entry. equal entry.0 [] ≡ false) ds
      → Top pos best (best_bidder pos best ds) ds
  unfolding best_bidder
  best_bidder-Top pos best [] h = (λ e. older_refl best.best_pos, tt)
  best_bidder-Top pos best ((id, b) ∷ ds) h =
      let p : Position = position_in pos id in
      let c : Best = chosen best id b p in
      let (e, o, k) = chosen-Chosen best id b p h.0 in
      let (t, rest) = best_bidder-Top pos c ds h.1 in
      (
        λ e'. older_trans (best_bidder pos c ds).best_pos c.best_pos best.best_pos (t e) (k e'),
        (older_trans (best_bidder pos c ds).best_pos c.best_pos p (t e) o, rest),
      )

  -- The best bidder has its own recorded position.
  best_bidder_own :
      (pos : Dict Position) (best : Best) (ds : Dict f.Float)
      → best.best_pos ≡ position_in pos best.best_id
      → (best_bidder pos best ds).best_pos ≡ position_in pos (best_bidder pos best ds).best_id
  unfolding best_bidder
  best_bidder_own pos best [] h = h
  best_bidder_own pos best ((id, b) ∷ ds) h =
      best_bidder_own pos (chosen best id b (position_in pos id)) ds
        (elim (Bool-cases (better best id b (position_in pos id))) [
          | inl t ↦ rw t refl
          | inr t ↦ rw t h
        ])

  highest-Newest :
      (n : Node)
      → All (λ entry. equal entry.0 [] ≡ false) (entries n.bids)
      → Newest (entries n.bid_pos) (highest_bidder n).best_pos (entries n.bids)
  unfolding highest_bidder
  highest-Newest n ids =
      (best_bidder-Top (entries n.bid_pos)
        (record { best_id = []; best_bid = f.minus_one; best_pos = no_position }) (entries n.bids)
        ids).1

  highest_own :
      (n : Node)
      → dict_get [] (entries n.bid_pos) ≡ none
      → (highest_bidder n).best_pos ≡ position_in (entries n.bid_pos) (highest_bidder n).best_id
  unfolding highest_bidder
  highest_own n z =
      best_bidder_own (entries n.bid_pos)
        (record { best_id = []; best_bid = f.minus_one; best_pos = no_position }) (entries n.bids)
        (sym (ap (or_zero no_position) z))

  winner_self :
      (n : Node) → is_leader (decide_election n).role ≡ true → (highest_bidder n).best_id ≡ n.id
  unfolding decide_election
  winner_self n l = elim (Bool-cases (equal (highest_bidder n).best_id n.id)) [
    | inl w ↦ (equal_iff (highest_bidder n).best_id n.id).0 w
    | inr w ↦ ground arith
  ]

  -- A member that decides its round becomes leader only if no bidder whose bid it holds has a newer
  -- position than its own.
  -- The member holds its own position among those of the bidders, and no id is empty.
  pub decide-Newest :
      (n : Node)
      → All (λ entry. equal entry.0 [] ≡ false) (entries n.bids)
      → dict_get [] (entries n.bid_pos) ≡ none
      → dict_get n.id (entries n.bid_pos) ≡ some (position n)
      → is_leader (decide_election n).role ≡ true
      → Newest (entries n.bid_pos) (position n) (entries n.bids)
  decide-Newest n ids zero_id own l =
      let pos : Dict Position = entries n.bid_pos in
      let same : (highest_bidder n).best_pos ≡ position n =
        highest_own n zero_id
        ∙ ap (position_in pos) (winner_self n l)
        ∙ ap (or_zero no_position) own in
      subst (λ p. Newest pos p (entries n.bids)) same (highest-Newest n ids)
