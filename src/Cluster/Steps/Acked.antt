-- ===== src/Cluster/Steps/Acked.antt =====
-- What a leader of corndogs/server/cluster counts as acknowledged, under each call of its methods.
use corndogs.Prelude.{
  suc, ℕ, zero, suc, ◌≤◌, ◌≡◌, refl, subst, true, false, ◌&&◌, List, [], ◌∷◌, Option, none, some,
  arith, All, Bool-cases, inl, inr, ltb, ◌==◌,
}
use corndogs.Bytes.{Bytes}
use corndogs.Cluster.Steps.Safety.{IsHeld}
use corndogs.Cluster.Floats.{Floats}
use corndogs.Cluster.Dict.{Dict, dict_put}
use corndogs.Cluster.Node.{
  Role, joining, follower, candidate, leader, MsgType, heartbeat, heartbeat_ack, bid_msg, Message,
  Node, Position, set_position, mark_caught_up, step_down, arm_stand_timer, hold_joining_now,
  is_candidate, is_leader,
}
use corndogs.Cluster.Election.{tick, start_election, decide_election, become_leader}
use corndogs.Cluster.Recv.{
  recv, handle, record_bid, handle_bid, handle_heartbeat, handle_heartbeat_ack, newer_round,
  join_round, settle, step_to_follower, nth_or_zero, insert_desc, sort_desc, values, durable_lsn,
}

abbrev pub Within : ℕ → Dict ℕ → Type 0
Within b = All (λ p. p.1 ≤ b)

Within-dict_put :
    (b : ℕ) (k : Bytes) (n : ℕ) (d : Dict ℕ) → n ≤ b → Within b d → Within b (dict_put k n d)
unfolding dict_put
Within-dict_put b k n [] h w = (h, tt)
Within-dict_put b k n ((j, m) ∷ d) h w = ground (arith, Within-dict_put b k n d)

pub Within-weaken : (b c : ℕ) (d : Dict ℕ) → b ≤ c → Within b d → Within c d
Within-weaken b c [] h w = tt
Within-weaken b c ((j, m) ∷ d) h w = (omega (arith, w.0, h), Within-weaken b c d h w.1)

module _ ⦃f : Floats⦄ where
  -- The acknowledgements that count: those of a leader.
  abbrev pub counted : Role → Dict ℕ → Dict ℕ
  counted leader d = d
  counted r d = []

  abbrev pub AckedWithin : ℕ → Node → Type 0
  AckedWithin b n = Within b (counted n.role n.acked_lsn)

  -- A call keeps the id and the position of the member, and what counts stays within `b`.
  pub record Stays (b : ℕ) (id : Bytes) (lsn : ℕ) (n : Node) : Type 0 where
    pub same_id : n.id ≡ id
    pub same_lsn : n.applied_lsn ≡ lsn
    pub within : AckedWithin b n

  abbrev pub Keeps : ℕ → Node → Node → Type 0
  Keeps b n n' = Stays b n.id n.applied_lsn n'

  pub tick-Keeps : (b now : ℕ) (n : Node) → AckedWithin b n → Keeps b n (tick now n)
  unfolding tick decide_election start_election become_leader arm_stand_timer
  tick-Keeps b now n h = record {
    same_id = ground arith;
    same_lsn = ground arith;
    within = ground arith;
  }

  pub heartbeat-Keeps :
      (b : ℕ) (m : Message) (n : Node) → AckedWithin b n → Keeps b n (handle_heartbeat m n)
  unfolding handle_heartbeat settle step_to_follower arm_stand_timer
  heartbeat-Keeps b m n h = record {
    same_id = ground arith;
    same_lsn = ground arith;
    within = ground arith;
  }

  ack-Keeps :
      (b : ℕ) (m : Message) (n : Node)
      → m.ack_lsn ≤ b
      → AckedWithin b n
      → Keeps b n (handle_heartbeat_ack m n)
  unfolding handle_heartbeat_ack
  ack-Keeps b m n k h = record {
    same_id = ground arith;
    same_lsn = ground arith;
    within = ground (arith, Within-dict_put b m.from m.ack_lsn n.acked_lsn);
  }

  newer_round-Keeps : (b : ℕ) (m : Message) (n : Node) → Keeps b n (newer_round m n)
  unfolding newer_round join_round arm_stand_timer
  newer_round-Keeps b m n = record {
    same_id = ground arith;
    same_lsn = ground arith;
    within = ground arith;
  }

  abbrev pub Kept : ℕ → Node → Option Node → Type 0
  Kept b n none = Unit {0}
  Kept b n (some n') = Keeps b n n'

  Keeps-refl : (b : ℕ) (n : Node) → AckedWithin b n → Keeps b n n
  Keeps-refl b n h = record { same_id = refl; same_lsn = refl; within = h }

  recorded-Kept :
      (b : ℕ) (n : Node) (bs : Option (Dict f.Float)) (ps : Option (Dict Position))
      → AckedWithin b n
      → Kept b n (record_bid bs ps n)
  recorded-Kept b n none ps h = tt
  recorded-Kept b n (some x) none h = tt
  recorded-Kept b n (some x) (some p) h = record { same_id = refl; same_lsn = refl; within = h }

  bid-Kept : (b : ℕ) (m : Message) (n : Node) → AckedWithin b n → Kept b n (handle_bid m n)
  unfolding handle_bid
  bid-Kept b m n h = elim (Bool-cases (ltb m.epoch n.epoch)) [
    | inl s ↦ rw s (Keeps-refl b n h)
    | inr s ↦ elim (Bool-cases (ltb n.epoch m.epoch)) [
      | inl t ↦ rw (s, t) (newer_round-Keeps b m n)
      | inr t ↦ elim (Bool-cases (is_candidate n.role)) [
        | inl c ↦ rw (s, t, c) (recorded-Kept b n _ _ h)
        | inr c ↦ rw (s, t, c) (Keeps-refl b n h)
      ]
    ]
  ]

  -- The only message that raises what counts is an acknowledgement that the leader takes.
  abbrev pub IsTaken : ℕ → MsgType → Message → Role → ℕ → Type 0
  IsTaken b heartbeat_ack m r epoch = is_leader r ≡ true → m.epoch ≡ epoch → m.ack_lsn ≤ b
  IsTaken b k m r epoch = Unit {0}

  ack_ignored :
      (m : Message) (n : Node)
      → (is_leader n.role && m.epoch == n.epoch) ≡ false
      → handle_heartbeat_ack m n ≡ n
  unfolding handle_heartbeat_ack
  ack_ignored m n h = ground arith

  message-Kept :
      (k : MsgType) (b : ℕ) (m : Message) (n : Node)
      → IsTaken b k m n.role n.epoch
      → AckedWithin b n
      → Kept b n (handle k m n)
  message-Kept bid_msg b m n t h = bid-Kept b m n h
  message-Kept heartbeat b m n t h = heartbeat-Keeps b m n h
  message-Kept heartbeat_ack b m n t h =
      elim (Bool-cases (is_leader n.role && m.epoch == n.epoch)) [
        | inl c ↦ ack-Keeps b m n (t (ground arith) (ground arith)) h
        | inr c ↦ rw (ack_ignored m n c) (Keeps-refl b n h)
      ]

  pub recv-Kept :
      (b now : ℕ) (m : Message) (n : Node)
      → IsTaken b m.kind m n.role n.epoch
      → AckedWithin b n
      → Kept b n (recv now m n)
  unfolding recv
  recv-Kept b now m n t h = message-Kept m.kind b m (record n { now = now }) t h

  pub set_position-AckedWithin :
      (b : ℕ) (p : Position) (n : Node) → AckedWithin b n → AckedWithin b (set_position p n)
  unfolding set_position arm_stand_timer
  set_position-AckedWithin b p n h = ground arith

  pub set_position_lem :
      (p : Position) (n : Node)
      → ((set_position p n).id ≡ n.id)
        × ((set_position p n).applied_lsn ≡ p.lsn)
        × ((set_position p n).leader_id ≡ n.leader_id)
        × (is_leader (set_position p n).role ≡ is_leader n.role)
  unfolding set_position arm_stand_timer
  set_position_lem p n = ground arith

  pub step_down_lem :
      (n : Node) → (is_leader n.role ≡ false → n.leader_id ≡ []) → (step_down n).leader_id ≡ []
  unfolding step_down arm_stand_timer
  step_down_lem n h = ground arith

  -- What counts of a member that does not lead is nothing.
  pub not_leader-AckedWithin : (b : ℕ) (n : Node) → is_leader n.role ≡ false → AckedWithin b n
  not_leader-AckedWithin b n h = ground arith

  pub mark_caught_up-Keeps : (b : ℕ) (n : Node) → AckedWithin b n → Keeps b n (mark_caught_up n)
  unfolding mark_caught_up arm_stand_timer
  mark_caught_up-Keeps b n h = record {
    same_id = ground arith;
    same_lsn = ground arith;
    within = ground arith;
  }

  pub hold_joining-Keeps : (b : ℕ) (n : Node) → AckedWithin b n → Keeps b n (hold_joining_now n)
  unfolding hold_joining_now
  hold_joining-Keeps b n h = record {
    same_id = ground arith;
    same_lsn = ground arith;
    within = ground arith;
  }

  pub hold_joining-IsHeld : (n : Node) → IsHeld (hold_joining_now n)
  unfolding hold_joining_now
  hold_joining-IsHeld n = record { held = ground arith; is_in = ground arith }

  pub step_down-Keeps : (b : ℕ) (n : Node) → AckedWithin b n → Keeps b n (step_down n)
  unfolding step_down arm_stand_timer
  step_down-Keeps b n h = record {
    same_id = ground arith;
    same_lsn = ground arith;
    within = ground arith;
  }

module _ ⦃f : Floats⦄ where
  insert_desc-All :
      (b x : ℕ) (xs : List ℕ) → x ≤ b → All (λ y. y ≤ b) xs → All (λ y. y ≤ b) (insert_desc x xs)
  unfolding insert_desc
  insert_desc-All b x [] h k = (h, tt)
  insert_desc-All b x (y ∷ ys) h k = ground (arith, insert_desc-All b x ys h k.1)

  sort_desc-All : (b : ℕ) (d : Dict ℕ) → Within b d → All (λ y. y ≤ b) (sort_desc (values d))
  unfolding sort_desc
  sort_desc-All b [] w = tt
  sort_desc-All b ((k, n) ∷ d) w =
      insert_desc-All b n (sort_desc (values d)) w.0 (sort_desc-All b d w.1)

  nth_or_zero-All : (b i : ℕ) (xs : List ℕ) → All (λ y. y ≤ b) xs → nth_or_zero i xs ≤ b
  unfolding nth_or_zero
  nth_or_zero-All b i [] h = omega arith
  nth_or_zero-All b zero (x ∷ xs) h = h.0
  nth_or_zero-All b (suc i) (x ∷ xs) h = nth_or_zero-All b i xs h.1

  counted_leader : (r : Role) (d : Dict ℕ) → is_leader r ≡ true → counted r d ≡ d
  counted_leader joining d h = cc
  counted_leader follower d h = cc
  counted_leader candidate d h = cc
  counted_leader leader d h = refl

  -- DurableLSN is not beyond what counts as acknowledged, nor the member's own position.
  pub durable_lsn_within :
      (b ack_count : ℕ) (n : Node)
      → AckedWithin b n
      → n.applied_lsn ≤ b
      → durable_lsn ack_count n ≤ b
  unfolding durable_lsn
  durable_lsn_within b zero n w h = ground arith
  durable_lsn_within b (suc i) n w h = elim (Bool-cases (is_leader n.role)) [
    | inl t ↦ rw t (
        nth_or_zero-All b i (sort_desc (values n.acked_lsn))
          (sort_desc-All b n.acked_lsn (subst (Within b) (counted_leader n.role n.acked_lsn t) w)))
    | inr t ↦ rw t (omega arith)
  ]
