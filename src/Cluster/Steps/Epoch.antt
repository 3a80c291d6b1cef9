-- ===== src/Cluster/Steps/Epoch.antt =====
-- The epochs of a member and of what it holds.
use corndogs.Prelude.{
  ℕ, ◌+◌, ◌^◌, ◌<◌, ◌≤◌, ◌≡◌, List, [], ◌∷◌, Option, none, some, arith, some-injective,
  some-ne-none, ltb, All, Bool-cases, inl, inr, subst, Option-cases, length, ap, ◌∙◌, sym,
}
use corndogs.Cluster.Floats.{Floats}
use corndogs.Cluster.Node.{
  Message, Node, Position, tag_epoch, set_applied_lsn, mark_caught_up, set_position,
  hold_joining_now, step_down, take_outbox, arm_stand_timer, is_candidate, MsgType, heartbeat,
  heartbeat_ack, bid_msg,
}
use corndogs.Cluster.Election.{tick, start_election, decide_election, become_leader}
use corndogs.Cluster.Recv.{
  recv, handle, record_bid, handle_bid, handle_heartbeat, handle_heartbeat_ack, newer_round,
  join_round, settle, step_to_follower,
}
use corndogs.Cluster.Dict.{Dict}
use corndogs.Cluster.Steps.{
  Event, on_tick, on_message, on_applied, on_caught_up, on_position, on_hold, on_step_down,
  on_outbox, step, run, and_then,
}

module _ ⦃f : Floats⦄ where
  -- A step from epoch `old` to `n'` within the bound `b` on the epochs that are around.
  record Grows (b old : ℕ) (n' : Node) : Type 0 where
    grows : old ≤ n'.epoch
    below : n'.epoch ≤ b + 1
    holds : tag_epoch n'.last_epoch ≤ n'.epoch

  abbrev Grown : ℕ → ℕ → Option Node → Type 0
  Grown b old none = Unit {0}
  Grown b old (some n') = Grows b old n'

  record Starts (b : ℕ) (n : Node) : Type 0 where
    starts : n.epoch ≤ b
    fits : b + 1 < 2 ^ 64
    has : tag_epoch n.last_epoch ≤ n.epoch

  tick-Grows : (b now : ℕ) (n : Node) → Starts b n → Grows b n.epoch (tick now n)
  unfolding tick decide_election start_election become_leader arm_stand_timer
  tick-Grows b now n h = record { grows = ground arith; below = ground arith; holds = ground arith }

  heartbeat-Grows :
      (b : ℕ) (m : Message) (n : Node)
      → m.epoch ≤ b
      → Starts b n
      → Grows b n.epoch (handle_heartbeat m n)
  unfolding handle_heartbeat settle step_to_follower arm_stand_timer
  heartbeat-Grows b m n k h = record {
    grows = ground arith;
    below = ground arith;
    holds = ground arith;
  }

  recorded-Grown :
      (b : ℕ) (n : Node) (bs : Option (Dict f.Float)) (ps : Option (Dict Position))
      → Starts b n
      → Grown b n.epoch (record_bid bs ps n)
  recorded-Grown b n none ps h = tt
  recorded-Grown b n (some x) none h = tt
  recorded-Grown b n (some x) (some p) h = record {
    grows = omega arith;
    below = ground arith;
    holds = h.has;
  }

  newer_round-Grows :
      (b : ℕ) (m : Message) (n : Node)
      → m.epoch ≤ b
      → n.epoch < m.epoch
      → Starts b n
      → Grows b n.epoch (newer_round m n)
  unfolding newer_round join_round arm_stand_timer
  newer_round-Grows b m n k l h = record {
    grows = ground arith;
    below = ground arith;
    holds = ground arith;
  }

  bid-Grown :
      (b : ℕ) (m : Message) (n : Node) → m.epoch ≤ b → Starts b n → Grown b n.epoch (handle_bid m n)
  unfolding handle_bid
  bid-Grown b m n k h = elim (Bool-cases (ltb m.epoch n.epoch)) [
    | inl s ↦ rw s (record { grows = omega arith; below = ground arith; holds = h.has })
    | inr s ↦ elim (Bool-cases (ltb n.epoch m.epoch)) [
      | inl t ↦ rw (s, t) (newer_round-Grows b m n k (ground arith) h)
      | inr t ↦ elim (Bool-cases (is_candidate n.role)) [
        | inl c ↦ rw (s, t, c) (recorded-Grown b n _ _ h)
        | inr c ↦ rw (s, t, c) (record { grows = omega arith; below = ground arith; holds = h.has })
      ]
    ]
  ]

  message-Grown :
      (k : MsgType) (b : ℕ) (m : Message) (n : Node)
      → m.epoch ≤ b
      → Starts b n
      → Grown b n.epoch (handle k m n)
  message-Grown bid_msg b m n k h = bid-Grown b m n k h
  message-Grown heartbeat b m n k h = heartbeat-Grows b m n k h
  message-Grown heartbeat_ack b m n k h =
      unfold handle_heartbeat_ack in
      record { grows = ground arith; below = ground arith; holds = ground arith }

  -- The epoch that an event brings.
  unfoldable pub epoch_of : Event → ℕ
  unfolding tag_epoch
  epoch_of (on_message now m) = m.epoch
  epoch_of (on_position p) = tag_epoch p.last_epoch
  epoch_of ev = 0

  step-Grown :
      (ev : Event) (b : ℕ) (n : Node) → epoch_of ev ≤ b → Starts b n → Grown b n.epoch (step ev n)
  unfolding step epoch_of tag_epoch recv set_applied_lsn mark_caught_up set_position
      hold_joining_now step_down take_outbox arm_stand_timer
  step-Grown (on_tick now) b n k h = tick-Grows b now n h
  step-Grown (on_message now m) b n k h =
      message-Grown m.kind b m (record n { now = now }) k
        (record { starts = h.starts; fits = h.fits; has = h.has })
  step-Grown (on_applied lsn) b n k h = record {
    grows = ground arith;
    below = ground arith;
    holds = ground arith;
  }
  step-Grown on_caught_up b n k h = record {
    grows = ground arith;
    below = ground arith;
    holds = ground arith;
  }
  step-Grown (on_position p) b n k h = record {
    grows = ground arith;
    below = ground arith;
    holds = ground arith;
  }
  step-Grown on_hold b n k h = record {
    grows = ground arith;
    below = ground arith;
    holds = ground arith;
  }
  step-Grown on_step_down b n k h = record {
    grows = ground arith;
    below = ground arith;
    holds = ground arith;
  }
  step-Grown on_outbox b n k h = record {
    grows = ground arith;
    below = ground arith;
    holds = ground arith;
  }

  weaken :
      (b : ℕ) (evs : List Event)
      → All (λ ev. epoch_of ev ≤ b) evs
      → All (λ ev. epoch_of ev ≤ b + 1) evs
  weaken b [] h = tt
  weaken b (ev ∷ evs) h = (omega (arith, h.0), weaken b evs h.1)

  -- A run that returns never lowers the epoch of a member, and a member whose epoch is that of its last batch or a
  -- later one is such a member after the run. The bound `b` on the epochs that the member has and hears
  -- leaves room for one election in each step of the run below 2 ^ 64.
  pub run-epoch :
      (evs : List Event) (b : ℕ) (n n' : Node)
      → run evs n ≡ some n'
      → All (λ ev. epoch_of ev ≤ b) evs
      → n.epoch ≤ b
      → b + length evs < 2 ^ 64
      → tag_epoch n.last_epoch ≤ n.epoch
      → (n.epoch ≤ n'.epoch) × (tag_epoch n'.last_epoch ≤ n'.epoch)
  unfolding run
  run-epoch [] b n n' e ks l h t =
      subst (λ (m : Node). (n.epoch ≤ m.epoch) × (tag_epoch m.last_epoch ≤ m.epoch))
        (some-injective _ _ e) (omega arith, t)
  run-epoch (ev ∷ evs) b n n' e ks l h t = elim (Option-cases (step ev n)) [
    | inl q ↦ elim (some-ne-none n' (sym e ∙ ap (λ r. and_then r (run evs)) q)) [ ]
    | inr (n1, q) ↦
        let g : Grows b n.epoch n1 =
          subst (Grown b n.epoch) q
            (step-Grown ev b n ks.0 (record { starts = l; fits = omega arith; has = t })) in
        let later =
          run-epoch evs (b + 1) n1 n' (sym (ap (λ r. and_then r (run evs)) q) ∙ e)
            (weaken b evs ks.1) g.below (omega arith) g.holds in
        (omega (arith, g.grows, later.0), later.1)
  ]
