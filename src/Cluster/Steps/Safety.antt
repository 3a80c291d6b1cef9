-- ===== src/Cluster/Steps/Safety.antt =====
-- A member does not panic, knows itself as leader when it leads, and does not lead while it is held back.
use corndogs.Prelude.{
  ℕ, ◌≡◌, ap, refl, Bool, true, false, not, ◌&&◌, ◌||◌, List, [], ◌∷◌, Option, none, some, arith,
  ltb, All, Bool-cases, inl, inr, ◌∙◌,
}
use corndogs.Cluster.Floats.{Floats}
use corndogs.Cluster.Node.{
  MsgType, heartbeat, heartbeat_ack, bid_msg, Message, Node, Position, set_applied_lsn,
  mark_caught_up, set_position, hold_joining_now, step_down, take_outbox, arm_stand_timer, eligible,
  is_candidate, is_leader, is_joining,
}
use corndogs.Cluster.Election.{tick, start_election, decide_election, become_leader}
use corndogs.Cluster.Recv.{
  handle, recv, handle_bid, handle_heartbeat, handle_heartbeat_ack, newer_round, join_round, settle,
  step_to_follower,
}
use corndogs.Cluster.Dict.{Dict}
use corndogs.Cluster.Config.{Config}
use corndogs.Bytes.{Bytes}
use corndogs.Cluster.Node.New.{new_node}
use corndogs.Cluster.Steps.{
  Event, on_tick, on_message, on_applied, on_caught_up, on_position, on_hold, on_step_down,
  on_outbox, step, run, and_then,
}

module _ ⦃f : Floats⦄ where
  abbrev is_some {ℓ} : {A : Type ℓ} → Option A → Bool
  is_some none = false
  is_some (some a) = true

  -- A candidate has its maps of bids.
  abbrev collects : Node → Bool
  collects n = not (is_candidate n.role) || (is_some n.bids && is_some n.bid_pos)

  pub record IsWellFormed (n : Node) : Type 0 where
    pub collecting : collects n ≡ true
    pub leading : is_leader n.role ≡ true → n.leader_id ≡ n.id

  abbrev pub Good : Option Node → Type 0
  Good none = ⊥
  Good (some n) = IsWellFormed n

  tick-IsWellFormed : (now : ℕ) (n : Node) → IsWellFormed n → IsWellFormed (tick now n)
  unfolding tick decide_election start_election become_leader arm_stand_timer
  tick-IsWellFormed now n h = record { collecting = ground arith; leading = ground arith }

  heartbeat-IsWellFormed :
      (m : Message) (n : Node) → IsWellFormed n → IsWellFormed (handle_heartbeat m n)
  unfolding handle_heartbeat settle step_to_follower arm_stand_timer
  heartbeat-IsWellFormed m n h = record { collecting = ground arith; leading = ground arith }

  newer_round-IsWellFormed : (m : Message) (n : Node) → IsWellFormed (newer_round m n)
  unfolding newer_round join_round arm_stand_timer
  newer_round-IsWellFormed m n = record { collecting = ground arith; leading = ground arith }

  same_round-Good :
      (m : Message) (n : Node)
      → (ltb m.epoch n.epoch ≡ false)
      → (ltb n.epoch m.epoch ≡ false)
      → is_candidate n.role ≡ true
      → (bs : Option (Dict f.Float)) → n.bids ≡ bs
      → (ps : Option (Dict Position)) → n.bid_pos ≡ ps
      → IsWellFormed n
      → Good (handle_bid m n)
  unfolding handle_bid
  same_round-Good m n s t c none eb ps ep h = rw (s, t, c, eb) (ground arith)
  same_round-Good m n s t c (some b) eb none ep h = rw (s, t, c, eb, ep) (ground arith)
  same_round-Good m n s t c (some b) eb (some p) ep h =
      rw (s, t, c, eb, ep) (record { collecting = ground arith; leading = h.leading })

  bid-Good : (m : Message) (n : Node) → IsWellFormed n → Good (handle_bid m n)
  unfolding handle_bid
  bid-Good m n h = elim (Bool-cases (ltb m.epoch n.epoch)) [
    | inl s ↦ rw s h
    | inr s ↦ elim (Bool-cases (ltb n.epoch m.epoch)) [
      | inl t ↦ rw (s, t) (newer_round-IsWellFormed m n)
      | inr t ↦ elim (Bool-cases (is_candidate n.role)) [
        | inl c ↦ same_round-Good m n s t c n.bids refl n.bid_pos refl h
        | inr c ↦ rw (s, t, c) h
      ]
    ]
  ]

  message-Good : (k : MsgType) (m : Message) (n : Node) → IsWellFormed n → Good (handle k m n)
  message-Good bid_msg m n h = bid-Good m n h
  message-Good heartbeat m n h = heartbeat-IsWellFormed m n h
  message-Good heartbeat_ack m n h =
      unfold handle_heartbeat_ack in record { collecting = ground arith; leading = ground arith }

  pub step-Good : (ev : Event) (n : Node) → IsWellFormed n → Good (step ev n)
  unfolding step recv set_applied_lsn mark_caught_up set_position hold_joining_now step_down
      take_outbox arm_stand_timer
  step-Good (on_tick now) n h = tick-IsWellFormed now n h
  step-Good (on_message now m) n h =
      message-Good m.kind m (record n { now = now })
        (record { collecting = h.collecting; leading = h.leading })
  step-Good (on_applied lsn) n h = record { collecting = ground arith; leading = ground arith }
  step-Good on_caught_up n h = record { collecting = ground arith; leading = ground arith }
  step-Good (on_position p) n h = record { collecting = ground arith; leading = ground arith }
  step-Good on_hold n h = record { collecting = ground arith; leading = ground arith }
  step-Good on_step_down n h = record { collecting = ground arith; leading = ground arith }
  step-Good on_outbox n h = record { collecting = h.collecting; leading = h.leading }

  Good-some : (r : Option Node) → Good r → (n : Node) × (r ≡ some n) × IsWellFormed n
  Good-some none g = elim g [ ]
  Good-some (some n) g = (n, refl, g)

  -- A run of a well-formed member returns, whatever the calls and messages are, and the member is well
  -- formed after it.
  pub run-IsWellFormed :
      (evs : List Event) (n : Node)
      → IsWellFormed n
      → (n' : Node) × (run evs n ≡ some n') × IsWellFormed n'
  unfolding run
  run-IsWellFormed [] n h = (n, refl, h)
  run-IsWellFormed (ev ∷ evs) n h =
      let (n1, e1, h1) = Good-some (step ev n) (step-Good ev n h) in
      let (n2, e2, h2) = run-IsWellFormed evs n1 h1 in
      (n2, ap (λ r. and_then r (run evs)) e1 ∙ e2, h2)

  -- A node that is to stay in the joining role.
  pub record IsHeld (n : Node) : Type 0 where
    pub held : n.hold_joining ≡ true
    pub is_in : is_joining n.role ≡ true

  abbrev pub Held : Option Node → Type 0
  Held none = ⊥
  Held (some n) = IsHeld n

  Held-some : (r : Option Node) → Held r → (n : Node) × (r ≡ some n) × IsHeld n
  Held-some none g = elim g [ ]
  Held-some (some n) g = (n, refl, g)

  bid-Held : (m : Message) (n : Node) → IsHeld n → Held (handle_bid m n)
  unfolding handle_bid newer_round eligible arm_stand_timer
  bid-Held m n h = elim (Bool-cases (ltb m.epoch n.epoch)) [
    | inl s ↦ rw s h
    | inr s ↦ elim (Bool-cases (ltb n.epoch m.epoch)) [
      | inl t ↦ rw (s, t, h.is_in) (record { held = h.held; is_in = refl })
      | inr t ↦ let c : is_candidate n.role ≡ false = ground arith in rw (s, t, c) h
    ]
  ]

  message-Held : (k : MsgType) (m : Message) (n : Node) → IsHeld n → Held (handle k m n)
  message-Held bid_msg m n h = bid-Held m n h
  message-Held heartbeat m n h =
      unfold handle_heartbeat settle step_to_follower arm_stand_timer in
      record { held = ground arith; is_in = ground arith }
  message-Held heartbeat_ack m n h =
      unfold handle_heartbeat_ack in record { held = ground arith; is_in = ground arith }

  abbrev pub releases_hold : Event → Bool
  releases_hold on_caught_up = true
  releases_hold ev = false

  pub step-Held : (ev : Event) (n : Node) → releases_hold ev ≡ false → IsHeld n → Held (step ev n)
  unfolding step recv set_applied_lsn mark_caught_up set_position hold_joining_now step_down
      take_outbox arm_stand_timer tick
  step-Held (on_tick now) n u h = record { held = ground arith; is_in = ground arith }
  step-Held (on_message now m) n u h =
      message-Held m.kind m (record n { now = now }) (record { held = h.held; is_in = h.is_in })
  step-Held (on_applied lsn) n u h = record { held = ground arith; is_in = ground arith }
  step-Held on_caught_up n u h = ground arith
  step-Held (on_position p) n u h = record { held = ground arith; is_in = ground arith }
  step-Held on_hold n u h = record { held = ground arith; is_in = ground arith }
  step-Held on_step_down n u h = record { held = ground arith; is_in = ground arith }
  step-Held on_outbox n u h = record { held = h.held; is_in = h.is_in }

  -- A member that is held in the joining role is held after any run without MarkCaughtUp: it never stands
  -- for election and never leads, whatever it hears.
  pub run-IsHeld :
      (evs : List Event) (n : Node)
      → All (λ ev. releases_hold ev ≡ false) evs
      → IsHeld n
      → (n' : Node) × (run evs n ≡ some n') × IsHeld n'
  unfolding run
  run-IsHeld [] n us h = (n, refl, h)
  run-IsHeld (ev ∷ evs) n us h =
      let (n1, e1, h1) = Held-some (step ev n) (step-Held ev n us.0 h) in
      let (n2, e2, h2) = run-IsHeld evs n1 us.1 h1 in
      (n2, ap (λ r. and_then r (run evs)) e1 ∙ e2, h2)

  -- A new member is well formed.
  pub new_node-IsWellFormed :
      (id : Bytes) (peers : List Bytes) (cfg : Config) (rnd : f.Rand) (applied_lsn : ℕ)
      → IsWellFormed (new_node id peers cfg rnd applied_lsn)
  unfolding new_node
  new_node-IsWellFormed id peers cfg rnd applied_lsn = record {
    collecting = refl;
    leading = λ l. ground arith;
  }
