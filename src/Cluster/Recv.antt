-- ===== src/Cluster/Recv.antt =====
-- The message handlers of corndogs/server/cluster/node.go, and the views of a leader: LiveFollowers and
-- DurableLSN. A result `none` is a panic.
pub mod Quorum
pub mod Leaders
pub mod Live
use corndogs.Prelude.{
  ℕ, zero, suc, ◌+◌, ◌^◌, ◌%◌, ◌-◌, ◌≡◌, Bool, true, false, not, ◌&&◌, ◌||◌, List, [], ◌∷◌, ◌++◌,
  Option, none, some, if◌then◌else◌, ltb, leb, ◌==◌, length,
}
use corndogs.Bytes.{Bytes, equal, less}
use corndogs.Filestore.Task.{add64, sub64, lt64}
use corndogs.Cluster.Floats.{Floats}
use corndogs.Cluster.Dict.{Dict, dict_get, or_zero, dict_put}
use corndogs.Cluster.Node.{
  Role, joining, follower, candidate, leader, MsgType, heartbeat, heartbeat_ack, bid_msg, Message,
  Node, Position, position, eligible, caught_up, arm_stand_timer, broadcast, send, is_joining,
  is_leader, is_candidate,
}
use corndogs.Cluster.Election.{draw_bid, bid_message}

module _ ⦃f : Floats⦄ where
  abbrev pub bidder_position : Message → Position
  bidder_position m = record { last_epoch = m.last_epoch; lsn = m.lsn }

  -- `bids = map{n.id: n.myBid, m.From: m.Bid}`, and the rest of joining a newer round
  unfoldable pub join_round : Message → Node → Node
  unfolding dict_put
  join_round m n =
      let n1 = draw_bid (record n { role = candidate }) in
      let n2 = record n1 {
        bids = some (dict_put m.from m.bid ((n1.id, n1.my_bid) ∷ []));
        bid_pos = some (dict_put m.from (bidder_position m) ((n1.id, position n1) ∷ []));
        decide_at = add64 n1.now n1.cfg.election_window;
      } in
      broadcast (bid_message n2) n2

  -- A write to a nil map panics.
  abbrev put_or_panic : {A : Type 0} → Bytes → A → Option (Dict A) → Option (Dict A)
  put_or_panic key a none = none
  put_or_panic key a (some d) = some (dict_put key a d)

  abbrev pub record_bid : Option (Dict f.Float) → Option (Dict Position) → Node → Option Node
  record_bid none p n = none
  record_bid (some b) none n = none
  record_bid (some b) (some p) n = some (record n { bids = some b; bid_pos = some p })

  -- The case of a newer round in handleBid.
  unfoldable pub newer_round : Message → Node → Node
  unfolding join_round eligible arm_stand_timer
  newer_round m n =
      let n1 : Node = record n { epoch = m.epoch; leader_id = [] } in
      if eligible n1
      then join_round m n1
      else arm_stand_timer (record n1 {
        role = if is_joining n.role then joining else follower;
        bids = none;
        last_heard = n.now;
      })

  unfoldable pub handle_bid : Message → Node → Option Node
  unfolding newer_round dict_put
  handle_bid m n =
      if ltb m.epoch n.epoch
      then some n
      else if ltb n.epoch m.epoch
      then some (newer_round m n)
      else if is_candidate n.role
      then record_bid (put_or_panic m.from m.bid n.bids)
          (put_or_panic m.from (bidder_position m) n.bid_pos) n
      else some n

  -- stepToFollower
  unfoldable pub step_to_follower : ℕ → Bytes → Node → Node
  unfolding arm_stand_timer
  step_to_follower epoch leader_id n = arm_stand_timer (record n {
    epoch = epoch;
    role = follower;
    leader_id = leader_id;
    bids = none;
    last_heard = n.now;
    heard_leader = true;
  })

  abbrev pub ack_message : Bytes → Node → Message
  ack_message to n = record {
    kind = heartbeat_ack;
    from = [];
    to = to;
    epoch = n.epoch;
    lsn = 0;
    ack_lsn = n.applied_lsn;
    bid = f.zero_float;
    last_epoch = n.last_epoch;
  }

  -- The leader's bid of message `m`, then its id, beat those of the leader `n`.
  unfoldable pub outbids : Message → Node → Bool
  outbids m n = f.gt m.bid n.win_bid || (f.same m.bid n.win_bid && less n.id m.from)

  abbrev follow_leader : Message → Node → Node
  follow_leader m n =
      let n1 = record n {
        epoch = m.epoch;
        leader_id = m.from;
        leader_head_lsn = m.lsn;
        last_heard = n.now;
        heard_leader = true;
      } in
      let n2 = arm_stand_timer (record n1 {
        role =
            if is_joining n.role && (n.hold_joining || not (caught_up n1))
            then joining
            else follower;
        bids = none;
      }) in
      send (ack_message m.from n2) n2

  -- The case of two leaders in one epoch in handleHeartbeat.
  unfoldable pub settle : Message → Node → Node
  unfolding outbids step_to_follower
  settle m n =
      let n1 : Node = record (step_to_follower m.epoch m.from n) {
        leader_head_lsn = m.lsn;
        last_heard = n.now;
      } in
      if outbids m n then send (ack_message m.from n1) n1 else n

  unfoldable pub handle_heartbeat : Message → Node → Node
  unfolding settle arm_stand_timer caught_up
  handle_heartbeat m n =
      if ltb m.epoch n.epoch
      then n
      else if m.epoch == n.epoch && (is_leader n.role && not (equal m.from n.id))
      then settle m n
      else follow_leader m n

  unfoldable pub handle_heartbeat_ack : Message → Node → Node
  unfolding dict_put dict_get
  handle_heartbeat_ack m n =
      if not (is_leader n.role) || not (m.epoch == n.epoch) then n else record n {
        acked_at = dict_put m.from n.now n.acked_at;
        acked_lsn =
            if ltb (or_zero 0 (dict_get m.from n.acked_lsn)) m.ack_lsn
            then dict_put m.from m.ack_lsn n.acked_lsn
            else n.acked_lsn;
      }

  abbrev pub handle : MsgType → Message → Node → Option Node
  handle bid_msg m n = handle_bid m n
  handle heartbeat m n = some (handle_heartbeat m n)
  handle heartbeat_ack m n = some (handle_heartbeat_ack m n)

  unfoldable pub recv : ℕ → Message → Node → Option Node
  unfolding handle_bid handle_heartbeat handle_heartbeat_ack
  recv now m n = handle m.kind m (record n { now = now })

  -- `at, ok := n.ackedAt[p]; ok && at >= cutoff`
  abbrev pub is_live : ℕ → Option ℕ → Bool
  is_live cutoff none = false
  is_live cutoff (some at_time) = not (lt64 at_time cutoff)

  unfoldable pub live_among : Bytes → ℕ → Dict ℕ → List Bytes → List Bytes
  unfolding dict_get
  live_among id cutoff acked [] = []
  live_among id cutoff acked (p ∷ ps) =
      let rest = live_among id cutoff acked ps in
      if equal p id then rest else if is_live cutoff (dict_get p acked) then p ∷ rest else rest

  unfoldable pub live_followers : Node → List Bytes
  unfolding live_among
  live_followers n =
      if is_leader n.role
      then live_among n.id (sub64 n.now n.cfg.failure_timeout) n.acked_at n.peers
      else []

  -- sort.Slice by `>`
  unfoldable pub insert_desc : ℕ → List ℕ → List ℕ
  insert_desc x [] = x ∷ []
  insert_desc x (y ∷ ys) = let later = insert_desc x ys in if ltb x y then y ∷ later else x ∷ y ∷ ys

  unfoldable pub sort_desc : List ℕ → List ℕ
  unfolding insert_desc
  sort_desc [] = []
  sort_desc (x ∷ xs) = insert_desc x (sort_desc xs)

  -- The values of a map.
  abbrev pub values : {A : Type 0} → Dict A → List A
  values [] = []
  values ((k, a) ∷ rest) = a ∷ values rest

  -- `if len(lsns) < ackCount { return 0 }; return lsns[ackCount-1]`
  unfoldable pub nth_or_zero : ℕ → List ℕ → ℕ
  nth_or_zero i [] = 0
  nth_or_zero zero (x ∷ xs) = x
  nth_or_zero (suc i) (x ∷ xs) = nth_or_zero i xs

  abbrev quorum_lsn : ℕ → Node → ℕ
  quorum_lsn zero n = n.applied_lsn
  quorum_lsn (suc i) n = nth_or_zero i (sort_desc (values n.acked_lsn))

  -- DurableLSN; a negative count is 0 here
  unfoldable pub durable_lsn : ℕ → Node → ℕ
  unfolding sort_desc nth_or_zero
  durable_lsn ack_count n = if is_leader n.role then quorum_lsn ack_count n else 0
