-- ===== src/Cluster/Election.antt =====
-- The election of corndogs/server/cluster/node.go: Tick, startElection, decideElection, highestBidder and
-- becomeLeader.
pub mod Winner
use corndogs.Prelude.{
  ℕ, ◌≡◌, Bool, true, false, not, ◌&&◌, ◌||◌, List, [], ◌∷◌, Option, none, some, if◌then◌else◌,
  ◌==◌, ltb,
}
use corndogs.Bytes.{Bytes, equal, less}
use corndogs.Filestore.Task.{add64, lt64}
use corndogs.Cluster.Floats.{Floats}
use corndogs.Cluster.Dict.{Dict, dict_get, or_zero, dict_put}
use corndogs.Cluster.Config.{Config}
use corndogs.Cluster.Node.{
  Role, joining, follower, candidate, leader, heartbeat, bid_msg, Message, Node, Position, older,
  position, eligible, jitter, arm_stand_timer, addressed, broadcast,
}

-- `p == q` on positions
unfoldable pub same_position : Position → Position → Bool
same_position p q = p.last_epoch == q.last_epoch && p.lsn == q.lsn

abbrev pub no_position : Position
no_position = record { last_epoch = 0; lsn = 0 }

module _ ⦃f : Floats⦄ where
  abbrev pub heartbeat_message : Node → Message
  heartbeat_message n = record {
    kind = heartbeat;
    from = [];
    to = [];
    epoch = n.epoch;
    lsn = n.applied_lsn;
    ack_lsn = 0;
    bid = n.win_bid;
    last_epoch = 0;
  }

  abbrev pub bid_message : Node → Message
  bid_message n = record {
    kind = bid_msg;
    from = [];
    to = [];
    epoch = n.epoch;
    lsn = n.applied_lsn;
    ack_lsn = 0;
    bid = n.my_bid;
    last_epoch = n.last_epoch;
  }

  -- `n.rnd.Float64() * n.cfg.BidMax`, in a round that has opened
  abbrev pub draw_bid : Node → Node
  draw_bid n = record n {
    my_bid = f.times (f.float64 n.rnd).0 n.cfg.bid_max;
    rnd = (f.float64 n.rnd).1;
  }

  unfoldable pub start_election : Node → Node
  start_election n =
      let n1 = draw_bid (record n { epoch = add64 n.epoch 1; role = candidate; leader_id = [] }) in
      let n2 = record n1 {
        bids = some ((n1.id, n1.my_bid) ∷ []);
        bid_pos = some ((n1.id, position n1) ∷ []);
        decide_at = add64 n1.now n1.cfg.election_window;
      } in
      broadcast (bid_message n2) n2

  -- The best bidder so far: its id, bid and position.
  pub record Best : Type 0 where
    pub best_id : Bytes
    pub best_bid : f.Float
    pub best_pos : Position

  unfoldable pub better : Best → Bytes → f.Float → Position → Bool
  unfolding same_position
  better best id b p =
      equal best.best_id []
      || (older best.best_pos p
          || (same_position p best.best_pos
              && (f.gt b best.best_bid || (f.same b best.best_bid && less best.best_id id))))

  -- The loop of highestBidder, over the ids in order.
  unfoldable pub best_bidder : Dict Position → Best → Dict f.Float → Best
  unfolding better
  best_bidder pos best [] = best
  best_bidder pos best ((id, b) ∷ rest) =
      let p : Position = or_zero no_position (dict_get id pos) in
      best_bidder pos
        (if better best id b p then record { best_id = id; best_bid = b; best_pos = p } else best)
        rest

  -- Ranging over a nil map, or reading it, gives nothing.
  abbrev pub entries : {A : Type 0} → Option (Dict A) → Dict A
  entries none = []
  entries (some d) = d

  unfoldable pub highest_bidder : Node → Best
  unfolding best_bidder
  highest_bidder n =
      best_bidder (entries n.bid_pos)
        (record { best_id = []; best_bid = f.minus_one; best_pos = no_position }) (entries n.bids)

  unfoldable pub become_leader : Node → Node
  become_leader n =
      let n1 = record n {
        role = leader;
        leader_id = n.id;
        win_bid = n.my_bid;
        heard_leader = true;
        bids = none;
        bid_pos = none;
        acked_at = [];
        acked_lsn = [];
        next_hb_at = add64 n.now n.cfg.heartbeat_interval;
      } in
      broadcast (heartbeat_message n1) n1

  unfoldable pub decide_election : Node → Node
  unfolding highest_bidder become_leader jitter
  decide_election n = if equal (highest_bidder n).best_id n.id then become_leader n else record n {
    role = follower;
    leader_id = [];
    bids = none;
    last_heard = n.now;
    stand_at = add64 (add64 n.now n.cfg.failure_timeout) (jitter n).0;
    rnd = (jitter n).1;
  }

  abbrev tick_role : Role → Node → Node
  tick_role leader n =
      if lt64 n.now n.next_hb_at then n else record (broadcast (heartbeat_message n) n) {
        next_hb_at = add64 n.now n.cfg.heartbeat_interval;
      }
  tick_role candidate n = if lt64 n.now n.decide_at then n else decide_election n
  tick_role follower n =
      if lt64 n.now n.stand_at
      then n
      else if eligible n
      then start_election n
      else arm_stand_timer (record n { last_heard = n.now })
  tick_role joining n = n

  unfoldable pub tick : ℕ → Node → Node
  unfolding decide_election start_election eligible arm_stand_timer
  tick now n = tick_role n.role (record n { now = now })
