-- ===== src/Examples/Members.antt =====
-- Members of a small cluster, with whole numbers as bids, and the theorems about members at them.
use corndogs.Prelude.{
  ℕ, ◌+◌, ◌*◌, ◌%◌, ◌<◌, ◌≤◌, ◌≡◌, ◌↔◌, ◌⊎◌, refl, true, false, not, List, [], ◌∷◌, none, some, ltb,
  ◌==◌, arith,
}
use corndogs.Bytes.{Bytes, equal}
use corndogs.Bytes.Sort.{contains}
use corndogs.Cluster.Floats.{Floats}
use corndogs.Cluster.Config.{default_config}
use corndogs.Cluster.Node.{
  Message, Node, Role, joining, follower, candidate, leader, heartbeat, bid_msg, history_tag,
  tag_epoch, is_leader, position, Position,
}
use corndogs.Cluster.Node.Tags.{less-history_tag}
use corndogs.Cluster.Election.{highest_bidder, decide_election, entries}
use corndogs.Cluster.Election.Winner.{Newest, decide-Newest}
use corndogs.Cluster.Recv.{live_followers, recv, handle_heartbeat, durable_lsn, values}
use corndogs.Cluster.Recv.Live.{IsFresh, live_followers-IsFresh}
use corndogs.Cluster.Recv.Quorum.{at_least, durable_lsn-at_least}
use corndogs.Cluster.Recv.Leaders.{heartbeat_of, settle-leaders}
use corndogs.Cluster.Steps.{Event, on_tick, on_message, on_outbox, run}
use corndogs.Cluster.Steps.Epoch.{epoch_of, run-epoch}
use corndogs.Cluster.Steps.Safety.{IsWellFormed, IsHeld, run-IsWellFormed, run-IsHeld}

pub ltb-asym : (a b : ℕ) → ltb b a ≡ true → ltb a b ≡ false
ltb-asym a b h = ground arith

pub ltb-distinct : (a b : ℕ) → ltb b a ≡ true → (a == b) ≡ false
ltb-distinct a b h = ground arith

pub ==_comm : (a b : ℕ) → (a == b) ≡ (b == a)
==_comm a b = ground arith

instance abbrev pub whole_floats : Floats
whole_floats = record {
  Float = ℕ;
  zero_float = 0;
  minus_one = 0;
  times = λ a b. a * b;
  gt = λ a b. ltb b a;
  same = λ a b. a == b;
  Rand = ℕ;
  float64 = λ r. (r, r + 7);
  int63n = λ r n. (r % n, r + 7);
  int63n-bound = λ r n h. omega (arith, h);
  gt-asym = ltb-asym;
  gt-same = ltb-distinct;
  same_comm = ==_comm;
}

abbrev pub first_id : Bytes
first_id = b'a' ∷ []

abbrev pub second_id : Bytes
second_id = b'b' ∷ []

-- A member in epoch 3 that has collected the bid of a member with older history.
abbrev bidding : Node
bidding = record {
  id = first_id;
  peers = first_id ∷ second_id ∷ [];
  cfg = default_config 10;
  role = candidate;
  epoch = 3;
  leader_id = [];
  applied_lsn = 8;
  last_epoch = 513;
  leader_head_lsn = 8;
  hold_joining = false;
  now = 40;
  last_heard = 20;
  stand_at = 40;
  next_hb_at = 0;
  heard_leader = true;
  my_bid = 4;
  bids = some ((first_id, 4) ∷ (second_id, 9) ∷ []);
  bid_pos = some (
      (first_id, record { last_epoch = 513; lsn = 8 })
      ∷ (second_id, record { last_epoch = 513; lsn = 6 })
      ∷ []);
  decide_at = 45;
  win_bid = 0;
  acked_at = [];
  acked_lsn = [];
  rnd = 5;
  outbox = [];
}

abbrev pub leading : Node
leading = record bidding {
  role = leader;
  leader_id = first_id;
  win_bid = 4;
  bids = none;
  bid_pos = none;
  acked_at = (second_id, 30) ∷ [];
  acked_lsn = (second_id, 7) ∷ [];
}

abbrev other_leading : Node
other_leading = record leading {
  id = second_id;
  leader_id = second_id;
  win_bid = 9;
  acked_lsn = [];
}

abbrev held_back : Node
held_back = record bidding { role = joining; hold_joining = true; bids = none; bid_pos = none }

abbrev newer_bid : Message
newer_bid = record {
  kind = bid_msg;
  from = second_id;
  to = first_id;
  epoch = 4;
  lsn = 8;
  ack_lsn = 0;
  bid = 6;
  last_epoch = 513;
}

-- The member hears a newer round, decides it, and sends what it has to send.
abbrev round : List Event
round = on_message 41 newer_bid ∷ on_tick 60 ∷ on_outbox ∷ []

-- The member after these, as the leader of the round.
abbrev decided : Node
decided = record bidding {
  role = leader;
  epoch = 4;
  leader_id = first_id;
  now = 60;
  next_hb_at = 70;
  my_bid = 50;
  bids = none;
  bid_pos = none;
  decide_at = 46;
  win_bid = 50;
  rnd = 12;
}

round_lem : run round bidding ≡ some decided
unfolding run recv corndogs.Cluster.Node.take_outbox corndogs.Cluster.Election.tick equal
    corndogs.Bytes.less corndogs.Cluster.Node.older
round_lem = refl

less-history_tag_example :
    (history_tag 3 2 < history_tag 4 1) ↔ ((3 < 4) ⊎ (◌≡◌ {A = ℕ} 3 4 × (2 < 1)))
less-history_tag_example =
    less-history_tag 3 2 4 1 (omega arith) (omega arith) (omega arith) (omega arith)

decide-Newest_example : Newest (entries bidding.bid_pos) (position bidding) (entries bidding.bids)
unfolding decide_election highest_bidder equal corndogs.Cluster.Dict.dict_get
    corndogs.Cluster.Node.older
decide-Newest_example = decide-Newest bidding (refl, (refl, tt)) refl refl refl

durable_lsn-at_least_example :
    (7 ≤ durable_lsn 1 leading) ↔ (1 ≤ at_least 7 (values leading.acked_lsn))
durable_lsn-at_least_example = durable_lsn-at_least 0 7 leading refl (omega arith)

settle-leaders_example :
    is_leader (handle_heartbeat (heartbeat_of other_leading) leading).role
    ≡ not (is_leader (handle_heartbeat (heartbeat_of leading) other_leading).role)
unfolding equal
settle-leaders_example = settle-leaders leading other_leading refl refl refl refl (λ g s. refl)

live_followers-IsFresh_example :
    (contains second_id (live_followers leading) ≡ true) ↔ IsFresh second_id leading
unfolding corndogs.Cluster.Dict.dict_get equal
live_followers-IsFresh_example =
    live_followers-IsFresh second_id leading refl (omega arith) (omega arith) (omega arith)

run-IsWellFormed_example : (n : Node) × (run round bidding ≡ some n) × IsWellFormed n
run-IsWellFormed_example =
    run-IsWellFormed round bidding (record { collecting = refl; leading = λ e. ground arith })

run-IsHeld_example : (n : Node) × (run round held_back ≡ some n) × IsHeld n
run-IsHeld_example =
    run-IsHeld round held_back (refl, (refl, (refl, tt))) (record { held = refl; is_in = refl })

run-epoch_example : (bidding.epoch ≤ decided.epoch) × (tag_epoch decided.last_epoch ≤ decided.epoch)
unfolding epoch_of tag_epoch
run-epoch_example =
    run-epoch round 4 bidding decided round_lem (omega arith, (omega arith, (omega arith, tt)))
      (omega arith) (omega arith) (omega arith)
