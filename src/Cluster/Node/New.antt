-- ===== src/Cluster/Node/New.antt =====
-- NewNode of corndogs/server/cluster/node.go.
use corndogs.Prelude.{ℕ, false, List, [], none}
use corndogs.Bytes.{Bytes}
use corndogs.Bytes.Sort.{sort_names}
use corndogs.Cluster.Floats.{Floats}
use corndogs.Cluster.Config.{Config}
use corndogs.Cluster.Node.{Node, joining}

module _ ⦃f : Floats⦄ where
  -- The random source that `seed` starts is given.
  unfoldable pub new_node : Bytes → List Bytes → Config → f.Rand → ℕ → Node
  unfolding sort_names
  new_node id peers cfg rnd applied_lsn = record {
    id = id;
    peers = sort_names peers;
    cfg = cfg;
    role = joining;
    epoch = 0;
    leader_id = [];
    applied_lsn = applied_lsn;
    last_epoch = 0;
    leader_head_lsn = 0;
    hold_joining = false;
    now = 0;
    last_heard = 0;
    stand_at = 0;
    next_hb_at = 0;
    heard_leader = false;
    my_bid = f.zero_float;
    bids = none;
    bid_pos = none;
    decide_at = 0;
    win_bid = f.zero_float;
    acked_at = [];
    acked_lsn = [];
    rnd = rnd;
    outbox = [];
  }
