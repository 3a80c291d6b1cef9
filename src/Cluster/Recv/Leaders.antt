-- ===== src/Cluster/Recv/Leaders.antt =====
-- Two leaders of one epoch.
use corndogs.Prelude.{◌≡◌, ◌∙◌, sym, true, false, not, arith}
use corndogs.Bytes.{equal}
use corndogs.Bytes.Laws.{equal_comm, less_total}
use corndogs.Cluster.Floats.{Floats}
use corndogs.Cluster.Node.{Node, Message, is_leader, arm_stand_timer}
use corndogs.Cluster.Election.{heartbeat_message}
use corndogs.Cluster.Recv.{handle_heartbeat, settle, outbids, step_to_follower}

module _ ⦃f : Floats⦄ where
  -- The heartbeat of `n` as its peers receive it.
  abbrev pub heartbeat_of : Node → Message
  heartbeat_of n = record (heartbeat_message n) { from = n.id }

  outbids-total :
      (a b : Node)
      → equal a.id b.id ≡ false
      → (f.gt a.win_bid b.win_bid ≡ false
          → f.same a.win_bid b.win_bid ≡ false
          → f.gt b.win_bid a.win_bid ≡ true)
      → outbids (heartbeat_of b) a ≡ not (outbids (heartbeat_of a) b)
  unfolding outbids
  outbids-total a b ne tot = ground (
    arith,
    less_total a.id b.id ne,
    f.gt-asym a.win_bid b.win_bid,
    f.gt-asym b.win_bid a.win_bid,
    f.gt-same a.win_bid b.win_bid,
    f.gt-same b.win_bid a.win_bid,
    f.same_comm a.win_bid b.win_bid,
    tot,
  )

  leads_after :
      (m : Message) (n : Node)
      → is_leader n.role ≡ true
      → m.epoch ≡ n.epoch
      → equal m.from n.id ≡ false
      → is_leader (handle_heartbeat m n).role ≡ not (outbids m n)
  unfolding handle_heartbeat settle step_to_follower arm_stand_timer
  leads_after m n l e ne = ground arith

  -- Of two leaders of one epoch with different ids that hear each other's heartbeats, exactly one goes on
  -- leading, if their bids compare.
  pub settle-leaders :
      (a b : Node)
      → is_leader a.role ≡ true
      → is_leader b.role ≡ true
      → a.epoch ≡ b.epoch
      → equal a.id b.id ≡ false
      → (f.gt a.win_bid b.win_bid ≡ false
          → f.same a.win_bid b.win_bid ≡ false
          → f.gt b.win_bid a.win_bid ≡ true)
      → is_leader (handle_heartbeat (heartbeat_of b) a).role
        ≡ not (is_leader (handle_heartbeat (heartbeat_of a) b).role)
  settle-leaders a b la lb e ne tot =
      let at_a = leads_after (heartbeat_of b) a la (sym e) (equal_comm b.id a.id ∙ ne) in
      let at_b = leads_after (heartbeat_of a) b lb e ne in
      let one = outbids-total a b ne tot in ground (arith, at_a, at_b, one)
