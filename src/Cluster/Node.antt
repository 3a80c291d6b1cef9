-- ===== src/Cluster/Node.antt =====
-- corndogs/server/cluster/node.go and message.go: the state of a member, its position and messages, and
-- the operations that the replication layer calls on it.
pub mod Tags
pub mod New
use corndogs.Prelude.{
  ℕ, suc, ◌+◌, ◌*◌, ◌/◌, ◌%◌, ◌^◌, ◌-◌, ◌≡◌, Bool, true, false, not, ◌&&◌, ◌||◌, List, [], ◌∷◌,
  ◌++◌, Option, none, some, if◌then◌else◌, ltb, leb, ◌==◌,
}
use corndogs.Bytes.{Bytes, equal}
use corndogs.Filestore.Task.{add64, lt64}
use corndogs.Cluster.Floats.{Floats}
use corndogs.Cluster.Dict.{Dict}
use corndogs.Cluster.Config.{Config}

pub data Role : Type 0 where
  joining : Role
  follower : Role
  candidate : Role
  leader : Role

-- The known types; Recv ignores a message of another one, and there is none here.
pub data MsgType : Type 0 where
  heartbeat : MsgType
  heartbeat_ack : MsgType
  bid_msg : MsgType

-- `epoch<<8 | uint64(memberIndex&0xff)`
unfoldable pub history_tag : ℕ → ℕ → ℕ
history_tag epoch member_index = epoch * 2 ^ 8 % 2 ^ 64 + member_index % 256

unfoldable pub tag_epoch : ℕ → ℕ
tag_epoch tag = tag / 256

pub record Position : Type 0 where
  pub last_epoch : ℕ
  pub lsn : ℕ

-- Position.Less
unfoldable pub older : Position → Position → Bool
older p q =
    if not (p.last_epoch == q.last_epoch) then ltb p.last_epoch q.last_epoch else ltb p.lsn q.lsn

-- MemberIndex, with the index of the loop
unfoldable pub index_from : ℕ → Bytes → List Bytes → ℕ
index_from i id [] = 0
index_from i id (p ∷ ps) =
    let later = index_from (suc i) id ps in if equal p id then suc i else later

pub record Message ⦃f : Floats⦄ : Type 0 where
  pub kind : MsgType
  pub from : Bytes
  pub to : Bytes
  pub epoch : ℕ
  pub lsn : ℕ
  pub ack_lsn : ℕ
  pub bid : f.Float
  pub last_epoch : ℕ

-- `none` for `bids` and `bid_pos` is the nil map.
pub record Node ⦃f : Floats⦄ : Type 0 where
  pub id : Bytes
  pub peers : List Bytes
  pub cfg : Config
  pub role : Role
  pub epoch : ℕ
  pub leader_id : Bytes
  pub applied_lsn : ℕ
  pub last_epoch : ℕ
  pub leader_head_lsn : ℕ
  pub hold_joining : Bool
  pub now : ℕ
  pub last_heard : ℕ
  pub stand_at : ℕ
  pub next_hb_at : ℕ
  pub heard_leader : Bool
  pub my_bid : f.Float
  pub bids : Option (Dict f.Float)
  pub bid_pos : Option (Dict Position)
  pub decide_at : ℕ
  pub win_bid : f.Float
  pub acked_at : Dict ℕ
  pub acked_lsn : Dict ℕ
  pub rnd : f.Rand
  pub outbox : List Message

abbrev pub is_joining : Role → Bool
is_joining joining = true
is_joining r = false

abbrev pub is_leader : Role → Bool
is_leader leader = true
is_leader r = false

abbrev pub is_candidate : Role → Bool
is_candidate candidate = true
is_candidate r = false

module _ ⦃f : Floats⦄ where
  abbrev pub member_index : Node → ℕ
  member_index n = index_from 0 n.id n.peers

  abbrev pub position : Node → Position
  position n = record { last_epoch = n.last_epoch; lsn = n.applied_lsn }

  abbrev pub serving : Node → Bool
  serving n = is_leader n.role

  unfoldable pub caught_up : Node → Bool
  caught_up n =
      if leb n.leader_head_lsn n.applied_lsn
      then true
      else leb (n.leader_head_lsn - n.applied_lsn) n.cfg.max_lag_to_vote

  unfoldable pub eligible : Node → Bool
  unfolding caught_up
  eligible n = if is_joining n.role then false else caught_up n

  -- The random part of the stand timer, and the source after the draw.
  unfoldable pub jitter : Node → ℕ × f.Rand
  jitter n =
      if lt64 0 n.cfg.election_jitter then f.int63n n.rnd n.cfg.election_jitter else (0, n.rnd)

  unfoldable pub arm_stand_timer : Node → Node
  unfolding jitter
  arm_stand_timer n = record n {
    stand_at =
        if not n.heard_leader
        then add64 n.now (jitter n).0
        else add64 (add64 n.last_heard n.cfg.failure_timeout) (jitter n).0;
    rnd = (jitter n).1;
  }

  -- `if n.role == RoleJoining && !n.holdJoining && n.caughtUp() { ... }`
  abbrev pub promote : Node → Node
  promote n =
      if is_joining n.role && (not n.hold_joining && caught_up n)
      then arm_stand_timer (record n { role = follower })
      else n

  -- SetAppliedLSN
  unfoldable pub set_applied_lsn : ℕ → Node → Node
  unfolding caught_up arm_stand_timer
  set_applied_lsn lsn n =
      promote (record n { applied_lsn = if ltb n.applied_lsn lsn then lsn else n.applied_lsn })

  unfoldable pub mark_caught_up : Node → Node
  unfolding arm_stand_timer
  mark_caught_up n =
      if is_joining n.role
      then arm_stand_timer (record n { hold_joining = false; role = follower })
      else record n { hold_joining = false }

  unfoldable pub set_position : Position → Node → Node
  unfolding caught_up arm_stand_timer tag_epoch
  set_position p n = promote (record n {
    applied_lsn = p.lsn;
    last_epoch = p.last_epoch;
    epoch = if ltb n.epoch (tag_epoch p.last_epoch) then tag_epoch p.last_epoch else n.epoch;
  })

  unfoldable pub hold_joining_now : Node → Node
  hold_joining_now n =
      if is_joining n.role
      then record n { hold_joining = true }
      else record n { hold_joining = true; role = joining; leader_id = [] }

  unfoldable pub step_down : Node → Node
  unfolding arm_stand_timer
  step_down n =
      if is_leader n.role
      then arm_stand_timer (record n {
        role = follower;
        leader_id = [];
        bids = none;
        last_heard = n.now;
        heard_leader = true;
      })
      else n

  -- TakeOutbox
  unfoldable pub take_outbox : Node → List Message × Node
  take_outbox n = (n.outbox, record n { outbox = [] })

  abbrev pub send : Message → Node → Node
  send m n = record n { outbox = n.outbox ++ record m { from = n.id } ∷ [] }

  -- The messages of the loop of broadcast.
  unfoldable pub addressed : Bytes → Message → List Bytes → List Message
  addressed id m [] = []
  addressed id m (p ∷ ps) =
      let rest = addressed id m ps in
      if equal p id then rest else record m { to = p; from = id } ∷ rest

  abbrev pub broadcast : Message → Node → Node
  broadcast m n = record n { outbox = n.outbox ++ addressed n.id m n.peers }
