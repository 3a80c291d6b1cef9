-- ===== src/Examples/Replicators.antt =====
-- Replicators of a cluster of two, and the theorems about counts, snapshots and replicators at them.
use corndogs.Prelude.{◌+◌, ℕ, false, List, ◌≡◌, refl, [], ◌∷◌, ◌++◌, some, arith}
use corndogs.Bytes.{Bytes, equal}
use corndogs.Bytes.{of_be}
use corndogs.Clustering.Engine
use corndogs.Clustering.Engine.{Engine}
use corndogs.Clustering.Served.{store_replicator}
use corndogs.Clustering.Engine.Answers.{sent_on, due, asked_on}
use corndogs.Clustering.Served.Answered.{run-answers}
use corndogs.Clustering.Served.Serves.{Arrival, arrives, asks, passes, inputs_of, run-IsSafe}
use corndogs.Filestore.Tx.{Error, Db, set_bucket, bucket_tasks}
use corndogs.Filestore.Requests.{perform, submit}
use corndogs.Filestore.Counts.{rebuild_counts}
use corndogs.Filestore.Counts.Live.{AllStored, Recounted, rebuild_counts-Recounted}
use corndogs.Filestore.Snapshots.Stamped.{CountsFit}
use corndogs.Cluster.Config.{default_config}
use corndogs.Cluster.Node.{Node, follower}
use corndogs.Cluster.Node.New.{new_node}
use corndogs.Cluster.Steps.Safety.{new_node-IsWellFormed}
use corndogs.Clustering.Replicator.{
  Replicator, Frame, batch, snapshot, new_replicator, serve_snapshot,
}
use corndogs.Clustering.Replicator.Handlers.{recv, tick, write}
use corndogs.Clustering.Replicator.Safety.{IsFresh, IsSafe, here, next, ticked, wrote, Reach-IsSafe}
use corndogs.Clustering.Replicator.Snapshot.{Rebased, serve_snapshot-recv}
use corndogs.Clustering.Replicator.Untouched.{Untouched, recv-Untouched}
use corndogs.Examples.Members.{whole_floats, first_id, second_id, leading}
use corndogs.Examples.Stores.{list_env, empty_store, small_request, two_tasks, two_tasks-HoldsTasks}
use corndogs.Examples.Logs.{small_log, task_batch}

tasks-Fit : CountsFit two_tasks.db
unfolding set_bucket equal corndogs.Bytes.less corndogs.Bytes.be corndogs.Bytes.be_onto
    corndogs.Bytes.cut corndogs.Filestore.Order.encode_task_key corndogs.Filestore.Order.task_prefix
    corndogs.Filestore.Order.encode_priority_desc corndogs.Filestore.Order.encode_time_asc
    corndogs.Filestore.Order.parse_key_queue_state corndogs.Filestore.Counts.counted_as
    corndogs.Filestore.Records.count_key corndogs.Examples.Buckets.sorted
    corndogs.Examples.Buckets.insert
tasks-Fit = record { tasks = (omega arith, (omega arith, tt)); guarded = tt }

two_tasks-AllStored : AllStored (list_env.entries (two_tasks.db bucket_tasks))
unfolding set_bucket equal corndogs.Bytes.less corndogs.Bytes.be corndogs.Bytes.be_onto
    corndogs.Filestore.Order.encode_task_key corndogs.Filestore.Order.task_prefix
    corndogs.Filestore.Order.encode_priority_desc corndogs.Filestore.Order.encode_time_asc
    corndogs.Examples.Buckets.sorted corndogs.Examples.Buckets.insert corndogs.Filestore.Bolt.lookup
two_tasks-AllStored = (two_tasks-HoldsTasks _ _ refl, (two_tasks-HoldsTasks _ _ refl, tt))

rebuild_counts-Recounted_example :
    (db' : Db) × (rebuild_counts two_tasks.db ≡ some db') × Recounted two_tasks.db db'
unfolding set_bucket equal corndogs.Examples.Buckets.sorted
rebuild_counts-Recounted_example =
    rebuild_counts-Recounted two_tasks.db two_tasks-AllStored tt tasks-Fit.tasks tasks-Fit.guarded

abbrev fresh : Node
fresh = new_node first_id (first_id ∷ second_id ∷ []) (default_config 10) 5 0

fresh-IsFresh : IsFresh first_id fresh
unfolding new_node
fresh-IsFresh = record {
  formed = new_node-IsWellFormed first_id (first_id ∷ second_id ∷ []) (default_config 10) 5 0;
  same_id = refl;
  follows = refl;
}

abbrev started : Replicator
started = new_replicator first_id fresh empty_store small_log 1

-- The member stands, decides the election, and serves a write.
abbrev elected : Replicator
elected = tick 2_000 (tick 1_000 started)

elected_lsn : elected.store.repl_lsn ≡ 0
unfolding tick corndogs.Cluster.Election.tick new_replicator
    corndogs.Filestore.Snapshots.read_repl_position corndogs.Filestore.Bolt.lookup
    corndogs.Examples.Buckets.sorted corndogs.Filestore.Snapshots.has_task_data
    corndogs.Cluster.Node.set_position new_node corndogs.Cluster.Node.addressed corndogs.Bytes.less
    equal corndogs.Cluster.Recv.durable_lsn
elected_lsn = refl

Reach-IsSafe_example :
    IsSafe (tick 2_010 (write (perform (submit first_id 7 small_request)) elected).1)
Reach-IsSafe_example =
    Reach-IsSafe first_id fresh empty_store small_log 1 _ fresh-IsFresh (omega arith, omega arith)
      (next
        (next (next (next here (ticked 1_000 refl)) (ticked 2_000 refl))
          (wrote (perform (submit first_id 7 small_request)) (omega (arith, elected_lsn)) refl))
        (ticked 2_010 refl))

-- A leader at position 8, and a follower of it that holds nothing.
abbrev serving_leader : Replicator
serving_leader = record started {
  node = leading;
  store = record empty_store { db = two_tasks.db; repl_lsn = 8 };
  now = 40;
}

abbrev new_follower : Replicator
new_follower = record started {
  id = second_id;
  node = record fresh { id = second_id; role = follower; leader_id = first_id };
}

serve_snapshot-recv_example :
    (fr : Frame) × ((serve_snapshot second_id serving_leader).sent ≡ serving_leader.sent ++ fr ∷ [])
    × (g' : Replicator) × (recv 41 fr new_follower ≡ some g')
    × Rebased serving_leader g'
unfolding equal corndogs.Cluster.Dict.dict_get new_replicator
    corndogs.Filestore.Snapshots.read_repl_position corndogs.Filestore.Bolt.lookup
    corndogs.Examples.Buckets.sorted corndogs.Filestore.Snapshots.has_task_data
serve_snapshot-recv_example =
    serve_snapshot-recv serving_leader new_follower 41 refl refl refl tasks-Fit (omega arith)

-- A batch of a member that does not lead.
abbrev stray : Frame
stray = record { from = second_id; to = second_id; payload = batch (task_batch 1 513) }

recv-Untouched_example : Untouched new_follower new_follower
unfolding recv equal corndogs.Clustering.Replicator.Handlers.apply_incoming new_node new_replicator
    corndogs.Filestore.Snapshots.read_repl_position corndogs.Filestore.Bolt.lookup
    corndogs.Examples.Buckets.sorted corndogs.Filestore.Snapshots.has_task_data
recv-Untouched_example = recv-Untouched 0 stray new_follower new_follower refl refl

abbrev small_engine : Engine Error
small_engine = record {
  rep = started;
  failure_timeout = 20;
  waiters = [];
  now = 0;
  leader_since = 0;
  was_leader = false;
  topo = record { epoch = 0; leader_id = [] };
  watchers = [];
  answers = [];
}

-- Two ticks, a proposal, a frame of the other member, a tick.
abbrev some_calls : List Arrival
some_calls =
    passes
    ∷ passes
    ∷ asks (submit first_id 7 small_request) 1
    ∷ arrives (record stray { to = first_id })
    ∷ passes
    ∷ []

started_lsn : started.store.repl_lsn ≡ 0
unfolding new_replicator corndogs.Filestore.Snapshots.read_repl_position
    corndogs.Filestore.Bolt.lookup corndogs.Examples.Buckets.sorted
    corndogs.Filestore.Snapshots.has_task_data
started_lsn = refl

run-IsSafe_example :
    (g' : Engine Error) × (Engine.run Error (inputs_of some_calls) small_engine ≡ some g')
    × IsSafe g'.rep
unfolding equal
run-IsSafe_example =
    run-IsSafe first_id fresh empty_store small_log 1 0 some_calls small_engine refl fresh-IsFresh
      (omega arith, omega arith) (omega (arith, started_lsn))
      (tt, (tt, (tt, (record { other = refl; fits = tt; below = omega arith }, (tt, tt)))))
      (omega arith)

run-answers_example :
    (g' : Engine Error) × (Engine.run Error (inputs_of some_calls) small_engine ≡ some g')
    × (g'.waiters ≡ [])
    × ((c : ℕ) → sent_on c g'.answers ≡ due c small_engine + asked_on c (inputs_of some_calls))
unfolding equal
run-answers_example =
    run-answers first_id fresh empty_store small_log 1 0 some_calls small_engine refl fresh-IsFresh
      (omega arith, omega arith) (omega (arith, started_lsn))
      (tt, (tt, (tt, (record { other = refl; fits = tt; below = omega arith }, (tt, tt)))))
      (omega arith)
