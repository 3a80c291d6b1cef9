-- ===== src/Examples/Engines.antt =====
-- A replicator of a few numbers, and the theorems about the engine at it.
use corndogs.Prelude.{ℕ, suc, ◌≡◌, refl, true, [], ◌∷◌, some}
use corndogs.Clustering.Engine.{Replicated, StoreWrite, wrote, Engine, Input, proposal, done, step}
use corndogs.Clustering.Engine.Confirmed.{Settles, step-Settles}

record Numbers : Type 0 where
  head : ℕ
  committed : ℕ

-- The position is committed at the next tick.
abbrev commit_all : ℕ → Numbers → Numbers
commit_all now n = record n { committed = n.head }

instance abbrev number_replicator : Replicated
number_replicator = record {
  Replicator = Numbers;
  Frame = ℕ;
  is_leader = λ n. true;
  can_commit = λ n. true;
  last_lsn = λ n. n.head;
  committed_lsn = λ n. n.committed;
  leader = λ n. (1 ∷ [], 1);
  tick = commit_all;
  recv = λ now f n. some n;
}

abbrev write_one : Numbers → StoreWrite ℕ
write_one n = wrote (record n { head = suc n.head })

abbrev idle : Engine ℕ
idle = record {
  rep = record { head = 0; committed = 0 };
  failure_timeout = 20;
  waiters = [];
  now = 0;
  leader_since = 0;
  was_leader = true;
  topo = record { epoch = 1; leader_id = 1 ∷ [] };
  watchers = [];
  answers = [];
}

-- Two clients wait; the position of the first is committed.
abbrev waiting : Engine ℕ
waiting = record idle {
  rep = record { head = 2; committed = 1 };
  waiters =
      record { lsn = 1; deadline = 60; channel = 7 }
      ∷ record { lsn = 2; deadline = 60; channel = 8 }
      ∷ [];
}

-- A round that takes a write on the channel 9.
abbrev one_write : Input ℕ
one_write = proposal (record { fn = write_one; channel = 9 })

abbrev after_one_write : Engine ℕ
after_one_write = record waiting {
  rep = record { head = 3; committed = 1 };
  waiters =
      record { lsn = 2; deadline = 60; channel = 8 }
      ∷ record { lsn = 3; deadline = 60; channel = 9 }
      ∷ [];
  answers = (7, done) ∷ [];
}

one_write_lem : step ℕ one_write waiting ≡ some after_one_write
unfolding step corndogs.Clustering.Engine.handle_proposal corndogs.Clustering.Engine.after_step
    corndogs.Clustering.Engine.quorum_unreachable corndogs.Clustering.Engine.release
    corndogs.Clustering.Engine.verdict corndogs.Clustering.Engine.publish_topology
    corndogs.Bytes.equal
one_write_lem = refl

step-Settles_example : Settles one_write waiting after_one_write
step-Settles_example = step-Settles one_write waiting after_one_write one_write_lem
