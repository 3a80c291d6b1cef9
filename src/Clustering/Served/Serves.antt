-- ===== src/Clustering/Served/Serves.antt =====
-- The loop of corndogs/server/clustering/engine.go over a replicator and its store.
use corndogs.Prelude.{
  ℕ, ◌+◌, ◌^◌, ◌≤◌, ◌<◌, ◌≡◌, refl, ap, sym, subst, ◌∙◌, false, List, [], ◌∷◌, Option, none, some,
  arith, All, length, if_cases, not, ◌&&◌, ◌==◌, leb,
}
use corndogs.Bytes.{Bytes, equal}
use corndogs.Filestore.Task.{add64}
use corndogs.Filestore.Bolt.{Env}
use corndogs.Filestore.Tx.{Error, Result, ok, err}
use corndogs.Filestore.Requests.{Request, perform}
use corndogs.Cluster.Floats.{Floats}
use corndogs.Clustering.Engine.{
  release, Input, frame, proposal, ticked, Engine, with_rep, and_run, step, run, after_step,
  handle_proposal, after_write, publish_topology, fail_all_waiters, quorum_unreachable,
}
use corndogs.Filestore.Replication.{BoltStore}
use corndogs.Filestore.ReplLog.{ReplLog}
use corndogs.Cluster.Node.{Node, Position, is_leader}
use corndogs.Clustering.Replicator.{Replicator, Frame, new_replicator, made, recover_position}
use corndogs.Clustering.Replicator.Safety.{IsFresh, IsSafe, IsSound-IsSafe, new_replicator-IsSound}
use corndogs.Clustering.Replicator.Handlers.{tick, write, last_lsn}
use corndogs.Clustering.Replicator.Sound.{IsSound, IsBased}
use corndogs.Clustering.Replicator.Incoming.{write-IsSound}
use corndogs.Clustering.Replicator.Runs.{IsPeers, FitsPayload, tick-IsSound, recv-Returns}
use corndogs.Clustering.Served.{store_replicator, written, proposed}
use corndogs.Clustering.Served.Bounded.{
  IsWithin, lsn_in, write-IsWithin, recv-IsWithin, tick-IsWithin,
}

module _ ⦃f : Floats⦄ ⦃e : Env⦄ where
  -- What reaches the engine: frames, proposals of the clustered store, ticks.
  pub data Arrival : Type 0 where
    arrives : (fr : Frame) → Arrival
    asks : (q : Request) → (channel : ℕ) → Arrival
    passes : Arrival

  abbrev pub input_of : Arrival → Input Error
  input_of (arrives fr) = frame fr
  input_of (asks q channel) = proposal (proposed q channel)
  input_of passes = ticked

  abbrev pub inputs_of : List Arrival → List (Input Error)
  inputs_of [] = []
  inputs_of (c ∷ cs) = input_of c ∷ inputs_of cs

  -- A frame is of another member; a snapshot in it has count keys that fit, and a number of at most `b`.
  pub record IsSent (id : Bytes) (b : ℕ) (fr : Frame) : Type 0 where
    pub other : equal fr.from id ≡ false
    pub fits : FitsPayload fr.payload
    pub below : lsn_in fr.payload ≤ b

  abbrev pub IsExpected : Bytes → ℕ → Arrival → Type 0
  IsExpected id b (arrives fr) = IsSent id b fr
  IsExpected id b c = Unit {0}

  -- The replicator of the engine is sound, has the id and is within the bound.
  abbrev pub Serves : Bytes → ℕ → Replicator → Type 0
  Serves id b r = IsSound r × IsWithin id b r

  abbrev ServesIn : Bytes → ℕ → Engine Error → Type 0
  ServesIn id b g = Serves id b g.rep

  abbrev HasRep : Replicator → Engine Error → Type 0
  HasRep r g = g.rep ≡ r

  after_step-rep : (g : Engine Error) → (after_step Error g).rep ≡ g.rep
  unfolding after_step publish_topology release
  after_step-rep g =
      if_cases (HasRep g.rep) (is_leader g.rep.node.role && not g.was_leader) _ _ (λ t. refl)
        (λ t. if_cases (HasRep g.rep) (not (is_leader g.rep.node.role)) _ _ (λ u. refl) (λ u. refl))

  written-rep :
      (g : Engine Error) (before channel : ℕ) (x : Result (Unit {0}) × Replicator)
      → (after_write Error before channel (written x) g).rep ≡ x.1
  written-rep g before channel (ok a, r) =
      if_cases (HasRep r) (last_lsn r == before && leb (last_lsn r) r.committed_lsn) _ _ (λ t. refl)
        (λ t. refl)
  written-rep g before channel (err c, r) = refl

  -- One round of the loop.
  abbrev Served : Bytes → ℕ → Option (Engine Error) → Type 0
  Served id b o = (g : Engine Error) × (o ≡ some g) × ServesIn id b g

  stepped :
      (id : Bytes) (b : ℕ) (g : Engine Error)
      → ServesIn id b g
      → Served id b (some (after_step Error g))
  stepped id b g h = (_, refl, subst (Serves id b) (sym (after_step-rep g)) h)

  proposal-Serves :
      (id : Bytes) (b channel : ℕ) (q : Request) (g : Engine Error)
      → b + 1 < 2 ^ 64
      → ServesIn id b g
      → ServesIn id (b + 1) (handle_proposal Error (proposed q channel) g)
  unfolding handle_proposal proposed
  proposal-Serves id b channel q g room (h, (w, i)) =
      let more : Serves id (b + 1) g.rep = (h, (omega (arith, w), i)) in
      if_cases (ServesIn id (b + 1)) (not (is_leader g.rep.node.role)) _ _ (λ t. more)
        (λ t.
          if_cases (ServesIn id (b + 1)) (quorum_unreachable Error g) _ _ (λ u. more)
            (λ u.
              subst (Serves id (b + 1))
                (sym (written-rep g (last_lsn g.rep) channel (write (perform q) g.rep)))
                (
                  write-IsSound (perform q) g.rep (omega (arith, w, room)) h,
                  write-IsWithin id b (perform q) g.rep (w, i),
                )))

  step-Served :
      (id : Bytes) (b : ℕ) (c : Arrival) (g : Engine Error)
      → IsExpected id b c
      → b + 1 < 2 ^ 64
      → ServesIn id b g
      → Served id (b + 1) (step Error (input_of c) g)
  unfolding step
  step-Served id b (arrives fr) g x room (h, w) =
      let peers : IsPeers g.rep fr = record {
        other = subst (λ i. equal fr.from i ≡ false) (sym w.1) x.other;
        fits = x.fits;
      } in
      let (r, q, k) = recv-Returns g.now fr g.rep peers h in
      let (g', p, s) =
        stepped id (b + 1) (record g { rep = r })
          (k, recv-IsWithin id b g.now fr g.rep r x.fits x.below w q) in
      (g', ap (with_rep Error g) q ∙ p, s)
  step-Served id b (asks q channel) g x room h =
      stepped id (b + 1) (handle_proposal Error (proposed q channel) g)
        (proposal-Serves id b channel q g room h)
  step-Served id b passes g x room (h, w) =
      stepped id (b + 1) (record g { now = add64 g.now 1; rep = tick (add64 g.now 1) g.rep })
        (tick-IsSound (add64 g.now 1) g.rep h, tick-IsWithin id b (add64 g.now 1) g.rep w)

  IsExpected-weaken :
      (id : Bytes) (b : ℕ) (cs : List Arrival)
      → All (IsExpected id b) cs
      → All (IsExpected id (b + 1)) cs
  IsExpected-weaken id b [] h = tt
  IsExpected-weaken id b (arrives fr ∷ cs) (x, h) = (
    record { other = x.other; fits = x.fits; below = omega (arith, x.below) },
    IsExpected-weaken id b cs h,
  )
  IsExpected-weaken id b (asks q channel ∷ cs) (x, h) = (tt, IsExpected-weaken id b cs h)
  IsExpected-weaken id b (passes ∷ cs) (x, h) = (tt, IsExpected-weaken id b cs h)

  run-Served :
      (id : Bytes) (b : ℕ) (cs : List Arrival) (g : Engine Error)
      → All (IsExpected id b) cs
      → b + length cs < 2 ^ 64
      → ServesIn id b g
      → (g' : Engine Error) × (run Error (inputs_of cs) g ≡ some g') × IsSound g'.rep
  unfolding run fail_all_waiters
  run-Served id b [] g x room h = (_, refl, h.0)
  run-Served id b (c ∷ cs) g x room h =
      let (g1, p, s) = step-Served id b c g x.0 (omega (arith, room)) h in
      let (g2, q, k) =
        run-Served id (b + 1) cs g1 (IsExpected-weaken id b cs x.1) (omega (arith, room)) s in
      (g2, ap (λ o. and_run Error o (run Error (inputs_of cs))) p ∙ q, k)

  made-id :
      (id : Bytes) (n : Node) (s : BoltStore) (ack_count : ℕ) (o : Option (Position × ReplLog))
      (l : ReplLog)
      → (made id n s ack_count o l).id ≡ id
  made-id id n s ack_count none l = refl
  made-id id n s ack_count (some (pos, l')) l = refl

  new_replicator-id :
      (id : Bytes) (n : Node) (s : BoltStore) (l : ReplLog) (ack_count : ℕ)
      → (new_replicator id n s l ack_count).id ≡ id
  unfolding new_replicator
  new_replicator-id id n s l ack_count = made-id id n s ack_count (recover_position s l) l

  -- The loop of an engine runs to its end, whatever the frames of other members, the proposals of the
  -- clustered store and the ticks are, on a replicator that New makes of a member that does not lead, and
  -- leaves the replicator safe: in step with its store, and with nothing committed or counted as
  -- acknowledged beyond its data. The count keys of the snapshots in the frames fit in bbolt. The bound `b`
  -- on the sequence numbers at the start and in the snapshots leaves room for one write in each round
  -- below 2 ^ 64.
  pub run-IsSafe :
      (id : Bytes) (n : Node) (s : BoltStore) (l : ReplLog) (ack_count b : ℕ) (cs : List Arrival)
      (g : Engine Error)
      → g.rep ≡ new_replicator id n s l ack_count
      → IsFresh id n
      → IsBased l
      → g.rep.store.repl_lsn ≤ b
      → All (IsExpected id b) cs
      → b + length cs < 2 ^ 64
      → (g' : Engine Error) × (run Error (inputs_of cs) g ≡ some g') × IsSafe g'.rep
  run-IsSafe id n s l ack_count b cs g new h k w x room =
      let sound : IsSound g.rep =
        subst IsSound (sym new) (new_replicator-IsSound id n s l ack_count h k) in
      let named : g.rep.id ≡ id =
        ap (λ (r : Replicator). r.id) new ∙ new_replicator-id id n s l ack_count in
      let (g', q, i) = run-Served id b cs g x room (sound, (w, named)) in
      (g', q, IsSound-IsSafe g'.rep i)
