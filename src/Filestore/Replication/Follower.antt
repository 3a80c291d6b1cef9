-- ===== src/Filestore/Replication/Follower.antt =====
-- A follower that applies the leader's batch has the leader's data.
use corndogs.Prelude.{
  ℕ, ◌≡◌, refl, ap, sym, subst, ◌∙◌, ◌⊎◌, append_assoc, append-nil, All, true, List, [], ◌∷◌, ◌++◌,
  some, arith, Option-cases, inl, inr, ◌==◌, ==_refl,
}
use corndogs.Filestore.Task.{add64}
use corndogs.Filestore.Bolt.{Env}
use corndogs.Filestore.Tx.{pure, Exec, Db, Tx, Result, ok, err, Mutation}
use corndogs.Filestore.Replication.{
  MutationBatch, batch_keeps_counts, BoltStore, begin, publish, put_repl_position, apply_mutations,
  apply_batch, apply_replicated, write_capturing,
}
use corndogs.Filestore.Requests.{
  Request, submit, claim, claim_group, update, complete, cancel, clean_up, submit_keyed,
  claim_guarded, update_guarded, finish_guarded, silent, perform,
}
use corndogs.Filestore.Replication.Operations.{
  Replays-submit_task, Replays-get_next_task, Replays-get_next_task_group, Replays-update_task,
  Replays-archive_and_delete,
}
use corndogs.Filestore.Replication.Guarded.{
  Replays-clean_up_timed_out, Replays-submit_keyed_task, Replays-claim_guarded_task,
  Replays-update_guarded_task, Replays-finish_guarded_task,
}
use corndogs.Filestore.Replication.Captured.{Captured, OnOk, Replays, Replays-pure, Replays-bind}

module _ ⦃e : Env⦄ where
  -- The batch that a write with the captured mutations `muts` publishes.
  abbrev pub next_batch : BoltStore → ℕ → List Mutation → MutationBatch
  next_batch s tag muts = record { lsn = add64 s.repl_lsn 1; epoch = tag; mutations = muts }

  -- A write changed nothing and published nothing, or it published one batch, which takes the data
  -- before it to the data after it.
  abbrev pub Published : BoltStore → ℕ → BoltStore → Type 0
  Published s tag s' =
      ((s'.db ≡ s.db) × (s'.repl_lsn ≡ s.repl_lsn) × (s'.published ≡ s.published))
      ⊎ ((muts : List Mutation) × (s'.published ≡ s.published ++ next_batch s tag muts ∷ [])
          × (s'.repl_lsn ≡ add64 s.repl_lsn 1)
          × (apply_batch (next_batch s tag muts) s.db ≡ some s'.db))

  publish-Published {ℓ} :
      {A : Type ℓ} (s : BoltStore) (tag : ℕ) (a : A) (tx : Tx) (muts : List Mutation)
      → tx.muts ≡ muts
      → apply_mutations muts s.db ≡ some tx.db
      → Published s tag (publish s tag (ok a, tx)).1
  unfolding apply_mutations apply_batch
  publish-Published s tag a tx [] em h = rw em (inl (ground arith, refl, refl))
  publish-Published s tag a tx (m ∷ ms) em h =
      elim (Option-cases (put_repl_position (add64 s.repl_lsn 1) tag tx.db)) [
        | inl n ↦ rw (em, n) (inl (refl, refl, refl))
        | inr (db, p) ↦ rw (em, p) (inr (m ∷ ms, refl, refl, rw (h, p) refl))
      ]

  publish_ok {ℓ} :
      {A : Type ℓ} (s : BoltStore) (tag : ℕ) (r : Result A × Tx)
      → OnOk (λ a tx. Captured s.db tx) r
      → Published s tag (publish s tag r).1
  publish_ok s tag (ok a, tx) c = publish-Published s tag a tx tx.muts refl c.replays
  publish_ok s tag (err x, tx) c = inl (refl, refl, refl)

  -- A leader's write is in the batch that it publishes, and a failed write leaves no trace.
  pub write_capturing-Published {ℓ} :
      {A : Type ℓ} (fn : Exec A) (tag : ℕ) (s : BoltStore)
      → Replays fn
      → Published s tag (write_capturing fn tag s).1
  unfolding write_capturing apply_mutations
  write_capturing-Published fn tag s h =
      publish_ok s tag (fn (begin s true))
        (h.at s.db (begin s true) (record { on = refl; replays = refl }))

  -- The same live data and the same position.
  pub record SameData (s f : BoltStore) : Type 0 where
    pub db : f.db ≡ s.db
    pub lsn : f.repl_lsn ≡ s.repl_lsn

  apply_replicated_lem :
      (b : MutationBatch) (f : BoltStore) (db : Db)
      → (b.lsn == add64 f.repl_lsn 1) ≡ true
      → batch_keeps_counts b ≡ true
      → apply_batch b f.db ≡ some db
      → apply_replicated b f ≡ (ok tt, record f { db = db; repl_lsn = b.lsn })
  unfolding apply_replicated
  apply_replicated_lem b f db t keeps h = rw (t, h, keeps) refl

  -- A follower that applies the batch of a write takes the step that the leader took.
  apply_replicated-SameData :
      (s s' f : BoltStore) (tag : ℕ) (muts : List Mutation)
      → SameData s f
      → s'.repl_lsn ≡ add64 s.repl_lsn 1
      → batch_keeps_counts (next_batch s tag muts) ≡ true
      → apply_batch (next_batch s tag muts) s.db ≡ some s'.db
      → SameData s' (apply_replicated (next_batch s tag muts) f).1
  apply_replicated-SameData s s' f tag muts same es keeps h =
      rw
        (apply_replicated_lem (next_batch s tag muts) f s'.db
          (ap (λ (n : ℕ). add64 s.repl_lsn 1 == add64 n 1) same.lsn ∙ ==_refl (add64 s.repl_lsn 1))
          keeps (ap (apply_batch (next_batch s tag muts)) same.db ∙ h))
        (record { db = refl; lsn = sym es })

module _ ⦃e : Env⦄ where
  Replays-silent {ℓ} : {A : Type ℓ} (m : Exec A) → Replays m → Replays (silent m)
  Replays-silent m h = Replays-bind m (λ a. pure tt) h (λ a. Replays-pure tt)

  pub Replays-perform : (r : Request) → Replays (perform r)
  unfolding perform
  Replays-perform (submit id now req) = Replays-silent _ (Replays-submit_task id now req)
  Replays-perform (claim queue state req now) =
      Replays-silent _ (Replays-get_next_task queue state req now)
  Replays-perform (claim_group queues state req now) =
      Replays-silent _ (Replays-get_next_task_group queues state req now)
  Replays-perform (update req now) = Replays-silent _ (Replays-update_task req now)
  Replays-perform (complete id now) = Replays-silent _ (Replays-archive_and_delete id _ _ now)
  Replays-perform (cancel id now) = Replays-silent _ (Replays-archive_and_delete id _ _ now)
  Replays-perform (clean_up queue at_time clock) =
      Replays-silent _ (Replays-clean_up_timed_out queue at_time clock)
  Replays-perform (submit_keyed id now req ro) =
      Replays-silent _ (Replays-submit_keyed_task id now req ro)
  Replays-perform (claim_guarded id queues state req ro now) =
      Replays-silent _ (Replays-claim_guarded_task id queues state req ro now)
  Replays-perform (update_guarded req ro now) =
      Replays-silent _ (Replays-update_guarded_task req ro now)
  Replays-perform (finish_guarded req op ro now archived_at) =
      Replays-silent _ (Replays-finish_guarded_task req op ro now archived_at)

  -- The leader serves requests in turn, each under the history tag of its time. A failed request
  -- changes nothing but the reply.
  unfoldable pub lead : List (Request × ℕ) → BoltStore → BoltStore
  lead [] s = s
  lead ((r, tag) ∷ rs) s = lead rs (write_capturing (perform r) tag s).1

  -- The follower applies the batches as they come.
  unfoldable pub follow : List MutationBatch → BoltStore → BoltStore
  follow [] f = f
  follow (b ∷ bs) f = follow bs (apply_replicated b f).1

  abbrev Keeps : List MutationBatch → Type 0
  Keeps = All (λ b. batch_keeps_counts b ≡ true)

  -- The batches that a run published, and what they do to a follower.
  abbrev Copied : List (Request × ℕ) → BoltStore → Type 0
  Copied rs s =
      (bs : List MutationBatch) × ((lead rs s).published ≡ s.published ++ bs)
      × ((f : BoltStore) → SameData s f → Keeps bs → SameData (lead rs s) (follow bs f))

  lead-follow : (rs : List (Request × ℕ)) (s : BoltStore) → Copied rs s
  unfolding lead follow
  lead-follow [] s = ([], sym (append-nil s.published), λ f same k. same)
  lead-follow ((r, tag) ∷ rs) s =
      let s1 : BoltStore = (write_capturing (perform r) tag s).1 in
      let (bs, e1, k1) = lead-follow rs s1 in
      elim (write_capturing-Published (perform r) tag s (Replays-perform r)) [
        | inl (d, l, p) ↦ (
          bs,
          e1 ∙ ap (λ ps. ps ++ bs) p,
          λ f same k. k1 f (record { db = same.db ∙ sym d; lsn = same.lsn ∙ sym l }) k,
        )
        | inr (muts, p, l, h) ↦ (
          next_batch s tag muts ∷ bs,
          e1 ∙ ap (λ ps. ps ++ bs) p ∙ append_assoc s.published (next_batch s tag muts ∷ []) bs,
          λ f same k. k1 _ (apply_replicated-SameData s s1 f tag muts same l k.0 h) k.1,
        )
      ]

  -- A leader that starts with nothing published serves any requests, failing ones included. A follower
  -- with the same data and position that applies the published batches in order ends with the leader's
  -- data and position, if each batch that changes tasks changes counts too.
  pub follower_copies_leader :
      (rs : List (Request × ℕ)) (s f : BoltStore)
      → s.published ≡ []
      → SameData s f
      → Keeps (lead rs s).published
      → SameData (lead rs s) (follow (lead rs s).published f)
  follower_copies_leader rs s f fresh same keeps =
      let (bs, p, k) = lead-follow rs s in
      let q : (lead rs s).published ≡ bs = p ∙ ap (λ ps. ps ++ bs) fresh in
      subst (λ ps. SameData (lead rs s) (follow ps f)) (sym q) (k f same (subst Keeps q keeps))
