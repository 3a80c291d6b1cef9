-- ===== src/Filestore/Replication/Numbered.antt =====
-- How a write moves the sequence number of the store, in writeCapturing and ApplyReplicated of
-- corndogs/server/store/filestore/boltstore.go.
use corndogs.Prelude.{
  ℕ, ◌≡◌, refl, ◌⊎◌, inl, inr, List, [], ◌∷◌, ◌++◌, true, Option, none, some, Option-cases,
  Bool-cases, ◌==◌,
}
use corndogs.Filestore.Task.{add64}
use corndogs.Filestore.Bolt.{Env}
use corndogs.Filestore.Tx.{Exec, Db, Tx, Result, ok, err, Mutation}
use corndogs.Filestore.Replication.{
  MutationBatch, BoltStore, begin, publish, write_capturing, apply_replicated, apply_batch, install,
  put_repl_position,
}

module _ ⦃e : Env⦄ where
  -- A write published nothing and kept the number, or one batch that has the new number.
  abbrev pub Numbered : BoltStore → BoltStore → Type 0
  Numbered s s' =
      ((s'.repl_lsn ≡ s.repl_lsn) × (s'.published ≡ s.published))
      ⊎ ((b : MutationBatch) × (s'.published ≡ s.published ++ b ∷ [])
          × (b.lsn ≡ add64 s.repl_lsn 1)
          × (s'.repl_lsn ≡ add64 s.repl_lsn 1))

  publish-Numbered {ℓ} :
      {A : Type ℓ} (s : BoltStore) (tag : ℕ) (x : Result A × Tx) (muts : List Mutation)
      → x.1.muts ≡ muts
      → Numbered s (publish s tag x).1
  publish-Numbered s tag (err c, tx) muts h = inl (refl, refl)
  publish-Numbered s tag (ok a, tx) [] h = rw h (inl (refl, refl))
  publish-Numbered s tag (ok a, tx) (m ∷ ms) h =
      elim (Option-cases (put_repl_position (add64 s.repl_lsn 1) tag tx.db)) [
        | inl n ↦ rw (h, n) (inl (refl, refl))
        | inr (db, p) ↦ rw (h, p) (inr (_, refl, refl, refl))
      ]

  pub write_capturing-Numbered {ℓ} :
      {A : Type ℓ} (fn : Exec A) (tag : ℕ) (s : BoltStore) → Numbered s (write_capturing fn tag s).1
  unfolding write_capturing
  write_capturing-Numbered fn tag s = publish-Numbered s tag (fn (begin s true)) _ refl

  -- A batch is refused without a trace, or the store takes its number.
  abbrev pub Took : ℕ → BoltStore → Result (Unit {0}) × BoltStore → Type 0
  Took lsn s (err c, s') = s' ≡ s
  Took lsn s (ok a, s') = s'.repl_lsn ≡ lsn

  install-Took : (b : MutationBatch) (s : BoltStore) (o : Option Db) → Took b.lsn s (install s b o)
  install-Took b s none = refl
  install-Took b s (some db) = refl

  pub apply_replicated-Took :
      (b : MutationBatch) (s : BoltStore) → Took b.lsn s (apply_replicated b s)
  unfolding apply_replicated
  apply_replicated-Took b s = elim (Bool-cases (b.lsn == add64 s.repl_lsn 1)) [
    | inl t ↦ rw t (install-Took b s (apply_batch b s.db))
    | inr t ↦ rw t refl
  ]
