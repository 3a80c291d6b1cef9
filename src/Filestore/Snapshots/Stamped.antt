-- ===== src/Filestore/Snapshots/Stamped.antt =====
-- Stamps and restored snapshots of corndogs/server/store/filestore: that they succeed, and what they keep.
use corndogs.Prelude.{
  ℕ, ◌≡◌, refl, ap, false, [], ◌++◌, some, arith, length, length-append, Bool-cases, inl, inr,
}
use corndogs.Bytes.{Bytes, equal, be}
use corndogs.Bytes.BigEndian.{length-be_onto}
use corndogs.Filestore.Bolt.{Env}
use corndogs.Filestore.Tx.{
  Db, ok, set_bucket, bucket_tasks, bucket_guarded, bucket_counts, bucket_meta,
}
use corndogs.Filestore.Replication.{BoltStore, put_repl_position, put_back, key_repl_position}
use corndogs.Filestore.Counts.{ensure_counts, counts_ready}
use corndogs.Filestore.Counts.Tally.{CountKeysFit}
use corndogs.Filestore.Counts.Rebuild.{rebuild_counts-Rebuilt}
use corndogs.Filestore.Snapshots.{stamped, counted, stamp_repl_position, restore_snapshot}

module _ ⦃e : Env⦄ where
  -- Only the metadata and the counts may differ.
  abbrev pub SameTasks : Db → Db → Type 0
  SameTasks db db' =
      (name : Bytes)
      → equal bucket_counts name ≡ false
      → equal bucket_meta name ≡ false
      → db' name ≡ db name

  length-position : (lsn epoch : ℕ) → length (be 8 lsn ++ be 8 epoch) ≡ 16
  unfolding be
  length-position lsn epoch = omega (
    arith,
    length-append (be 8 lsn) (be 8 epoch),
    length-be_onto 8 lsn [],
    length-be_onto 8 epoch [],
  )

  pub set_meta-SameTasks : (db : Db) (b : e.Bucket) → SameTasks db (set_bucket db bucket_meta b)
  unfolding set_bucket
  set_meta-SameTasks db b name c m = rw m refl

  -- The position can always be recorded, and only the metadata changes.
  pub stamp_repl_position_lem :
      (lsn epoch : ℕ) (s : BoltStore)
      → (db : Db) × (stamp_repl_position lsn epoch s ≡ (ok tt, record s { db = db }))
        × SameTasks s.db db
  unfolding stamp_repl_position put_repl_position
  stamp_repl_position_lem lsn epoch s =
      let (b, p) =
        e.accepts (s.db bucket_meta) key_repl_position (be 8 lsn ++ be 8 epoch) (omega arith)
          (omega arith) (omega (arith, length-position lsn epoch)) in
      (
        set_bucket s.db bucket_meta b,
        ap (λ o. stamped s (put_back s.db bucket_meta o)) p,
        set_meta-SameTasks s.db b,
      )

  -- The count keys of the live tasks are not too long for bbolt.
  pub record CountsFit (db : Db) : Type 0 where
    pub tasks : CountKeysFit (e.entries (db bucket_tasks))
    pub guarded : CountKeysFit (e.entries (db bucket_guarded))

  ensure_counts_lem :
      (db : Db) → CountsFit db → (db' : Db) × (ensure_counts db ≡ some db') × SameTasks db db'
  unfolding ensure_counts
  ensure_counts_lem db fit = elim (Bool-cases (counts_ready db)) [
    | inl t ↦ rw t (db, refl, λ name c m. refl)
    | inr t ↦
        let (db', p, h) = rebuild_counts-Rebuilt db fit.tasks fit.guarded in rw t (db', p, h.others)
  ]

  -- A snapshot that opens is restored.
  pub restore_snapshot_lem :
      (data_in : Db) (lsn : ℕ) (s : BoltStore)
      → CountsFit data_in
      → (db : Db) × (restore_snapshot (some data_in) lsn s
          ≡ (ok tt, record s { db = db; repl_lsn = lsn }))
        × SameTasks data_in db
  unfolding restore_snapshot
  restore_snapshot_lem data_in lsn s fit =
      let (db, p, h) = ensure_counts_lem data_in fit in
      (db, ap (counted (record s { db = data_in; repl_lsn = lsn })) p, h)
