-- ===== src/Filestore/Counts/Rebuild.antt =====
-- What rebuildCounts of corndogs/server/store/filestore/counts.go stores.
use corndogs.Prelude.{
  ℕ, ◌+◌, ◌%◌, ◌^◌, ◌<◌, ◌≡◌, refl, ap, ◌∙◌, true, false, [], ◌∷◌, Option, none, some, arith,
  length, Bool-cases, inl, inr,
}
use corndogs.Bytes.{Bytes, equal, be}
use corndogs.Bytes.Laws.{equal_iff}
use corndogs.Bytes.BigEndian.{length-be_onto}
use corndogs.Filestore.Bolt.{Env, Entries}
use corndogs.Filestore.Tx.{Db, set_bucket, bucket_tasks, bucket_guarded, bucket_counts, bucket_meta}
use corndogs.Filestore.Records.{count_key, count_value}
use corndogs.Filestore.Replication.{key_counts_ready}
use corndogs.Filestore.Replication.Wire.RoundTrip.{of_be-be}
use corndogs.Cluster.Dict.{Dict, dict_get, or_zero}
use corndogs.Cluster.Dict.Laws.{KeysFrom, HasSortedKeys}
use corndogs.Filestore.Counts.{
  and_put, and_put, with_counts, mark_ready, tally, tally_live, put_counts, rebuild_counts,
  counts_ready,
}
use corndogs.Filestore.Counts.Tally.{
  occurrences, count_in, count_in-tally, tally-HasSortedKeys, HasFitKeys, CountKeysFit,
  tally-HasFitKeys, dict_get-first, HasSortedKeys-tail,
}

module _ ⦃e : Env⦄ where
  abbrev stored_over : Option ℕ → Option Bytes → Option Bytes
  stored_over none v = v
  stored_over (some n) v = some (be 8 n)

  length-be : (n : ℕ) → length (be 8 n) ≡ 8
  unfolding be
  length-be n = length-be_onto 8 n [] ∙ omega arith

  stored_cons :
      (j k : Bytes) (n : ℕ) (d : Dict ℕ) (b b1 : e.Bucket)
      → KeysFrom k d
      → e.put b k (be 8 n) ≡ some b1
      → stored_over (dict_get j d) (e.get b1 j) ≡ stored_over (dict_get j ((k, n) ∷ d)) (e.get b j)
  unfolding dict_get
  stored_cons j k n d b b1 s p = elim (Bool-cases (equal j k)) [
    | inl t ↦
        let absent : dict_get j d ≡ none =
          ap (λ i. dict_get i d) ((equal_iff j k).0 t) ∙ dict_get-first k d s in
        rw (absent, e.get-put b k (be 8 n) b1 j p, t) refl
    | inr t ↦ rw (e.get-put b k (be 8 n) b1 j p, t) refl
  ]

  put_counts-get :
      (d : Dict ℕ) (b : e.Bucket)
      → HasSortedKeys d
      → HasFitKeys d
      → (b' : e.Bucket) × (put_counts d b ≡ some b')
        × ((j : Bytes) → e.get b' j ≡ stored_over (dict_get j d) (e.get b j))
  unfolding put_counts dict_get
  put_counts-get [] b s f = (b, refl, λ j. refl)
  put_counts-get ((k, n) ∷ d) b s f =
      let (b1, p) = e.accepts b k (be 8 n) f.0.0 f.0.1 (omega (arith, length-be n)) in
      let (b', q, g) = put_counts-get d b1 (HasSortedKeys-tail k d s) f.1 in
      (b', ap (λ o. and_put o (put_counts d)) p ∙ q, λ j. g j ∙ stored_cons j k n d b b1 s p)

  -- The number of live tasks that count for `k`.
  unfoldable pub live_count : Bytes → Db → ℕ
  unfolding occurrences
  live_count k db =
      occurrences k (e.entries (db bucket_tasks)) + occurrences k (e.entries (db bucket_guarded))

  count_in-tally_live :
      (k : Bytes) (db : Db) → count_in k (tally_live db) ≡ live_count k db % 2 ^ 64
  unfolding tally_live live_count dict_get
  count_in-tally_live k db = ground (
    arith,
    count_in-tally k (e.entries (db bucket_tasks)) [],
    count_in-tally k (e.entries (db bucket_guarded)) (tally (e.entries (db bucket_tasks)) []),
  )

  count_value-stored :
      (o : Option ℕ) → or_zero 0 o < 2 ^ 64 → count_value (stored_over o none) ≡ or_zero 0 o
  unfolding count_value
  count_value-stored none h = refl
  count_value-stored (some n) h = rw length-be (of_be-be 8 n h)

  -- The counts of `db'` are those of the live tasks of `db`, and nothing else has changed but the marker.
  pub record Rebuilt (db db' : Db) : Type 0 where
    pub counts :
        (queue state : Bytes)
        → count_value (e.get (db' bucket_counts) (count_key queue state))
          ≡ live_count (count_key queue state) db % 2 ^ 64
    pub ready : counts_ready db' ≡ true
    pub others :
        (name : Bytes)
        → equal bucket_counts name ≡ false
        → equal bucket_meta name ≡ false
        → db' name ≡ db name

  read_back :
      (o : Option ℕ) (v : Option Bytes) (n : ℕ)
      → v ≡ none
      → or_zero 0 o ≡ n % 2 ^ 64
      → count_value (stored_over o v) ≡ n % 2 ^ 64
  read_back o v n absent h =
      ap (λ w. count_value (stored_over o w)) absent ∙ count_value-stored o (omega (arith, h)) ∙ h

  set_bucket_others :
      (db : Db) (b meta : e.Bucket) (name : Bytes)
      → equal bucket_counts name ≡ false
      → equal bucket_meta name ≡ false
      → set_bucket (set_bucket db bucket_counts b) bucket_meta meta name ≡ db name
  unfolding set_bucket
  set_bucket_others db b meta name c m = rw (m, c) refl

  stored_counts-Rebuilt :
      (db : Db) (b meta : e.Bucket)
      → ((j : Bytes) → e.get b j ≡ stored_over (dict_get j (tally_live db)) (e.get e.empty j))
      → e.put (db bucket_meta) key_counts_ready (1 ∷ []) ≡ some meta
      → Rebuilt db (set_bucket (set_bucket db bucket_counts b) bucket_meta meta)
  unfolding set_bucket counts_ready equal
  stored_counts-Rebuilt db b meta g q = record {
    counts = λ queue state.
        ap count_value (g (count_key queue state))
        ∙ read_back (dict_get (count_key queue state) (tally_live db)) _
            (live_count (count_key queue state) db) (e.get-empty (count_key queue state))
            (count_in-tally_live (count_key queue state) db);
    ready = rw (e.get-put (db bucket_meta) key_counts_ready (1 ∷ []) meta key_counts_ready q) refl;
    others = set_bucket_others db b meta;
  }

  -- rebuildCounts succeeds on buckets whose count keys bbolt takes. For every queue and state the stored
  -- count is then the number of the live tasks in them, as a 64-bit word, the counts are marked as ready,
  -- and no bucket but the counts and the metadata has changed.
  pub rebuild_counts-Rebuilt :
      (db : Db)
      → CountKeysFit (e.entries (db bucket_tasks))
      → CountKeysFit (e.entries (db bucket_guarded))
      → (db' : Db) × (rebuild_counts db ≡ some db') × Rebuilt db db'
  unfolding rebuild_counts tally_live
  rebuild_counts-Rebuilt db ft fg =
      let es : Entries = e.entries (db bucket_tasks) in
      let gs : Entries = e.entries (db bucket_guarded) in
      let (b, p, g) =
        put_counts-get (tally_live db) e.empty
          (tally-HasSortedKeys gs (tally es []) (tally-HasSortedKeys es [] tt))
          (tally-HasFitKeys gs (tally es []) fg (tally-HasFitKeys es [] ft tt)) in
      let (meta, q) =
        e.accepts (db bucket_meta) key_counts_ready (1 ∷ []) (omega arith) (omega arith)
          (omega arith) in
      (
        set_bucket (set_bucket db bucket_counts b) bucket_meta meta,
        ap (with_counts db) p ∙ ap (mark_ready (set_bucket db bucket_counts b)) q,
        stored_counts-Rebuilt db b meta g q,
      )
