-- ===== src/Filestore/Counts.antt =====
-- corndogs/server/store/filestore/counts.go, and the metric operations of boltstore.go that read the
-- counts. A map from keys to counts is a Dict, which is in the order of its keys.
pub mod Tally
pub mod Rebuild
pub mod Live
use corndogs.Prelude.{
  ℕ, ◌≡◌, Bool, true, false, not, List, [], ◌∷◌, ◌++◌, Option, none, some, if◌then◌else◌, ◌==◌,
  length,
}
use corndogs.Bytes.{Bytes, equal, be, of_be, has_prefix, cut}
use corndogs.Filestore.Task.{add64}
use corndogs.Filestore.Order.{sep, parse_key_queue_state}
use corndogs.Filestore.Bolt.{Env, Entries, seek}
use corndogs.Filestore.Tx.{Db, set_bucket, bucket_tasks, bucket_guarded, bucket_counts, bucket_meta}
use corndogs.Filestore.Records.{count_key, is_none}
use corndogs.Filestore.Replication.{key_counts_ready}
use corndogs.Cluster.Dict.{Dict, dict_get, dict_put, or_zero}

unfoldable pub parse_count_key : Bytes → Bytes × Bytes
parse_count_key k = cut sep k

-- The count key of the task with the key `k`.
unfoldable pub counted_as : Bytes → Bytes
counted_as k = let (queue, state) = parse_key_queue_state k in count_key queue state

-- `counts[k]++`
unfoldable pub count_one : Bytes → Dict ℕ → Dict ℕ
unfolding dict_put dict_get
count_one k d = dict_put k (add64 (or_zero 0 (dict_get k d)) 1) d

-- The loops of rebuildCounts and forEachCount over the keys of a bucket.
unfoldable pub tally : Entries → Dict ℕ → Dict ℕ
unfolding counted_as count_one
tally [] d = d
tally ((k, v) ∷ es) d = tally es (count_one (counted_as k) d)

-- `for k, v := c.Seek(prefix); k != nil && bytes.HasPrefix(k, prefix); k, v = c.Next()`
unfoldable pub with_prefix : Bytes → Entries → Entries
with_prefix p [] = []
with_prefix p ((k, v) ∷ es) =
    let rest = with_prefix p es in if has_prefix k p then (k, v) ∷ rest else []

-- One call of the function that forEachCount is given.
pub record Count : Type 0 where
  pub queue : Bytes
  pub state : Bytes
  pub n : ℕ

unfoldable pub stored_counts : Entries → List Count
unfolding parse_count_key
stored_counts [] = []
stored_counts ((k, v) ∷ es) =
    let rest = stored_counts es in
    if length v == 8
    then record { queue = (parse_count_key k).0; state = (parse_count_key k).1; n = of_be 0 v }
      ∷ rest
    else rest

unfoldable pub tallied_counts : Dict ℕ → List Count
unfolding parse_count_key
tallied_counts [] = []
tallied_counts ((k, n) ∷ d) =
    record { queue = (parse_count_key k).0; state = (parse_count_key k).1; n = n }
    ∷ tallied_counts d

module _ ⦃e : Env⦄ where
  unfoldable pub counts_ready : Db → Bool
  counts_ready db = not (is_none (e.get (db bucket_meta) key_counts_ready))

  -- The counts of the keys of both live buckets.
  unfoldable pub tally_live : Db → Dict ℕ
  unfolding tally
  tally_live db = tally (e.entries (db bucket_guarded)) (tally (e.entries (db bucket_tasks)) [])

  abbrev pub and_put : Option e.Bucket → (e.Bucket → Option e.Bucket) → Option e.Bucket
  and_put none f = none
  and_put (some b) f = f b

  -- `b.Put([]byte(k), val)` for each count
  unfoldable pub put_counts : Dict ℕ → e.Bucket → Option e.Bucket
  put_counts [] b = some b
  put_counts ((k, n) ∷ d) b = and_put (e.put b k (be 8 n)) (put_counts d)

  abbrev pub mark_ready : Db → Option e.Bucket → Option Db
  mark_ready db none = none
  mark_ready db (some meta) = some (set_bucket db bucket_meta meta)

  abbrev pub with_counts : Db → Option e.Bucket → Option Db
  with_counts db none = none
  with_counts db (some b) =
      mark_ready (set_bucket db bucket_counts b) (e.put (db bucket_meta) key_counts_ready (1 ∷ []))

  -- rebuildCounts; `none` is an error of Put, which rolls it back
  unfoldable pub rebuild_counts : Db → Option Db
  unfolding put_counts tally_live
  rebuild_counts db = with_counts db (put_counts (tally_live db) e.empty)

  unfoldable pub ensure_counts : Db → Option Db
  unfolding counts_ready rebuild_counts
  ensure_counts db = if counts_ready db then some db else rebuild_counts db

  -- The calls that forEachCount makes, in their order.
  unfoldable pub for_each_count : Bytes → Db → List Count
  unfolding counts_ready with_prefix stored_counts tally tallied_counts
  for_each_count p db =
      if counts_ready db
      then stored_counts (with_prefix p (seek p (e.entries (db bucket_counts))))
      else tallied_counts (
          tally (with_prefix p (seek p (e.entries (db bucket_guarded))))
            (tally (with_prefix p (seek p (e.entries (db bucket_tasks)))) []))

  -- The sum of the counts, as an int64.
  unfoldable pub total : ℕ → List Count → ℕ
  total acc [] = acc
  total acc (c ∷ cs) = total (add64 acc c.n) cs

  abbrev seen_last : Bytes → List Bytes → Bool
  seen_last q [] = false
  seen_last q (p ∷ ps) = equal p q

  -- The queues of GetQueues, the last first.
  unfoldable pub queues_onto : List Bytes → List Count → List Bytes
  queues_onto qs [] = qs
  queues_onto qs (c ∷ cs) = queues_onto (if seen_last c.queue qs then qs else c.queue ∷ qs) cs

  abbrev reverse_onto : List Bytes → List Bytes → List Bytes
  reverse_onto [] ys = ys
  reverse_onto (x ∷ xs) ys = reverse_onto xs (x ∷ ys)

  unfoldable pub get_queues : Db → List Bytes × ℕ
  unfolding for_each_count total queues_onto
  get_queues db = let cs = for_each_count [] db in (reverse_onto (queues_onto [] cs) [], total 0 cs)

  -- `counts[key] += n`
  abbrev add_count : Bytes → ℕ → Dict ℕ → Dict ℕ
  add_count k n d = dict_put k (add64 (or_zero 0 (dict_get k d)) n) d

  unfoldable pub by_queue : Dict ℕ → List Count → Dict ℕ
  by_queue d [] = d
  by_queue d (c ∷ cs) = by_queue (add_count c.queue c.n d) cs

  unfoldable pub get_queue_task_counts : Db → Dict ℕ × ℕ
  unfolding for_each_count total by_queue
  get_queue_task_counts db = let cs = for_each_count [] db in (by_queue [] cs, total 0 cs)

  unfoldable pub by_state : Dict ℕ → List Count → Dict ℕ
  by_state d [] = d
  by_state d (c ∷ cs) = by_state (add_count c.state c.n d) cs

  unfoldable pub get_task_state_counts : Bytes → Db → Dict ℕ × ℕ
  unfolding for_each_count total by_state
  get_task_state_counts queue db =
      let cs = for_each_count (queue ++ (sep ∷ [])) db in (by_state [] cs, total 0 cs)

  -- api.QueueAndStateCounts
  pub record QueueAndStateCounts : Type 0 where
    pub count : ℕ
    pub state_counts : Dict ℕ

  abbrev no_counts : QueueAndStateCounts
  no_counts = record { count = 0; state_counts = [] }

  abbrev add_entry : Count → QueueAndStateCounts → QueueAndStateCounts
  add_entry c q = record {
    count = add64 q.count c.n;
    state_counts = add_count c.state c.n q.state_counts;
  }

  unfoldable pub by_queue_and_state :
      Dict QueueAndStateCounts → List Count → Dict QueueAndStateCounts
  by_queue_and_state d [] = d
  by_queue_and_state d (c ∷ cs) =
      by_queue_and_state (dict_put c.queue (add_entry c (or_zero no_counts (dict_get c.queue d))) d)
        cs

  unfoldable pub get_queue_and_state_counts : Db → Dict QueueAndStateCounts
  unfolding for_each_count by_queue_and_state
  get_queue_and_state_counts db = by_queue_and_state [] (for_each_count [] db)
