-- ===== src/Filestore/Counts/Live.antt =====
-- The rebuilt counts of corndogs/server/store/filestore/counts.go, and the tasks that the records hold.
use corndogs.Prelude.{
  ℕ, ◌+◌, ◌%◌, ◌^◌, ◌≡◌, refl, ap, ap₂, sym, ◌∙◌, Bool, true, false, true≢false, ◌&&◌, [], ◌∷◌,
  Option, none, some, if◌then◌else◌, Bool-cases, inl, inr,
}
use corndogs.Bytes.{Bytes, equal, cut}
use corndogs.Bytes.Laws.{equal_iff}
use corndogs.Filestore.Task.{Task}
use corndogs.Filestore.Order.{sep}
use corndogs.Filestore.Order.Keys.{IsName, cut-name, parse-task_key}
use corndogs.Filestore.Bolt.{Env, Entries}
use corndogs.Filestore.Tx.{Db, bucket_tasks, bucket_guarded, bucket_counts, bucket_meta}
use corndogs.Filestore.Records.{count_key, count_value}
use corndogs.Filestore.BoltStore.Next.{IsStored}
use corndogs.Filestore.Counts.{counted_as, counts_ready, rebuild_counts}
use corndogs.Filestore.Counts.Tally.{occurrences, CountKeysFit}
use corndogs.Filestore.Counts.Rebuild.{live_count, rebuild_counts-Rebuilt}

abbrev pub is_in : Bytes → Bytes → Option Task → Bool
is_in queue state none = false
is_in queue state (some t) = equal queue t.queue && equal state t.current_state

count_key-cut : (q s : Bytes) → IsName q → cut sep (count_key q s) ≡ (q, s)
unfolding count_key
count_key-cut q s h = cut-name q s h

-- Count keys of separator-free queues agree only for one queue and state.
equal-count_key :
    (q s q' s' : Bytes)
    → IsName q
    → IsName q'
    → equal (count_key q s) (count_key q' s') ≡ (equal q q' && equal s s')
equal-count_key q s q' s' h h' = elim (Bool-cases (equal (count_key q s) (count_key q' s'))) [
  | inl t ↦
      let same : (q, s) ≡ (q', s') =
        sym (count_key-cut q s h) ∙ ap (cut sep) ((equal_iff _ _).0 t) ∙ count_key-cut q' s' h' in
      let queues : equal q q' ≡ true = (equal_iff q q').1 (ap (λ x. x.0) same) in
      let states : equal s s' ≡ true = (equal_iff s s').1 (ap (λ x. x.1) same) in
      t ∙ sym (rw (queues, states) refl)
  | inr t ↦ elim (Bool-cases (equal q q')) [
    | inr u ↦ t ∙ sym (rw u refl)
    | inl u ↦ elim (Bool-cases (equal s s')) [
      | inr v ↦ t ∙ sym (rw (u, v) refl)
      | inl v ↦
          elim (true≢false (
            sym ((equal_iff _ _).1 (ap₂ count_key ((equal_iff q q').0 u) ((equal_iff s s').0 v)))
            ∙ t)) [ ]
    ]
  ]
]

module _ ⦃e : Env⦄ where
  -- How many of the records hold a task with this queue and state.
  unfoldable pub tasks_in : Bytes → Bytes → Entries → ℕ
  tasks_in queue state [] = 0
  tasks_in queue state ((k, v) ∷ es) =
      let later = tasks_in queue state es in
      if is_in queue state (e.task_json.unmarshal v) then later + 1 else later

  -- Every record holds a task, under the key of that task.
  abbrev pub AllStored : Entries → Type 0
  AllStored [] = Unit {0}
  AllStored ((k, v) ∷ es) = IsStored k v × AllStored es

  counted_as-IsStored :
      (queue state k v : Bytes)
      → IsName queue
      → IsStored k v
      → equal (count_key queue state) (counted_as k) ≡ is_in queue state (e.task_json.unmarshal v)
  unfolding counted_as
  counted_as-IsStored queue state k v h s =
      let t : Task = s.task in
      let key : counted_as k ≡ count_key t.queue t.current_state =
        ap counted_as s.at_key
        ∙ ap (λ x. count_key x.0 x.1) (parse-task_key t s.queue_name s.state_name) in
      ap (equal (count_key queue state)) key
      ∙ equal-count_key queue state t.queue t.current_state h s.queue_name
      ∙ ap (is_in queue state) (sym s.decodes)

  occurrences-tasks_in :
      (queue state : Bytes) (es : Entries)
      → IsName queue
      → AllStored es
      → occurrences (count_key queue state) es ≡ tasks_in queue state es
  unfolding occurrences tasks_in
  occurrences-tasks_in queue state [] h s = refl
  occurrences-tasks_in queue state ((k, v) ∷ es) h s =
      ap₂ (λ (b : Bool) (n : ℕ). if b then n + 1 else n) (counted_as-IsStored queue state k v h s.0)
        (occurrences-tasks_in queue state es h s.1)

  -- How many live tasks have the queue and the state.
  abbrev pub live_tasks : Bytes → Bytes → Db → ℕ
  live_tasks queue state db =
      tasks_in queue state (e.entries (db bucket_tasks))
      + tasks_in queue state (e.entries (db bucket_guarded))

  -- The counts of `db'` are those of the live tasks of `db`, and nothing else has changed but the marker.
  pub record Recounted (db db' : Db) : Type 0 where
    pub counts :
        (queue state : Bytes)
        → IsName queue
        → count_value (e.get (db' bucket_counts) (count_key queue state))
          ≡ live_tasks queue state db % 2 ^ 64
    pub ready : counts_ready db' ≡ true
    pub others :
        (name : Bytes)
        → equal bucket_counts name ≡ false
        → equal bucket_meta name ≡ false
        → db' name ≡ db name

  -- If the two live buckets hold tasks under their own keys, with names that are free of separators, and
  -- bbolt takes their count keys, then rebuildCounts succeeds. For every separator-free queue and every
  -- state the stored count is then the number of the tasks in the records of both buckets that have this
  -- queue and this state, as a 64-bit word, the counts are marked as ready, and no bucket but the counts
  -- and the metadata has changed.
  pub rebuild_counts-Recounted :
      (db : Db)
      → AllStored (e.entries (db bucket_tasks))
      → AllStored (e.entries (db bucket_guarded))
      → CountKeysFit (e.entries (db bucket_tasks))
      → CountKeysFit (e.entries (db bucket_guarded))
      → (db' : Db) × (rebuild_counts db ≡ some db') × Recounted db db'
  unfolding live_count
  rebuild_counts-Recounted db st sg ft fg =
      let (db', p, r) = rebuild_counts-Rebuilt db ft fg in
      (
        db',
        p,
        record {
          counts = λ queue state h.
              r.counts queue state
              ∙ ap₂ (λ (m n : ℕ). (m + n) % 2 ^ 64)
                  (occurrences-tasks_in queue state (e.entries (db bucket_tasks)) h st)
                  (occurrences-tasks_in queue state (e.entries (db bucket_guarded)) h sg);
          ready = r.ready;
          others = r.others;
        },
      )
