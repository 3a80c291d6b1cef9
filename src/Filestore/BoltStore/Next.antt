-- ===== src/Filestore/BoltStore/Next.antt =====
-- GetNextTask claims the first task of the dequeue order.
use corndogs.Prelude.{
  ℕ, ◌≡◌, refl, ap, sym, subst, ◌∙◌, true, false, some, some-injective, some-ne-none, if◌then◌else◌,
  Bool-cases, inl, inr,
}
use corndogs.Bytes.{Bytes, IsWord64, equal, less, has_prefix}
use corndogs.Bytes.Laws.{equal_iff}
use corndogs.Filestore.Task.{Task}
use corndogs.Filestore.Order.{Overrides, encode_task_key, task_prefix, better_candidate}
use corndogs.Filestore.Order.Dequeue.{less-task_key}
use corndogs.Filestore.Order.Keys.{IsName, has_prefix-task_key}
use corndogs.Filestore.Bolt.{Env}
use corndogs.Filestore.Tx.{Db, Tx, gets, ◌>>=◌, lift_option, bucket_tasks}
use corndogs.Filestore.BoltStore.{head_value, get_next_task, claim_task}
use corndogs.Filestore.Bolt.Seek.{first_lem}

module _ ⦃e : Env⦄ where
  -- Every value of the bucket is a task under its own key, with words and names as the keys need them.
  pub record IsStored (k v : Bytes) : Type 0 where
    pub task : Task
    pub decodes : e.task_json.unmarshal v ≡ some task
    pub at_key : k ≡ encode_task_key task
    pub priority_word : IsWord64 task.priority
    pub time_word : IsWord64 task.update_time
    pub queue_name : IsName task.queue
    pub state_name : IsName task.current_state

  abbrev pub HoldsTasks : e.Bucket → Type 0
  HoldsTasks b = (k v : Bytes) → e.get b k ≡ some v → IsStored k v

  pub empty-HoldsTasks : HoldsTasks e.empty
  empty-HoldsTasks k v h = elim (some-ne-none v (sym h ∙ e.get-empty k)) [ ]

  -- A bucket goes on holding tasks when a task with words and names as the keys need them is put.
  pub put-HoldsTasks :
      (b b' : e.Bucket) (t : Task)
      → e.put b (encode_task_key t) (e.task_json.marshal t) ≡ some b'
      → HoldsTasks b
      → IsWord64 t.priority
      → IsWord64 t.update_time
      → IsName t.queue
      → IsName t.current_state
      → HoldsTasks b'
  put-HoldsTasks b b' t p holds pw tw qn sn k v h =
      elim (Bool-cases (equal k (encode_task_key t))) [
        | inl q ↦ record {
          task = t;
          decodes =
              ap e.task_json.unmarshal (sym (some-injective _ _ (sym (found q) ∙ h)))
              ∙ e.task_json.unmarshal-marshal t;
          at_key = (equal_iff k (encode_task_key t)).0 q;
          priority_word = pw;
          time_word = tw;
          queue_name = qn;
          state_name = sn;
        }
        | inr q ↦ holds k v (
            sym (
              e.get-put b (encode_task_key t) (e.task_json.marshal t) b' k p
              ∙ ap (λ c. if c then some (e.task_json.marshal t) else e.get b k) q)
            ∙ h)
      ]
    where
      found : equal k (encode_task_key t) ≡ true → e.get b' k ≡ some (e.task_json.marshal t)
      found q =
          e.get-put b (encode_task_key t) (e.task_json.marshal t) b' k p
          ∙ ap (λ c. if c then some (e.task_json.marshal t) else e.get b k) q

  -- The best task of a queue and state, measured against `t`.
  pub record BestFor (bucket queue state : Bytes) (db : Db) (t best : Task) (w : Bytes)
      : Type 0 where
    pub decodes : e.task_json.unmarshal w ≡ some best
    pub live : e.get (db bucket) (encode_task_key best) ≡ some w
    pub in_queue : best.queue ≡ queue
    pub in_state : best.current_state ≡ state
    pub first : better_candidate t best ≡ false

  head_value_best :
      (bucket queue state : Bytes) (db : Db) (t : Task) (v : Bytes)
      → HoldsTasks (db bucket)
      → IsName queue
      → IsName state
      → e.get (db bucket) (encode_task_key t) ≡ some v
      → IsWord64 t.priority
      → IsWord64 t.update_time
      → t.queue ≡ queue
      → t.current_state ≡ state
      → (best : Task) × (w : Bytes) × (head_value bucket queue state db ≡ some w)
        × BestFor bucket queue state db t best w
  unfolding head_value
  head_value_best bucket queue state db t v holds nq ns live pw tw eq es =
      let p : Bytes = task_prefix queue state in
      let pre : has_prefix (encode_task_key t) p ≡ true =
        (has_prefix-task_key t queue state (subst IsName (sym eq) nq) (subst IsName (sym es) ns) nq
            ns).1
          (eq, es) in
      let (k, w, head, at, kp, o) =
        first_lem p (encode_task_key t) v (e.entries (db bucket)) (e.ascending (db bucket))
          (e.lookup-entries (db bucket) (encode_task_key t) ∙ live) pre in
      let stored : IsStored k w = holds k w (sym (e.lookup-entries (db bucket) k) ∙ at) in
      let best : Task = stored.task in
      let (bq, bs) =
        (has_prefix-task_key best queue state stored.queue_name stored.state_name nq ns).0
          (subst (λ x. has_prefix x p ≡ true) stored.at_key kp) in
      (
        best,
        w,
        head,
        record {
          decodes = stored.decodes;
          live =
              subst (λ x. e.get (db bucket) x ≡ some w) stored.at_key
                (sym (e.lookup-entries (db bucket) k) ∙ at);
          in_queue = bq;
          in_state = bs;
          first =
              sym (
                less-task_key t best pw stored.priority_word tw stored.time_word (eq ∙ sym bq)
                  (es ∙ sym bs))
              ∙ subst (λ x. less (encode_task_key t) x ≡ false) stored.at_key o;
        },
      )

  get_next_task_head :
      (queue state : Bytes) (req : Overrides) (now : ℕ) (tx : Tx) (w : Bytes) (best : Task)
      → head_value bucket_tasks queue state tx.db ≡ some w
      → e.task_json.unmarshal w ≡ some best
      → get_next_task queue state req now tx ≡ claim_task best state req now tx
  unfolding get_next_task ◌>>=◌ gets lift_option
  get_next_task_head queue state req now tx w best h d = rw (h, d) refl

  -- While any task `t` of the queue and state is live, GetNextTask claims a live task of that queue and
  -- state before which `t` does not come in the dequeue order. The bucket holds tasks under their own
  -- keys, the names are free of separators, and the priority and update time of `t` are 64-bit words.
  pub get_next_task-BestFor :
      (queue state : Bytes) (req : Overrides) (now : ℕ) (tx : Tx) (t : Task) (v : Bytes)
      → HoldsTasks (tx.db bucket_tasks)
      → IsName queue
      → IsName state
      → e.get (tx.db bucket_tasks) (encode_task_key t) ≡ some v
      → IsWord64 t.priority
      → IsWord64 t.update_time
      → t.queue ≡ queue
      → t.current_state ≡ state
      → (best : Task) × (w : Bytes) × (get_next_task queue state req now tx
          ≡ claim_task best state req now tx)
        × BestFor bucket_tasks queue state tx.db t best w
  get_next_task-BestFor queue state req now tx t v holds nq ns live pw tw eq es =
      let (best, w, head, b) =
        head_value_best bucket_tasks queue state tx.db t v holds nq ns live pw tw eq es in
      (best, w, get_next_task_head queue state req now tx w best head b.decodes, b)
