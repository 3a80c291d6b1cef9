-- ===== src/Filestore/Replication/Tasks.antt =====
-- `putTask` and `deleteTask` capture all that they write. They capture the count before the task's own
-- mutations and write it after the first of these, so a replay makes the writes in another order.
use corndogs.Prelude.{
  ℕ, ◌≡◌, refl, ap, sym, ◌∙◌, Bool, true, false, not, List, [], ◌∷◌, ◌++◌, some, if◌then◌else◌,
  Bool-cases, Option-cases, inl, inr, append_assoc, append-nil,
}
use corndogs.Bytes.{Bytes, equal}
use corndogs.Filestore.Task.{Task, lt64}
use corndogs.Filestore.Order.{encode_task_key, encode_deadline_key}
use corndogs.Filestore.Bolt.{Env}
use corndogs.Filestore.Tx.{
  Exec, Db, Tx, ok, Mutation, gets, and_then, when, tx_put, tx_delete, cap_put, cap_del, set_bucket,
  ◌>>=◌, bucket_counts, bucket_by_uuid, bucket_deadlines,
}
use corndogs.Filestore.Records.{
  adjust_count, write_task, capture_task, put_task, erase_task, capture_erase, delete_task,
  task_bucket, is_none, minus_one,
}
use corndogs.Filestore.Replication.{apply_mutation, apply_mutations}
use corndogs.Filestore.Replication.Captured.{
  apply_mutations-append, set_bucket_swap, Captured, OnOk, Replays, capture_on,
}
use corndogs.Filestore.Replication.Counts.{
  put_mutation, del_mutation, OnOk-bind, OnOk-map, Wrote, Writes, Writes-tx_put, Writes-tx_delete,
  Writes-when, Writes-bind, Counted, adjust_count-Counted,
}

module _ ⦃e : Env⦄ where
  -- A write of a bucket, the count where it changes, and the writes `ws`: what is captured of the
  -- count, then the first write, then `ws`, replays all of it.
  abbrev Phase : Mutation → List Mutation → Tx → Tx → Type 0
  Phase m ws s s1 =
      (s1.capturing ≡ true)
      × (cs : List Mutation) × (s1.muts ≡ s.muts ++ cs)
      × (apply_mutations (cs ++ (m ∷ ws)) s.db ≡ some s1.db)

  set_bucket_other :
      (db : Db) (m n : Bytes) (b : e.Bucket) → equal m n ≡ false → set_bucket db m b n ≡ db n
  unfolding set_bucket
  set_bucket_other db m n b h = rw h

  module _ (name : Bytes) (b : e.Bucket) (m : Mutation) (ws : List Mutation) (s : Tx)
      (on : s.capturing ≡ true)
      (apart : (equal name bucket_counts ≡ false) × (equal bucket_counts name ≡ false))
      (one : (d : Db) → d name ≡ s.db name → apply_mutation m d ≡ some (set_bucket d name b)) where
    abbrev first : Tx
    first = record s { db = set_bucket s.db name b }

    plain-Phase : (s3 : Tx) → Wrote ws first s3 → Phase m ws s s3
    unfolding apply_mutations
    plain-Phase s3 w = (w.0 ∙ on, [], w.1 ∙ sym (append-nil s.muts), rw (one s.db refl) w.2)

    Counted-Phase : (s2 s3 : Tx) → Counted first s2 → Wrote ws s2 s3 → Phase m ws s s3
    unfolding apply_mutations
    Counted-Phase s2 s3 (mc, c, on2, muts2, db2, count) w = (
      w.0 ∙ on2 ∙ on,
      mc ∷ [],
      w.1 ∙ muts2,
      rw (count s.db (sym (set_bucket_other s.db name bucket_counts b apart.0))) (
          rw
            (one (set_bucket s.db bucket_counts c)
              (set_bucket_other s.db bucket_counts name c apart.1))
            (ap (apply_mutations ws) (set_bucket_swap s.db bucket_counts name c b apart.1 ∙ sym db2)
              ∙ w.2)),
    )

    -- The count changes, or not, and then `rest` makes the writes `ws`.
    phase :
        (changes : Bool) (queue state : Bytes) (delta : ℕ) (rest : Exec (Unit {0}))
        → Writes ws rest
        → OnOk
            (λ a s3. Phase m ws s s3)
            (and_then (when changes (adjust_count queue state delta) first) (λ a. rest))
    unfolding when
    phase false queue state delta rest w =
        OnOk-map (λ a s3. Wrote ws first s3) (λ a s3. Phase m ws s s3) (rest first) (w.at first)
          (λ a s3 h. plain-Phase s3 h)
    phase true queue state delta rest w =
        OnOk-bind (λ a s2. Counted first s2) (λ a s3. Phase m ws s s3)
          (adjust_count queue state delta first) (λ a. rest)
          (adjust_count-Counted queue state delta first on)
          (λ a s2 h.
            OnOk-map (λ a' s3. Wrote ws s2 s3) (λ a' s3. Phase m ws s s3) (rest s2) (w.at s2)
              (λ a' s3 k. Counted-Phase s2 s3 h k))

  Phase-Captured :
      (base : Db) (m : Mutation) (ws : List Mutation) (s s1 : Tx)
      → Captured base s
      → Phase m ws s s1
      → Captured base (record s1 { muts = s1.muts ++ (m ∷ ws) })
  Phase-Captured base m ws s s1 c (on, cs, em, r) = record {
    on = on;
    replays =
        ap (λ ms. apply_mutations (ms ++ (m ∷ ws)) base) em
        ∙ ap (λ ms. apply_mutations ms base) (append_assoc s.muts cs (m ∷ ws))
        ∙ apply_mutations-append s.muts (cs ++ (m ∷ ws)) base s.db c.replays
        ∙ r;
  }

  -- The mutations of a task's own keys that putTask and deleteTask make.
  abbrev index_puts : Task → List Mutation
  index_puts t =
      put_mutation bucket_by_uuid t.uuid (encode_task_key t)
      ∷ (if lt64 0 t.timeout
          then put_mutation bucket_deadlines (encode_deadline_key t) (encode_task_key t) ∷ []
          else [])

  abbrev index_dels : Task → List Mutation
  index_dels t =
      del_mutation bucket_by_uuid t.uuid
      ∷ (if lt64 0 t.timeout
          then del_mutation bucket_deadlines (encode_deadline_key t) ∷ []
          else [])

  abbrev task_put : Task → Mutation
  task_put t = put_mutation (task_bucket t) (encode_task_key t) (e.task_json.marshal t)

  abbrev task_del : Task → Mutation
  task_del t = del_mutation (task_bucket t) (encode_task_key t)

  -- `m` captures `ws` and does nothing else.
  record Captures (ws : List Mutation) (m : Exec (Unit {0})) : Type 0 where
    at : (s : Tx) → s.capturing ≡ true → m s ≡ (ok tt, record s { muts = s.muts ++ ws })

  Captures-cap_put :
      (name key val : Bytes) → Captures (put_mutation name key val ∷ []) (cap_put name key val)
  unfolding cap_put
  Captures-cap_put name key val = record {
    at = λ s on. capture_on (put_mutation name key val) s on;
  }

  Captures-cap_del : (name key : Bytes) → Captures (del_mutation name key ∷ []) (cap_del name key)
  unfolding cap_del
  Captures-cap_del name key = record { at = λ s on. capture_on (del_mutation name key) s on }

  Captures-when :
      (b : Bool) (ws : List Mutation) (m : Exec (Unit {0}))
      → Captures ws m
      → Captures (if b then ws else []) (when b m)
  unfolding when
  Captures-when true ws m h = h
  Captures-when false ws m h = record {
    at = λ s on.
        ap (λ (ms : List Mutation). (ok tt, record s { muts = ms })) (sym (append-nil s.muts));
  }

  Captures-bind :
      (ws vs : List Mutation) (m n : Exec (Unit {0}))
      → Captures ws m
      → Captures vs n
      → Captures (ws ++ vs) (m >>= λ a. n)
  unfolding ◌>>=◌
  Captures-bind ws vs m n h k = record {
    at = λ s on. rw (h.at s on) (
        k.at (record s { muts = s.muts ++ ws }) on
        ∙ ap (λ (ms : List Mutation). (ok tt, record s { muts = ms })) (append_assoc s.muts ws vs));
  }

  capture_task-Captures : (t : Task) → Captures (task_put t ∷ index_puts t) (capture_task t)
  unfolding capture_task
  capture_task-Captures t =
      Captures-bind _ _ _ _
        (Captures-cap_put (task_bucket t) (encode_task_key t) (e.task_json.marshal t))
        (Captures-bind _ _ _ _ (Captures-cap_put bucket_by_uuid t.uuid (encode_task_key t)) (
          Captures-when (lt64 0 t.timeout) _ _
            (Captures-cap_put bucket_deadlines (encode_deadline_key t) (encode_task_key t))))

  capture_erase-Captures : (t : Task) → Captures (task_del t ∷ index_dels t) (capture_erase t)
  unfolding capture_erase
  capture_erase-Captures t =
      Captures-bind _ _ _ _ (Captures-cap_del (task_bucket t) (encode_task_key t)) (
        Captures-bind _ _ _ _ (Captures-cap_del bucket_by_uuid t.uuid) (
          Captures-when (lt64 0 t.timeout) _ _
            (Captures-cap_del bucket_deadlines (encode_deadline_key t))))

  apart_task :
      (t : Task)
      → (equal (task_bucket t) bucket_counts ≡ false)
        × (equal bucket_counts (task_bucket t) ≡ false)
  unfolding equal
  apart_task t = elim (Bool-cases t.guarded) [
    | inl p ↦ rw p (refl, refl)
    | inr p ↦ rw p (refl, refl)
  ]

  write_task-Phase :
      (t : Task) (s : Tx)
      → s.capturing ≡ true
      → OnOk (λ a s1. Phase (task_put t) (index_puts t) s s1) (write_task t s)
  unfolding write_task ◌>>=◌ gets apply_mutation tx_put
  write_task-Phase t s on =
      elim (Option-cases
        (e.put (s.db (task_bucket t)) (encode_task_key t) (e.task_json.marshal t))) [
          | inl q ↦ rw (q, tx_put) tt
          | inr (b, q) ↦
              rw (q, tx_put)
                (phase (task_bucket t) b (task_put t) (index_puts t) s on (apart_task t)
                  (λ d h. rw (h, q) refl)
                  (is_none (e.get (s.db (task_bucket t)) (encode_task_key t))) t.queue
                  t.current_state 1 _
                  (Writes-bind _ _ _ _ (Writes-tx_put bucket_by_uuid t.uuid (encode_task_key t)) (
                    Writes-when (lt64 0 t.timeout) _ _ (
                      Writes-tx_put bucket_deadlines (encode_deadline_key t) (encode_task_key t)))))
        ]

  erase_task-Phase :
      (t : Task) (s : Tx)
      → s.capturing ≡ true
      → OnOk (λ a s1. Phase (task_del t) (index_dels t) s s1) (erase_task t s)
  unfolding erase_task ◌>>=◌ gets tx_delete apply_mutation
  erase_task-Phase t s on =
      phase (task_bucket t) (e.delete (s.db (task_bucket t)) (encode_task_key t)) (task_del t)
        (index_dels t) s on (apart_task t) (λ d h. rw h refl)
        (not (is_none (e.get (s.db (task_bucket t)) (encode_task_key t)))) t.queue t.current_state
        minus_one _
        (Writes-bind _ _ _ _ (Writes-tx_delete bucket_by_uuid t.uuid) (
          Writes-when (lt64 0 t.timeout) _ _
            (Writes-tx_delete bucket_deadlines (encode_deadline_key t))))

  -- Writes first and captures after: together they replay.
  Replays-phases :
      (m : Mutation) (ws : List Mutation) (write cap : Exec (Unit {0}))
      → ((s : Tx) → s.capturing ≡ true → OnOk (λ a s1. Phase m ws s s1) (write s))
      → Captures (m ∷ ws) cap
      → Replays (write >>= λ a. cap)
  unfolding ◌>>=◌
  Replays-phases m ws write cap h k = record {
    at = λ base s c.
        OnOk-bind (λ a s1. Phase m ws s s1) (λ a s1. Captured base s1) (write s) (λ a. cap)
          (h s c.on) (λ a s1 p. rw (k.at s1 p.0) (Phase-Captured base m ws s s1 c p));
  }

  pub Replays-put_task : (t : Task) → Replays (put_task t)
  unfolding put_task
  Replays-put_task t =
      Replays-phases (task_put t) (index_puts t) (write_task t) (capture_task t)
        (write_task-Phase t) (capture_task-Captures t)

  pub Replays-delete_task : (t : Task) → Replays (delete_task t)
  unfolding delete_task
  Replays-delete_task t =
      Replays-phases (task_del t) (index_dels t) (erase_task t) (capture_erase t)
        (erase_task-Phase t) (capture_erase-Captures t)
