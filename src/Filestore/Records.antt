-- ===== src/Filestore/Records.antt =====
-- The record operations of corndogs/server/store/filestore/boltstore.go and counts.go: every write of a
-- task keeps the uuid index, the deadline index and the counts in the same transaction.
use corndogs.Prelude.{
  ℕ, ◌^◌, ◌-◌, Bool, true, false, not, ◌∷◌, ◌++◌, Option, none, some, if◌then◌else◌, length, ◌==◌,
}
use corndogs.Bytes.{Bytes, be, of_be}
use corndogs.Filestore.Task.{Task, add64, lt64}
use corndogs.Filestore.Order.{sep, encode_task_key, encode_deadline_key}
use corndogs.Filestore.Bolt.{Env}
use corndogs.Filestore.Tx.{
  Exec, Db, pure, gets, lift_option, when, tx_put, tx_delete, cap_put, cap_del, ◌>>=◌, ◌>>◌,
  bucket_tasks, bucket_guarded, bucket_by_uuid, bucket_payloads, bucket_deadlines, bucket_counts,
  bad_record, missing_payload,
}

unfoldable pub count_key : Bytes → Bytes → Bytes
count_key queue state = queue ++ (sep ∷ state)

abbrev pub is_none {ℓ} : {A : Type ℓ} → Option A → Bool
is_none none = true
is_none (some a) = false

-- `var n int64; if len(v) == 8 { n = ... }`
unfoldable pub count_value : Option Bytes → ℕ
count_value none = 0
count_value (some v) = if length v == 8 then of_be 0 v else 0

-- int64(-1)
abbrev pub minus_one : ℕ
minus_one = 2 ^ 64 - 1

abbrev pub task_bucket : Task → Bytes
task_bucket t = if t.guarded then bucket_guarded else bucket_tasks

module _ ⦃e : Env⦄ where
  -- putBytes and deleteBytes of guards.go
  unfoldable pub put_bytes : Bytes → Bytes → Bytes → Exec (Unit {0})
  put_bytes bucket key val = do tx_put bucket key val; cap_put bucket key val

  unfoldable pub delete_bytes : Bytes → Bytes → Exec (Unit {0})
  delete_bytes bucket key = do tx_delete bucket key; cap_del bucket key

  -- `n` is the new count: at most 0 deletes the key
  unfoldable pub store_count : Bytes → ℕ → Exec (Unit {0})
  store_count key n =
      if not (lt64 0 n)
      then delete_bytes bucket_counts key
      else put_bytes bucket_counts key (be 8 n)

  unfoldable pub adjust_count : Bytes → Bytes → ℕ → Exec (Unit {0})
  unfolding store_count
  adjust_count queue state delta = do
    v ← gets (λ db. e.get (db bucket_counts) (count_key queue state))
    store_count (count_key queue state) (add64 (count_value v) delta)

  -- The bbolt writes of putTask; `capture_task` is its end, under `if s.cap != nil`.
  unfoldable pub write_task : Task → Exec (Unit {0})
  write_task t = do
    let val = e.task_json.marshal t
    let key = encode_task_key t
    let bucket = task_bucket t
    is_new ← gets (λ db. is_none (e.get (db bucket) key))
    tx_put bucket key val
    when is_new (adjust_count t.queue t.current_state 1)
    tx_put bucket_by_uuid t.uuid key
    when (lt64 0 t.timeout) (tx_put bucket_deadlines (encode_deadline_key t) key)

  unfoldable pub capture_task : Task → Exec (Unit {0})
  capture_task t = do
    let key = encode_task_key t
    cap_put (task_bucket t) key (e.task_json.marshal t)
    cap_put bucket_by_uuid t.uuid key
    when (lt64 0 t.timeout) (cap_put bucket_deadlines (encode_deadline_key t) key)

  unfoldable pub put_task : Task → Exec (Unit {0})
  unfolding write_task capture_task
  put_task t = do write_task t; capture_task t

  -- The bbolt writes of deleteTask, and its captures.
  unfoldable pub erase_task : Task → Exec (Unit {0})
  erase_task t = do
    let key = encode_task_key t
    let bucket = task_bucket t
    existed ← gets (λ db. not (is_none (e.get (db bucket) key)))
    tx_delete bucket key
    when existed (adjust_count t.queue t.current_state minus_one)
    tx_delete bucket_by_uuid t.uuid
    when (lt64 0 t.timeout) (tx_delete bucket_deadlines (encode_deadline_key t))

  unfoldable pub capture_erase : Task → Exec (Unit {0})
  capture_erase t = do
    cap_del (task_bucket t) (encode_task_key t)
    cap_del bucket_by_uuid t.uuid
    when (lt64 0 t.timeout) (cap_del bucket_deadlines (encode_deadline_key t))

  unfoldable pub delete_task : Task → Exec (Unit {0})
  unfolding erase_task capture_erase
  delete_task t = do erase_task t; capture_erase t

  unfoldable pub put_payload : Bytes → Bytes → Exec (Unit {0})
  put_payload id payload = put_bytes bucket_payloads id payload

  unfoldable pub delete_payload : Bytes → Exec (Unit {0})
  delete_payload id = delete_bytes bucket_payloads id

  unfoldable pub load_payload : Bytes → Exec Bytes
  load_payload id = do
    payload ← gets (λ db. e.get (db bucket_payloads) id)
    lift_option missing_payload payload

  abbrev pub or_else : Option Bytes → Option Bytes → Option Bytes
  or_else (some v) o = some v
  or_else none o = o

  -- The metadata under a task key in either live bucket.
  unfoldable pub live_task_value : Db → Bytes → Option Bytes
  live_task_value db key = or_else (e.get (db bucket_tasks) key) (e.get (db bucket_guarded) key)

  abbrev pub live_value_at : Db → Option Bytes → Option Bytes
  live_value_at db none = none
  live_value_at db (some key) = live_task_value db key

  abbrev pub decoded : Option Bytes → Exec (Option Task)
  decoded none = pure none
  decoded (some val) = do t ← lift_option bad_record (e.task_json.unmarshal val); pure (some t)

  unfoldable pub load_by_uuid : Bytes → Exec (Option Task)
  unfolding live_task_value pure lift_option ◌>>=◌
  load_by_uuid id = do
    val ← gets (λ db. live_value_at db (e.get (db bucket_by_uuid) id))
    decoded val
