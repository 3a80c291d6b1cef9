-- ===== src/Examples/Groups.antt =====
-- An update to a state of more than 32768 bytes, and the theorem about group commits at it.
use corndogs.Prelude.{
  some, ℕ, zero, suc, ◌<◌, ◌≡◌, refl, [], ◌∷◌, ◌++◌, none, false, length, length-append, arith,
}
use corndogs.Bytes.{Bytes}
use corndogs.Filestore.Order.{
  sep, encode_task_key, task_prefix, encode_priority_desc, encode_time_asc,
}
use corndogs.Filestore.Api.{UpdateTaskRequest}
use corndogs.Filestore.Bolt.{max_key_size}
use corndogs.Filestore.Tx.{ok, err, put_refused, set_bucket, bucket_tasks, bucket_by_uuid}
use corndogs.Filestore.Records.{load_by_uuid, delete_task}
use corndogs.Filestore.BoltStore.{update_task, updated}
use corndogs.Filestore.Replication.{BoltStore, begin, update_db, commit_group}
use corndogs.Filestore.Replication.Grouped.{commit_group-refused}
use corndogs.Examples.Codec.{list_task_json}
use corndogs.Examples.Keys.{urgent_task}
use corndogs.Examples.Stores.{list_env}

abbrev repeated : ℕ → Bytes
repeated zero = []
repeated (suc n) = b'x' ∷ repeated n

length-repeated : (n : ℕ) → length (repeated n) ≡ n
length-repeated zero = refl
length-repeated (suc n) = omega (arith, length-repeated n)

long_text : (s : Bytes) × (max_key_size < length s)
long_text = (repeated 32_769, omega (arith, length-repeated 32_769))

abbrev one_task : BoltStore
one_task = record {
  db =
      set_bucket
        (set_bucket (λ name. []) bucket_tasks
          ((encode_task_key urgent_task, list_task_json.marshal urgent_task) ∷ []))
        bucket_by_uuid ((urgent_task.uuid, encode_task_key urgent_task) ∷ []);
  audit = [];
  repl_lsn = 0;
  published = [];
}

abbrev long_update : UpdateTaskRequest
long_update = record {
  uuid = urgent_task.uuid;
  auto_target_state = [];
  timeout = 0;
  new_state = long_text.0;
  payload = none;
  priority = none;
}

long_key : max_key_size < length (encode_task_key (updated urgent_task long_update 9))
unfolding encode_task_key task_prefix updated
long_key = omega (
  arith,
  long_text.1,
  length-append long_text.0 (sep ∷ []),
  length-append (long_text.0 ++ sep ∷ [])
      (encode_priority_desc 7 ++ (encode_time_asc 9 ++ 117 ∷ [])),
)

loads :
    load_by_uuid urgent_task.uuid (begin one_task false)
    ≡ (ok (some urgent_task), begin one_task false)
unfolding corndogs.Bytes.equal corndogs.Bytes.be_onto corndogs.Bytes.be corndogs.Bytes.of_be
    corndogs.Filestore.Bolt.lookup corndogs.Filestore.Bolt.seek corndogs.Filestore.Bolt.head_in
    corndogs.Filestore.Tx.set_bucket corndogs.Filestore.Tx.pure corndogs.Filestore.Tx.raise
    corndogs.Filestore.Tx.◌>>=◌ corndogs.Filestore.Tx.gets corndogs.Filestore.Tx.lift_option
    corndogs.Filestore.Tx.when corndogs.Filestore.Tx.tx_put corndogs.Filestore.Tx.tx_delete
    corndogs.Filestore.Tx.capture corndogs.Filestore.Tx.cap_put corndogs.Filestore.Tx.cap_del
    corndogs.Filestore.Tx.record_audit corndogs.Filestore.Records.count_key
    corndogs.Filestore.Records.count_value corndogs.Filestore.Records.put_bytes
    corndogs.Filestore.Records.delete_bytes corndogs.Filestore.Records.store_count
    corndogs.Filestore.Records.adjust_count corndogs.Filestore.Records.write_task
    corndogs.Filestore.Records.capture_task corndogs.Filestore.Records.put_task
    corndogs.Filestore.Records.erase_task corndogs.Filestore.Records.capture_erase
    corndogs.Filestore.Records.delete_task corndogs.Filestore.Records.put_payload
    corndogs.Filestore.Records.load_payload corndogs.Filestore.BoltStore.submitted_task
    corndogs.Filestore.BoltStore.submit_task corndogs.Filestore.BoltStore.claimed
    corndogs.Filestore.BoltStore.claim_task corndogs.Filestore.BoltStore.head_value
    corndogs.Filestore.BoltStore.get_next_task corndogs.Filestore.Requests.perform
    corndogs.Filestore.Replication.changes_tasks corndogs.Filestore.Replication.changes_counts
    corndogs.Filestore.Replication.batch_keeps_counts corndogs.Filestore.Replication.write_capturing
    corndogs.Filestore.Replication.Follower.lead corndogs.Filestore.Order.encode_priority_desc
    corndogs.Filestore.Order.encode_time_asc corndogs.Filestore.Order.task_prefix
    corndogs.Filestore.Order.encode_task_key corndogs.Filestore.Order.task_deadline
    corndogs.Filestore.Order.apply_get_next corndogs.Examples.Buckets.insert
    corndogs.Examples.Buckets.sorted corndogs.Examples.Buckets.without
    corndogs.Examples.Buckets.accepted corndogs.Examples.Buckets.put_entry
    corndogs.Examples.Codec.text corndogs.Examples.Codec.split corndogs.Examples.Codec.read_text
    corndogs.Examples.Codec.write_task corndogs.Examples.Codec.read_task_end
    corndogs.Examples.Codec.read_task corndogs.Filestore.Order.encode_deadline_key
    corndogs.Filestore.Replication.put_repl_position corndogs.Bytes.less corndogs.Bytes.has_prefix
    corndogs.Filestore.Records.load_by_uuid
loads = refl

deletes :
    delete_task urgent_task (begin one_task false)
    ≡ (ok tt, (delete_task urgent_task (begin one_task false)).1)
unfolding corndogs.Bytes.equal corndogs.Bytes.be_onto corndogs.Bytes.be corndogs.Bytes.of_be
    corndogs.Filestore.Bolt.lookup corndogs.Filestore.Bolt.seek corndogs.Filestore.Bolt.head_in
    corndogs.Filestore.Tx.set_bucket corndogs.Filestore.Tx.pure corndogs.Filestore.Tx.raise
    corndogs.Filestore.Tx.◌>>=◌ corndogs.Filestore.Tx.gets corndogs.Filestore.Tx.lift_option
    corndogs.Filestore.Tx.when corndogs.Filestore.Tx.tx_put corndogs.Filestore.Tx.tx_delete
    corndogs.Filestore.Tx.capture corndogs.Filestore.Tx.cap_put corndogs.Filestore.Tx.cap_del
    corndogs.Filestore.Tx.record_audit corndogs.Filestore.Records.count_key
    corndogs.Filestore.Records.count_value corndogs.Filestore.Records.put_bytes
    corndogs.Filestore.Records.delete_bytes corndogs.Filestore.Records.store_count
    corndogs.Filestore.Records.adjust_count corndogs.Filestore.Records.write_task
    corndogs.Filestore.Records.capture_task corndogs.Filestore.Records.put_task
    corndogs.Filestore.Records.erase_task corndogs.Filestore.Records.capture_erase
    corndogs.Filestore.Records.delete_task corndogs.Filestore.Records.put_payload
    corndogs.Filestore.Records.load_payload corndogs.Filestore.BoltStore.submitted_task
    corndogs.Filestore.BoltStore.submit_task corndogs.Filestore.BoltStore.claimed
    corndogs.Filestore.BoltStore.claim_task corndogs.Filestore.BoltStore.head_value
    corndogs.Filestore.BoltStore.get_next_task corndogs.Filestore.Requests.perform
    corndogs.Filestore.Replication.changes_tasks corndogs.Filestore.Replication.changes_counts
    corndogs.Filestore.Replication.batch_keeps_counts corndogs.Filestore.Replication.write_capturing
    corndogs.Filestore.Replication.Follower.lead corndogs.Filestore.Order.encode_priority_desc
    corndogs.Filestore.Order.encode_time_asc corndogs.Filestore.Order.task_prefix
    corndogs.Filestore.Order.encode_task_key corndogs.Filestore.Order.task_deadline
    corndogs.Filestore.Order.apply_get_next corndogs.Examples.Buckets.insert
    corndogs.Examples.Buckets.sorted corndogs.Examples.Buckets.without
    corndogs.Examples.Buckets.accepted corndogs.Examples.Buckets.put_entry
    corndogs.Examples.Codec.text corndogs.Examples.Codec.split corndogs.Examples.Codec.read_text
    corndogs.Examples.Codec.write_task corndogs.Examples.Codec.read_task_end
    corndogs.Examples.Codec.read_task corndogs.Filestore.Order.encode_deadline_key
    corndogs.Filestore.Replication.put_repl_position corndogs.Bytes.less corndogs.Bytes.has_prefix
deletes = refl

commit_group-refused_example :
    (commit_group (update_task long_update 9 ∷ []) one_task ≡ (
      err put_refused ∷ [],
      record one_task {
        db = (delete_task urgent_task (begin one_task false)).1.db;
        audit = (delete_task urgent_task (begin one_task false)).1.audit;
      },
    ))
    × (update_db (update_task long_update 9) one_task ≡ (
      err put_refused,
      record one_task { audit = (delete_task urgent_task (begin one_task false)).1.audit },
    ))
commit_group-refused_example =
    commit_group-refused long_update 9 one_task (begin one_task false)
      (delete_task urgent_task (begin one_task false)).1 urgent_task loads refl refl deletes
      long_key
