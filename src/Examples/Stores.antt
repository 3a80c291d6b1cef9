-- ===== src/Examples/Stores.antt =====
-- One store on the concrete bucket and codec, and the theorems about the store at it.
use corndogs.Prelude.{ℕ, ◌≡◌, refl, true, false, List, [], ◌∷◌, All, arith}
use corndogs.Bytes.{Bytes, equal}
use corndogs.Filestore.Bolt.{Env, Entries}
use corndogs.Filestore.Task.{Task}
use corndogs.Filestore.Order.{timed_out, encode_deadline_key, Overrides, encode_task_key}
use corndogs.Filestore.Tx.{Tx, set_bucket, bucket_tasks}
use corndogs.Filestore.BoltStore.{get_next_task, claim_task}
use corndogs.Filestore.BoltStore.Next.{
  HoldsTasks, BestFor, empty-HoldsTasks, put-HoldsTasks, get_next_task-BestFor,
}
use corndogs.Filestore.Timeouts.Sweep.{past-timed_out}
use corndogs.Examples.Keys.{queue_name, state_name, urgent_task, slow_task}
use corndogs.Filestore.Api.{SubmitTaskRequest}
use corndogs.Filestore.Requests.{Request, submit, claim}
use corndogs.Filestore.Replication.{BoltStore, MutationBatch, batch_keeps_counts}
use corndogs.Filestore.Replication.Follower.{SameData, lead, follow, follower_copies_leader}
use corndogs.Examples.Buckets.{list_bolt, put_entry}
use corndogs.Examples.Codec.{
  list_task_json, list_archived_json, list_submission_json, list_operation_json,
}

instance abbrev pub list_env : Env
list_env = record {
  bolt = list_bolt;
  task_json = list_task_json;
  archived_json = list_archived_json;
  submission_json = list_submission_json;
  operation_json = list_operation_json;
}

abbrev pub empty_store : BoltStore
empty_store = record { db = λ name. []; audit = []; repl_lsn = 0; published = [] }

abbrev pub small_request : SubmitTaskRequest
small_request = record {
  queue = b'q' ∷ [];
  current_state = b's' ∷ [];
  auto_target_state = b'w' ∷ [];
  timeout = 30;
  payload = 1 ∷ 2 ∷ [];
  priority = 5;
}

abbrev no_overrides : Overrides
no_overrides = record { current_state = []; auto_target_state = []; timeout = 0 }

abbrev two_requests : List (Request × ℕ)
two_requests =
    (submit (b'u' ∷ []) 100 small_request, 257)
    ∷ (claim (b'q' ∷ []) (b's' ∷ []) no_overrides 200, 257)
    ∷ []

counts_kept : All (λ b. batch_keeps_counts b ≡ true) (lead two_requests empty_store).published
unfolding corndogs.Bytes.equal corndogs.Bytes.be_onto corndogs.Bytes.be corndogs.Bytes.of_be
    corndogs.Filestore.Bolt.lookup corndogs.Filestore.Bolt.seek corndogs.Filestore.Bolt.head_in
    corndogs.Filestore.Tx.set_bucket corndogs.Filestore.Tx.pure corndogs.Filestore.Tx.raise
    corndogs.Filestore.Tx.◌>>=◌ corndogs.Filestore.Tx.gets corndogs.Filestore.Tx.lift_option
    corndogs.Filestore.Tx.when corndogs.Filestore.Tx.tx_put corndogs.Filestore.Tx.tx_delete
    corndogs.Filestore.Tx.capture corndogs.Filestore.Tx.cap_put corndogs.Filestore.Tx.cap_del
    corndogs.Filestore.Tx.record_audit corndogs.Filestore.Records.count_key
    corndogs.Filestore.Records.count_value corndogs.Filestore.Records.put_bytes
    corndogs.Filestore.Records.delete_bytes corndogs.Filestore.Records.store_count
    corndogs.Filestore.Records.adjust_count corndogs.Filestore.Records.write_task
    corndogs.Filestore.Records.capture_task corndogs.Filestore.Records.put_task
    corndogs.Filestore.Records.erase_task corndogs.Filestore.Records.capture_erase
    corndogs.Filestore.Records.delete_task corndogs.Filestore.Records.put_payload
    corndogs.Filestore.Records.load_payload corndogs.Filestore.BoltStore.submitted_task
    corndogs.Filestore.BoltStore.submit_task corndogs.Filestore.BoltStore.claimed
    corndogs.Filestore.BoltStore.claim_task corndogs.Filestore.BoltStore.head_value
    corndogs.Filestore.BoltStore.get_next_task corndogs.Filestore.Requests.perform
    corndogs.Filestore.Replication.changes_tasks corndogs.Filestore.Replication.changes_counts
    corndogs.Filestore.Replication.batch_keeps_counts corndogs.Filestore.Replication.write_capturing
    corndogs.Filestore.Replication.Follower.lead corndogs.Filestore.Order.encode_priority_desc
    corndogs.Filestore.Order.encode_time_asc corndogs.Filestore.Order.task_prefix
    corndogs.Filestore.Order.encode_task_key corndogs.Filestore.Order.task_deadline
    corndogs.Filestore.Order.apply_get_next corndogs.Examples.Buckets.insert
    corndogs.Examples.Buckets.sorted corndogs.Examples.Buckets.without
    corndogs.Examples.Buckets.accepted corndogs.Examples.Buckets.put_entry
    corndogs.Examples.Codec.text corndogs.Examples.Codec.split corndogs.Examples.Codec.read_text
    corndogs.Examples.Codec.write_task corndogs.Examples.Codec.read_task_end
    corndogs.Examples.Codec.read_task corndogs.Filestore.Order.encode_deadline_key
    corndogs.Filestore.Replication.put_repl_position corndogs.Bytes.less corndogs.Bytes.has_prefix
counts_kept = (refl, (refl, tt))

-- The two writes succeed, and each publishes a batch.
follower_copies_leader_example :
    SameData
      (lead two_requests empty_store)
      (follow (lead two_requests empty_store).published empty_store)
follower_copies_leader_example =
    follower_copies_leader two_requests empty_store empty_store refl
      (record { db = refl; lsn = refl }) counts_kept

-- A bucket with two tasks of one queue and state, which were put one after the other.
abbrev task_bucket_of_two : Entries
task_bucket_of_two =
    (encode_task_key slow_task, list_task_json.marshal slow_task)
    ∷ (encode_task_key urgent_task, list_task_json.marshal urgent_task)
    ∷ []

abbrev pub two_tasks : Tx
two_tasks = record {
  db = set_bucket (λ name. []) bucket_tasks task_bucket_of_two;
  capturing = false;
  muts = [];
  audit = [];
}

pub two_tasks-HoldsTasks : HoldsTasks (two_tasks.db bucket_tasks)
unfolding set_bucket equal put_entry encode_task_key corndogs.Bytes.be
two_tasks-HoldsTasks =
    put-HoldsTasks ((encode_task_key urgent_task, list_task_json.marshal urgent_task) ∷ [])
      task_bucket_of_two slow_task refl
      (put-HoldsTasks [] ((encode_task_key urgent_task, list_task_json.marshal urgent_task) ∷ [])
        urgent_task refl empty-HoldsTasks (omega arith) (omega arith) (refl, (refl, tt)) (refl, tt))
      (omega arith) (omega arith) (refl, (refl, tt)) (refl, tt)

get_next_task-BestFor_example :
    (best : Task) × (w : Bytes) × (get_next_task queue_name state_name no_overrides 30 two_tasks
      ≡ claim_task best state_name no_overrides 30 two_tasks)
    × BestFor bucket_tasks queue_name state_name two_tasks.db slow_task best w
unfolding corndogs.Filestore.Bolt.lookup corndogs.Examples.Buckets.sorted set_bucket equal
    corndogs.Bytes.less encode_task_key corndogs.Bytes.be
get_next_task-BestFor_example =
    get_next_task-BestFor queue_name state_name no_overrides 30 two_tasks slow_task
      (list_task_json.marshal slow_task) two_tasks-HoldsTasks (refl, (refl, tt)) (refl, tt) refl
      (omega arith) (omega arith) refl refl

past-timed_out_example : timed_out urgent_task 5 ≡ false
unfolding encode_deadline_key corndogs.Bytes.less corndogs.Bytes.be
    corndogs.Filestore.Order.decode_time_asc corndogs.Bytes.of_be
past-timed_out_example = past-timed_out slow_task urgent_task 5 refl refl
