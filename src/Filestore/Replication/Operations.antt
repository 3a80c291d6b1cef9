-- ===== src/Filestore/Replication/Operations.antt =====
-- Every write operation of the store captures all that it writes.
use corndogs.Prelude.{ℕ, List, [], ◌∷◌, Option, none, some}
use corndogs.Bytes.{Bytes}
use corndogs.Filestore.Task.{Task}
use corndogs.Filestore.Order.{Overrides}
use corndogs.Filestore.Api.{SubmitTaskRequest, UpdateTaskRequest}
use corndogs.Filestore.Bolt.{Env}
use corndogs.Filestore.Tx.{AuditOp}
use corndogs.Filestore.Records.{put_payload, delete_payload, load_payload, load_by_uuid, decoded}
use corndogs.Filestore.BoltStore.{
  submit_task, get_next_task, get_next_task_group, update_task, archive_and_delete, claim_task,
  claim_value, best_in, consider, claim_best, put_new_payload, update_found, archive_task,
  archive_found,
}
use corndogs.Filestore.Replication.Captured.{Replays, replays_rules}
use corndogs.Filestore.Replication.Tasks.{Replays-put_task, Replays-delete_task}

module _ ⦃e : Env⦄ where
  pub Replays-put_payload : (id payload : Bytes) → Replays (put_payload id payload)
  unfolding put_payload
  Replays-put_payload id payload = search replays_rules

  pub Replays-delete_payload : (id : Bytes) → Replays (delete_payload id)
  unfolding delete_payload
  Replays-delete_payload id = search replays_rules

  pub Replays-load_payload : (id : Bytes) → Replays (load_payload id)
  unfolding load_payload
  Replays-load_payload id = search replays_rules

pub ruleset record_rules = (
  replays_rules, Replays-put_task, Replays-delete_task, Replays-put_payload, Replays-delete_payload,
  Replays-load_payload,
)

module _ ⦃e : Env⦄ where
  pub Replays-submit_task :
      (id : Bytes) (now : ℕ) (req : SubmitTaskRequest) → Replays (submit_task id now req)
  unfolding submit_task
  Replays-submit_task id now req = search record_rules

  Replays-claim_task :
      (t : Task) (state : Bytes) (req : Overrides) (now : ℕ) → Replays (claim_task t state req now)
  unfolding claim_task
  Replays-claim_task t state req now = search record_rules depth 9

  Replays-claim_value :
      (state : Bytes) (req : Overrides) (now : ℕ) (o : Option Bytes)
      → Replays (claim_value state req now o)
  Replays-claim_value state req now none = search record_rules
  Replays-claim_value state req now (some v) = search (record_rules, Replays-claim_task)

  pub Replays-get_next_task :
      (queue state : Bytes) (req : Overrides) (now : ℕ)
      → Replays (get_next_task queue state req now)
  unfolding get_next_task
  Replays-get_next_task queue state req now = search (record_rules, Replays-claim_value)

  Replays-consider : (best : Option Task) (o : Option Bytes) → Replays (consider best o)
  Replays-consider best none = search record_rules
  Replays-consider best (some v) = search record_rules

  pub Replays-best_in :
      (bucket state : Bytes) (best : Option Task) (queues : List Bytes)
      → Replays (best_in bucket state best queues)
  unfolding best_in
  Replays-best_in bucket state best [] = search record_rules
  Replays-best_in bucket state best (queue ∷ queues) =
      search
        (record_rules, Replays-consider, λ (b : Option Task). Replays-best_in bucket state b queues)

  Replays-claim_best :
      (state : Bytes) (req : Overrides) (now : ℕ) (o : Option Task)
      → Replays (claim_best state req now o)
  Replays-claim_best state req now none = search record_rules
  Replays-claim_best state req now (some t) = search Replays-claim_task

  pub Replays-get_next_task_group :
      (queues : List Bytes) (state : Bytes) (req : Overrides) (now : ℕ)
      → Replays (get_next_task_group queues state req now)
  unfolding get_next_task_group
  Replays-get_next_task_group queues state req now =
      search (record_rules, Replays-best_in, Replays-claim_best)

  Replays-decoded : (o : Option Bytes) → Replays (decoded o)
  Replays-decoded none = search record_rules
  Replays-decoded (some v) = search record_rules

  pub Replays-load_by_uuid : (id : Bytes) → Replays (load_by_uuid id)
  Replays-load_by_uuid id = unfold load_by_uuid in search (record_rules, Replays-decoded)

  pub Replays-put_new_payload : (id : Bytes) (o : Option Bytes) → Replays (put_new_payload id o)
  unfolding put_new_payload
  Replays-put_new_payload id none = search record_rules
  Replays-put_new_payload id (some payload) = search record_rules

  Replays-update_found :
      (req : UpdateTaskRequest) (now : ℕ) (o : Option Task) → Replays (update_found req now o)
  Replays-update_found req now none = search record_rules
  Replays-update_found req now (some t) = search (record_rules, Replays-put_new_payload) depth 9

  pub Replays-update_task : (req : UpdateTaskRequest) (now : ℕ) → Replays (update_task req now)
  unfolding update_task
  Replays-update_task req now = search (record_rules, Replays-load_by_uuid, Replays-update_found)

  pub Replays-archive_task :
      (t : Task) (terminal : Bytes) (op : AuditOp) (now : ℕ)
      → Replays (archive_task t terminal op now)
  unfolding archive_task
  Replays-archive_task t terminal op now = search record_rules depth 9

  Replays-archive_found :
      (terminal : Bytes) (op : AuditOp) (now : ℕ) (o : Option Task)
      → Replays (archive_found terminal op now o)
  Replays-archive_found terminal op now none = search record_rules
  Replays-archive_found terminal op now (some t) = search (record_rules, Replays-archive_task)

  pub Replays-archive_and_delete :
      (id terminal : Bytes) (op : AuditOp) (now : ℕ)
      → Replays (archive_and_delete id terminal op now)
  unfolding archive_and_delete
  Replays-archive_and_delete id terminal op now =
      search (record_rules, Replays-load_by_uuid, Replays-archive_found)
