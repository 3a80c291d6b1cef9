-- ===== src/Filestore/BoltStore.antt =====
-- The operations of corndogs/server/store/filestore/boltstore.go inside their write transaction. A clock
-- reading (`nowNano`) and a fresh uuid are arguments.
pub mod Next
use corndogs.Prelude.{ℕ, false, List, [], ◌∷◌, Option, none, some, if◌then◌else◌}
use corndogs.Bytes.{Bytes}
use corndogs.Filestore.Task.{Task, ArchivedTask, to_archived, add64}
use corndogs.Filestore.Order.{Overrides, task_prefix, apply_get_next, better_candidate}
use corndogs.Filestore.Api.{
  ApiTask, TaskDelivery, SubmitTaskRequest, UpdateTaskRequest, to_api_task, to_api_delivery,
  archived_to_api_task,
}
use corndogs.Filestore.Bolt.{Env, seek, head_in}
use corndogs.Filestore.Tx.{
  Exec, Db, pure, raise, gets, lift_option, record_audit, ◌>>=◌, ◌>>◌, bucket_tasks,
  bucket_archived, bad_record, task_guard_required, AuditOp,
}
use corndogs.Filestore.Records.{
  put_bytes, put_task, delete_task, put_payload, delete_payload, load_payload, load_by_uuid,
}

module _ ⦃e : Env⦄ where
  unfoldable pub submitted_task : Bytes → ℕ → SubmitTaskRequest → Task
  submitted_task id now req = record {
    uuid = id;
    queue = req.queue;
    current_state = req.current_state;
    auto_target_state = req.auto_target_state;
    submit_time = now;
    update_time = now;
    timeout = req.timeout;
    priority = req.priority;
    revision = 1;
    guarded = false;
  }

  abbrev pub submit_event : Task → Exec (Unit {0})
  submit_event t = record_audit (record {
    op = AuditOp.submit;
    uuid = t.uuid;
    queue = t.queue;
    from_state = [];
    to_state = t.current_state;
    priority = t.priority;
  })

  -- SubmitTask. The audit event follows the transaction, which has succeeded then.
  unfoldable pub submit_task : Bytes → ℕ → SubmitTaskRequest → Exec ApiTask
  unfolding submitted_task
  submit_task id now req = do
    let t = submitted_task id now req
    put_payload t.uuid req.payload
    put_task t
    submit_event t
    pure (to_api_task t)

  abbrev pub event : AuditOp → Task → Bytes → ℕ → Exec (Unit {0})
  event op t from priority = record_audit (record {
    op = op;
    uuid = t.uuid;
    queue = t.queue;
    from_state = from;
    to_state = t.current_state;
    priority = priority;
  })

  -- The task as a claim leaves it: `applyGetNext` and `t.Revision++`.
  unfoldable pub claimed : Task → Overrides → ℕ → Task
  claimed t req now = record (apply_get_next t req now) { revision = add64 t.revision 1 }

  -- The claim of one task, which GetNextTask and GetNextTaskGroup have in common.
  unfoldable pub claim_task : Task → Bytes → Overrides → ℕ → Exec (Option TaskDelivery)
  claim_task t state req now = do
    payload ← load_payload t.uuid
    delete_task t
    let t' = claimed t req now
    put_task t'
    event AuditOp.claim t' state 0
    pure (some (to_api_delivery t' payload))

  -- The value under the first key with the prefix of the queue and state.
  unfoldable pub head_value : Bytes → Bytes → Bytes → Db → Option Bytes
  head_value bucket queue state db =
      head_in (task_prefix queue state) (seek (task_prefix queue state) (e.entries (db bucket)))

  abbrev pub claim_value : Bytes → Overrides → ℕ → Option Bytes → Exec (Option TaskDelivery)
  claim_value state req now none = pure none
  claim_value state req now (some v) = do
    t ← lift_option bad_record (e.task_json.unmarshal v)
    claim_task t state req now

  unfoldable pub get_next_task : Bytes → Bytes → Overrides → ℕ → Exec (Option TaskDelivery)
  unfolding head_value
  get_next_task queue state req now = do
    v ← gets (head_value bucket_tasks queue state)
    claim_value state req now v

  -- `best == nil || betterCandidate(&t, best)`
  unfoldable pub better_of : Option Task → Task → Option Task
  better_of none t = some t
  better_of (some best) t = if better_candidate t best then some t else some best

  abbrev pub consider : Option Task → Option Bytes → Exec (Option Task)
  consider best none = pure best
  consider best (some v) = do
    t ← lift_option bad_record (e.task_json.unmarshal v)
    pure (better_of best t)

  unfoldable pub best_in : Bytes → Bytes → Option Task → List Bytes → Exec (Option Task)
  best_in bucket state best [] = pure best
  best_in bucket state best (queue ∷ queues) = do
    v ← gets (head_value bucket queue state)
    best' ← consider best v
    best_in bucket state best' queues

  abbrev pub claim_best : Bytes → Overrides → ℕ → Option Task → Exec (Option TaskDelivery)
  claim_best state req now none = pure none
  claim_best state req now (some t) = claim_task t state req now

  unfoldable pub get_next_task_group :
      List Bytes → Bytes → Overrides → ℕ → Exec (Option TaskDelivery)
  get_next_task_group queues state req now = do
    best ← best_in bucket_tasks state none queues
    claim_best state req now best

  abbrev pub or_kept {ℓ} : {A : Type ℓ} → Option A → A → A
  or_kept none a = a
  or_kept (some b) a = b

  -- The task as an update leaves it. An absent priority keeps the stored one.
  unfoldable pub updated : Task → UpdateTaskRequest → ℕ → Task
  updated t req now = record t {
    current_state = req.new_state;
    auto_target_state = req.auto_target_state;
    timeout = req.timeout;
    priority = or_kept req.priority t.priority;
    update_time = now;
    revision = add64 t.revision 1;
  }

  unfoldable pub put_new_payload : Bytes → Option Bytes → Exec (Unit {0})
  put_new_payload id none = pure tt
  put_new_payload id (some payload) = put_payload id payload

  abbrev pub update_found : UpdateTaskRequest → ℕ → Option Task → Exec (Option ApiTask)
  update_found req now none = pure none
  update_found req now (some t) = if t.guarded then raise task_guard_required else do
    delete_task t
    put_new_payload t.uuid req.payload
    let t' = updated t req now
    put_task t'
    event AuditOp.update t' t.current_state t'.priority
    pure (some (to_api_task t'))

  unfoldable pub update_task : UpdateTaskRequest → ℕ → Exec (Option ApiTask)
  update_task req now = do t ← load_by_uuid req.uuid; update_found req now t

  -- The archive record of a finished task.
  unfoldable pub finished : Task → Bytes → ℕ → ArchivedTask
  finished t terminal now = record (to_archived t) {
    current_state = terminal;
    auto_target_state = terminal;
    update_time = now;
  }

  abbrev pub archive_event : AuditOp → ArchivedTask → Bytes → Exec (Unit {0})
  archive_event op a from = record_audit (record {
    op = op;
    uuid = a.uuid;
    queue = a.queue;
    from_state = from;
    to_state = a.current_state;
    priority = 0;
  })

  unfoldable pub archive_task : Task → Bytes → AuditOp → ℕ → Exec ArchivedTask
  archive_task t terminal op now = do
    let a = finished t terminal now
    put_bytes bucket_archived a.uuid (e.archived_json.marshal a)
    delete_task t
    delete_payload t.uuid
    archive_event op a t.current_state
    pure a

  abbrev pub archive_found : Bytes → AuditOp → ℕ → Option Task → Exec (Option ApiTask)
  archive_found terminal op now none = pure none
  archive_found terminal op now (some t) =
      if t.guarded
      then raise task_guard_required
      else do a ← archive_task t terminal op now; pure (some (archived_to_api_task a))

  -- archiveAndDelete, which CompleteTask and CancelTask call
  unfoldable pub archive_and_delete : Bytes → Bytes → AuditOp → ℕ → Exec (Option ApiTask)
  archive_and_delete id terminal op now = do t ← load_by_uuid id; archive_found terminal op now t
