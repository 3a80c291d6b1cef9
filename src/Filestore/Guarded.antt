-- ===== src/Filestore/Guarded.antt =====
-- ClaimGuardedTask, UpdateGuardedTask and FinishGuardedTask of
-- corndogs/server/store/filestore/guards.go inside their write transaction.
use corndogs.Prelude.{ℕ, Bool, true, false, not, List, Option, none, some, if◌then◌else◌, ◌==◌}
use corndogs.Bytes.{Bytes}
use corndogs.Filestore.Task.{Task, ArchivedTask, add64}
use corndogs.Filestore.Order.{Overrides}
use corndogs.Filestore.Api.{
  GuardedTask, UpdateGuardedTaskRequest, CompleteGuardedTaskRequest, ReceiptOptions, Op,
  OperationRecord, to_guarded_task, archived_to_guarded_task, view,
}
use corndogs.Filestore.Bolt.{Env}
use corndogs.Filestore.Tx.{
  Exec, pure, raise, ◌>>=◌, ◌>>◌, bucket_tasks, bucket_guarded, claim_superseded, AuditOp,
}
use corndogs.Filestore.Records.{put_task, delete_task, load_payload, load_by_uuid}
use corndogs.Filestore.BoltStore.{best_in, claimed, put_new_payload, archive_task, event, or_kept}
use corndogs.Filestore.Guards.{
  replay_operation, put_operation, check_guard, terminal_state, audit_op,
}

-- GuardedDelivery and the replies, with the `replayed` flag
pub record Reply : Type 0 where
  pub task : GuardedTask
  pub replayed : Bool

pub record ClaimReply : Type 0 where
  pub delivery : Option (GuardedTask × Bytes)
  pub replayed : Bool

-- The receipt of a guarded operation.
abbrev pub operation_record : Op → Bytes → ReceiptOptions → ℕ → Task → Bool → OperationRecord
operation_record op id ro now t terminal = record {
  operation_id = id;
  op = op;
  digest = ro.digest;
  task_uuid = t.uuid;
  queue = t.queue;
  at = now;
  expires_at = add64 now ro.retention;
  result = record { task = t; terminal = terminal };
}

module _ ⦃e : Env⦄ where
  unfoldable pub claim_fresh :
      Bytes → Bytes → Overrides → ReceiptOptions → ℕ → Option Task → Exec ClaimReply
  claim_fresh id state req ro now none = pure (record { delivery = none; replayed = false })
  claim_fresh id state req ro now (some best) = do
    payload ← load_payload best.uuid
    delete_task best
    let t = claimed best req now
    put_task t
    put_operation (operation_record Op.claim id ro now t false)
    event AuditOp.claim t state 0
    pure (record { delivery = some (to_guarded_task t, payload); replayed = false })

  -- The claim ran before: it is answered again only while it still holds the task.
  abbrev pub claim_again : OperationRecord → Option Task → Exec ClaimReply
  claim_again rec none = raise claim_superseded
  claim_again rec (some t) =
      if not (t.revision == rec.result.task.revision) then raise claim_superseded else do
        payload ← load_payload t.uuid
        pure (record { delivery = some (to_guarded_task t, payload); replayed = true })

  abbrev pub claim_answer :
      Bytes
      → List Bytes
      → Bytes
      → Overrides
      → ReceiptOptions
      → ℕ
      → Option OperationRecord
      → Exec ClaimReply
  claim_answer id queues state req ro now (some rec) = do
    t ← load_by_uuid rec.task_uuid
    claim_again rec t
  claim_answer id queues state req ro now none = do
    best ← best_in bucket_tasks state none queues
    best' ← best_in bucket_guarded state best queues
    claim_fresh id state req ro now best'

  unfoldable pub claim_guarded_task :
      Bytes → List Bytes → Bytes → Overrides → ReceiptOptions → ℕ → Exec ClaimReply
  claim_guarded_task id queues state req ro now = do
    rec ← replay_operation id Op.claim ro.digest now
    claim_answer id queues state req ro now rec

  unfoldable pub guarded_update : Task → UpdateGuardedTaskRequest → ℕ → Task
  guarded_update t req now = record t {
    current_state = req.new_state;
    auto_target_state = req.auto_target_state;
    timeout = req.timeout;
    priority = or_kept req.priority t.priority;
    update_time = now;
    revision = add64 t.revision 1;
  }

  abbrev pub update_answer :
      UpdateGuardedTaskRequest → ReceiptOptions → ℕ → Option OperationRecord → Exec Reply
  update_answer req ro now (some rec) = pure (record { task = view rec.result; replayed = true })
  update_answer req ro now none = do
    t ← check_guard req.uuid req.queue req.expected_revision req.expected_state
    delete_task t
    put_new_payload t.uuid req.payload
    let t' = guarded_update t req now
    put_task t'
    put_operation (operation_record Op.update req.operation_id ro now t' false)
    event AuditOp.update t' t.current_state t'.priority
    pure (record { task = to_guarded_task t'; replayed = false })

  unfoldable pub update_guarded_task : UpdateGuardedTaskRequest → ReceiptOptions → ℕ → Exec Reply
  update_guarded_task req ro now = do
    rec ← replay_operation req.operation_id Op.update ro.digest now
    update_answer req ro now rec

  -- The task that the receipt of a finishing operation holds.
  abbrev pub result_task : ArchivedTask → Task
  result_task a = record {
    uuid = a.uuid;
    queue = a.queue;
    current_state = a.current_state;
    auto_target_state = a.auto_target_state;
    submit_time = a.submit_time;
    update_time = a.update_time;
    timeout = 0;
    priority = 0;
    revision = a.revision;
    guarded = a.guarded;
  }

  abbrev pub finish_answer :
      CompleteGuardedTaskRequest → Op → ReceiptOptions → ℕ → ℕ → Option OperationRecord → Exec Reply
  finish_answer req op ro now archived_at (some rec) =
      pure (record { task = view rec.result; replayed = true })
  finish_answer req op ro now archived_at none = do
    t ← check_guard req.uuid req.queue req.expected_revision req.expected_state
    a ← archive_task t (terminal_state op) (audit_op op) archived_at
    put_operation (operation_record op req.operation_id ro now (result_task a) true)
    pure (record { task = archived_to_guarded_task a; replayed = false })

  -- `archived_at` is the second reading of the clock, in archiveTask.
  unfoldable pub finish_guarded_task :
      CompleteGuardedTaskRequest → Op → ReceiptOptions → ℕ → ℕ → Exec Reply
  finish_guarded_task req op ro now archived_at = do
    rec ← replay_operation req.operation_id op ro.digest now
    finish_answer req op ro now archived_at rec
