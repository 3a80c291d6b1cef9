-- ===== src/Filestore/Requests.antt =====
-- The writes that corndogs/server/clustering/clustered_store.go and clustered_guards.go propose to the
-- leader: each runs one operation of the local store. The purge of expired receipts, which
-- clustered_guards.go proposes too, is in Filestore.Purge and is no Request.
use corndogs.Prelude.{ℕ, List}
use corndogs.Bytes.{Bytes}
use corndogs.Filestore.Order.{Overrides}
use corndogs.Filestore.Api.{
  SubmitTaskRequest, UpdateTaskRequest, SubmitKeyedTaskRequest, UpdateGuardedTaskRequest,
  CompleteGuardedTaskRequest, ReceiptOptions, Op,
}
use corndogs.Filestore.Bolt.{Env}
use corndogs.Filestore.Tx.{Exec, AuditOp, pure, ◌>>=◌}
use corndogs.Filestore.BoltStore.{
  submit_task, get_next_task, get_next_task_group, update_task, archive_and_delete,
}
use corndogs.Filestore.Timeouts.{clean_up_timed_out}
use corndogs.Filestore.Guards.{submit_keyed_task, terminal_state}
use corndogs.Filestore.Guarded.{claim_guarded_task, update_guarded_task, finish_guarded_task}

-- A request with what the server reads while it runs: a fresh uuid, the clock.
pub data Request : Type 0 where
  submit : Bytes → ℕ → SubmitTaskRequest → Request
  claim : Bytes → Bytes → Overrides → ℕ → Request
  claim_group : List Bytes → Bytes → Overrides → ℕ → Request
  update : UpdateTaskRequest → ℕ → Request
  complete : Bytes → ℕ → Request
  cancel : Bytes → ℕ → Request
  clean_up : Bytes → ℕ → (ℕ → ℕ) → Request
  submit_keyed : Bytes → ℕ → SubmitKeyedTaskRequest → ReceiptOptions → Request
  claim_guarded : Bytes → List Bytes → Bytes → Overrides → ReceiptOptions → ℕ → Request
  update_guarded : UpdateGuardedTaskRequest → ReceiptOptions → ℕ → Request
  finish_guarded : CompleteGuardedTaskRequest → Op → ReceiptOptions → ℕ → ℕ → Request

module _ ⦃e : Env⦄ where
  -- The operation runs; its reply does not matter to the data.
  abbrev pub silent {ℓ} : {A : Type ℓ} → Exec A → Exec (Unit {0})
  silent m = m >>= λ a. pure tt

  unfoldable pub perform : Request → Exec (Unit {0})
  perform (submit id now req) = silent (submit_task id now req)
  perform (claim queue state req now) = silent (get_next_task queue state req now)
  perform (claim_group queues state req now) = silent (get_next_task_group queues state req now)
  perform (update req now) = silent (update_task req now)
  perform (complete id now) =
      silent (archive_and_delete id (terminal_state Op.complete) AuditOp.complete now)
  perform (cancel id now) =
      silent (archive_and_delete id (terminal_state Op.cancel) AuditOp.cancel now)
  perform (clean_up queue at_time clock) = silent (clean_up_timed_out queue at_time clock)
  perform (submit_keyed id now req ro) = silent (submit_keyed_task id now req ro)
  perform (claim_guarded id queues state req ro now) =
      silent (claim_guarded_task id queues state req ro now)
  perform (update_guarded req ro now) = silent (update_guarded_task req ro now)
  perform (finish_guarded req op ro now archived_at) =
      silent (finish_guarded_task req op ro now archived_at)
