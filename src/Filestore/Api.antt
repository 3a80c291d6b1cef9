-- ===== src/Filestore/Api.antt =====
-- The requests and replies of the store's operations (clients/corndogs/types.gen.go), the receipts of
-- corndogs/server/store/filestore/guards.go, and the conversions of convert.go.
use corndogs.Prelude.{ℕ, Bool, true, false, Option}
use corndogs.Bytes.{Bytes}
use corndogs.Filestore.Task.{Task, ArchivedTask}

-- api.Task
pub record ApiTask : Type 0 where
  pub uuid : Bytes
  pub queue : Bytes
  pub current_state : Bytes
  pub auto_target_state : Bytes
  pub submit_time : ℕ
  pub update_time : ℕ
  pub timeout : ℕ
  pub priority : ℕ

pub record TaskDelivery : Type 0 where
  pub task : ApiTask
  pub payload : Bytes

pub record GuardedTask : Type 0 where
  pub task : ApiTask
  pub guarded : Bool
  pub revision : ℕ
  pub terminal : Bool

pub record SubmitTaskRequest : Type 0 where
  pub queue : Bytes
  pub current_state : Bytes
  pub auto_target_state : Bytes
  pub timeout : ℕ
  pub payload : Bytes
  pub priority : ℕ

-- The fields that the file store reads. An absent payload or priority is `none`.
pub record UpdateTaskRequest : Type 0 where
  pub uuid : Bytes
  pub auto_target_state : Bytes
  pub timeout : ℕ
  pub new_state : Bytes
  pub payload : Option Bytes
  pub priority : Option ℕ

pub record SubmitKeyedTaskRequest : Type 0 where
  pub submission_key : Bytes
  pub guarded : Bool
  pub queue : Bytes
  pub current_state : Bytes
  pub auto_target_state : Bytes
  pub timeout : ℕ
  pub payload : Bytes
  pub priority : ℕ

pub record UpdateGuardedTaskRequest : Type 0 where
  pub operation_id : Bytes
  pub uuid : Bytes
  pub queue : Bytes
  pub expected_revision : ℕ
  pub expected_state : Option Bytes
  pub new_state : Bytes
  pub auto_target_state : Bytes
  pub timeout : ℕ
  pub payload : Option Bytes
  pub priority : Option ℕ

pub record CompleteGuardedTaskRequest : Type 0 where
  pub operation_id : Bytes
  pub uuid : Bytes
  pub queue : Bytes
  pub expected_revision : ℕ
  pub expected_state : Option Bytes

pub record SubmissionReceipt : Type 0 where
  pub queue : Bytes
  pub submission_key : Bytes
  pub task_uuid : Bytes
  pub accepted_at : ℕ
  pub expires_at : ℕ
  pub guarded : Bool

pub record SubmitKeyedTaskResponse : Type 0 where
  pub receipt : SubmissionReceipt
  pub replayed : Bool
  pub task : Option GuardedTask

-- store.ReceiptOptions: the digest of the request and the retention in nanoseconds
pub record ReceiptOptions : Type 0 where
  pub digest : Bytes
  pub retention : ℕ

-- The operations that leave receipts: OpClaim, OpUpdate, OpComplete and OpCancel of guards.go.
pub data Op : Type 0 where
  claim update complete cancel : Op

pub record SubmissionRecord : Type 0 where
  pub queue : Bytes
  pub key : Bytes
  pub digest : Bytes
  pub task_uuid : Bytes
  pub accepted_at : ℕ
  pub expires_at : ℕ
  pub guarded : Bool

pub record ResultState : Type 0 where
  pub task : Task
  pub terminal : Bool

-- Every record that the store writes has a result.
pub record OperationRecord : Type 0 where
  pub operation_id : Bytes
  pub op : Op
  pub digest : Bytes
  pub task_uuid : Bytes
  pub queue : Bytes
  pub at : ℕ
  pub expires_at : ℕ
  pub result : ResultState

abbrev pub to_api_task : Task → ApiTask
to_api_task t = record {
  uuid = t.uuid;
  queue = t.queue;
  current_state = t.current_state;
  auto_target_state = t.auto_target_state;
  submit_time = t.submit_time;
  update_time = t.update_time;
  timeout = t.timeout;
  priority = t.priority;
}

abbrev pub to_api_delivery : Task → Bytes → TaskDelivery
to_api_delivery t payload = record { task = to_api_task t; payload = payload }

abbrev pub archived_to_api_task : ArchivedTask → ApiTask
archived_to_api_task a = record {
  uuid = a.uuid;
  queue = a.queue;
  current_state = a.current_state;
  auto_target_state = a.auto_target_state;
  submit_time = a.submit_time;
  update_time = a.update_time;
  timeout = 0;
  priority = 0;
}

abbrev pub to_guarded_task : Task → GuardedTask
to_guarded_task t = record {
  task = to_api_task t;
  guarded = t.guarded;
  revision = t.revision;
  terminal = false;
}

abbrev pub archived_to_guarded_task : ArchivedTask → GuardedTask
archived_to_guarded_task a = record {
  task = archived_to_api_task a;
  guarded = a.guarded;
  revision = a.revision;
  terminal = true;
}

-- (*resultState).view
abbrev pub view : ResultState → GuardedTask
view r = record (to_guarded_task r.task) { terminal = r.terminal }

-- (*submissionRecord).receipt
abbrev pub submission_receipt : SubmissionRecord → SubmissionReceipt
submission_receipt r = record {
  queue = r.queue;
  submission_key = r.key;
  task_uuid = r.task_uuid;
  accepted_at = r.accepted_at;
  expires_at = r.expires_at;
  guarded = r.guarded;
}
