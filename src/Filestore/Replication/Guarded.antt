-- ===== src/Filestore/Replication/Guarded.antt =====
-- The timeout sweep and the guarded operations capture all that they write.
use corndogs.Prelude.{ℕ, suc, List, [], ◌∷◌, Option, none, some}
use corndogs.Bytes.{Bytes}
use corndogs.Filestore.Task.{Task, ArchivedTask}
use corndogs.Filestore.Order.{Overrides}
use corndogs.Filestore.Api.{
  SubmitKeyedTaskRequest, UpdateGuardedTaskRequest, CompleteGuardedTaskRequest, ReceiptOptions, Op,
  SubmissionRecord, OperationRecord,
}
use corndogs.Filestore.Bolt.{Env}
use corndogs.Filestore.Tx.{Result, ok, err}
use corndogs.Filestore.Timeouts.{release_task, release_all, lift_result, clean_up_timed_out}
use corndogs.Filestore.Guards.{
  load_submission, decode_submission, load_operation, decode_operation, put_submission,
  put_operation, decode_archive, load_archived, view_of, current_view, accept_keyed, answer_keyed,
  submit_keyed_task, check_replay, replay_operation, finished_conflict, guard_live, check_guard,
}
use corndogs.Filestore.Guarded.{
  claim_fresh, claim_again, claim_answer, claim_guarded_task, update_answer, update_guarded_task,
  finish_answer, finish_guarded_task,
}
use corndogs.Filestore.Replication.Captured.{Replays, Replays-bind}
use corndogs.Filestore.Replication.Operations.{
  record_rules, Replays-best_in, Replays-load_by_uuid, Replays-put_new_payload,
  Replays-archive_task,
}

module _ ⦃e : Env⦄ where
  Replays-release_task : (t : Task) (now : ℕ) → Replays (release_task t now)
  unfolding release_task
  Replays-release_task t now = search record_rules

  Replays-release_all : (clock : ℕ → ℕ) (i : ℕ) (ts : List Task) → Replays (release_all clock i ts)
  unfolding release_all
  Replays-release_all clock i [] = search record_rules
  Replays-release_all clock i (t ∷ ts) =
      Replays-bind _ _ (Replays-release_task t (clock i))
        (λ a. Replays-release_all clock (suc i) ts)

  Replays-lift_result : {A : Type 0} (r : Result A) → Replays (lift_result r)
  unfolding lift_result
  Replays-lift_result (ok a) = record { at = λ base s c. c }
  Replays-lift_result (err c) = record { at = λ base s h. tt }

  pub Replays-clean_up_timed_out :
      (queue : Bytes) (at_time : ℕ) (clock : ℕ → ℕ)
      → Replays (clean_up_timed_out queue at_time clock)
  unfolding clean_up_timed_out
  Replays-clean_up_timed_out queue at_time clock =
      search (record_rules, Replays-lift_result, Replays-release_all)

  Replays-decode_submission : (now : ℕ) (o : Option Bytes) → Replays (decode_submission now o)
  Replays-decode_submission now none = search record_rules
  Replays-decode_submission now (some v) = search record_rules

  Replays-load_submission : (queue key : Bytes) (now : ℕ) → Replays (load_submission queue key now)
  unfolding load_submission
  Replays-load_submission queue key now = search (record_rules, Replays-decode_submission)

  Replays-decode_operation : (now : ℕ) (o : Option Bytes) → Replays (decode_operation now o)
  Replays-decode_operation now none = search record_rules
  Replays-decode_operation now (some v) = search record_rules

  Replays-load_operation : (id : Bytes) (now : ℕ) → Replays (load_operation id now)
  unfolding load_operation
  Replays-load_operation id now = search (record_rules, Replays-decode_operation)

  Replays-put_submission : (r : SubmissionRecord) → Replays (put_submission r)
  unfolding put_submission
  Replays-put_submission r = search record_rules

  Replays-put_operation : (r : OperationRecord) → Replays (put_operation r)
  unfolding put_operation
  Replays-put_operation r = search record_rules

  Replays-decode_archive : (o : Option Bytes) → Replays (decode_archive o)
  Replays-decode_archive none = search record_rules
  Replays-decode_archive (some v) = search record_rules

  Replays-load_archived : (id : Bytes) → Replays (load_archived id)
  unfolding load_archived
  Replays-load_archived id = search (record_rules, Replays-decode_archive)

  Replays-view_of : (id : Bytes) (o : Option Task) → Replays (view_of id o)
  Replays-view_of id none = search (record_rules, Replays-load_archived)
  Replays-view_of id (some t) = search record_rules

  Replays-current_view : (id : Bytes) → Replays (current_view id)
  unfolding current_view
  Replays-current_view id = search (record_rules, Replays-load_by_uuid, Replays-view_of)

ruleset receipt_rules = (
  record_rules, Replays-load_submission, Replays-load_operation, Replays-put_submission,
  Replays-put_operation, Replays-load_archived, Replays-current_view, Replays-load_by_uuid,
  Replays-best_in, Replays-put_new_payload, Replays-archive_task,
)

module _ ⦃e : Env⦄ where
  Replays-accept_keyed :
      (id : Bytes) (now : ℕ) (req : SubmitKeyedTaskRequest) (ro : ReceiptOptions)
      → Replays (accept_keyed id now req ro)
  unfolding accept_keyed
  Replays-accept_keyed id now req ro = search receipt_rules

  Replays-answer_keyed :
      (id : Bytes) (now : ℕ) (req : SubmitKeyedTaskRequest) (ro : ReceiptOptions)
      (o : Option SubmissionRecord)
      → Replays (answer_keyed id now req ro o)
  Replays-answer_keyed id now req ro none = search Replays-accept_keyed
  Replays-answer_keyed id now req ro (some prev) = search receipt_rules

  pub Replays-submit_keyed_task :
      (id : Bytes) (now : ℕ) (req : SubmitKeyedTaskRequest) (ro : ReceiptOptions)
      → Replays (submit_keyed_task id now req ro)
  unfolding submit_keyed_task
  Replays-submit_keyed_task id now req ro = search (receipt_rules, Replays-answer_keyed)

  Replays-check_replay :
      (op : Op) (digest : Bytes) (o : Option OperationRecord) → Replays (check_replay op digest o)
  Replays-check_replay op digest none = search record_rules
  Replays-check_replay op digest (some r) = search record_rules

  Replays-replay_operation :
      (id : Bytes) (op : Op) (digest : Bytes) (now : ℕ)
      → Replays (replay_operation id op digest now)
  unfolding replay_operation
  Replays-replay_operation id op digest now = search (receipt_rules, Replays-check_replay)

  Replays-finished_conflict : (o : Option ArchivedTask) → Replays (finished_conflict o)
  Replays-finished_conflict none = search record_rules
  Replays-finished_conflict (some a) = search record_rules

  Replays-guard_live :
      (id queue : Bytes) (revision : ℕ) (state : Option Bytes) (o : Option Task)
      → Replays (guard_live id queue revision state o)
  Replays-guard_live id queue revision state none =
      search (receipt_rules, Replays-finished_conflict)
  Replays-guard_live id queue revision state (some t) = search record_rules

  Replays-check_guard :
      (id queue : Bytes) (revision : ℕ) (state : Option Bytes)
      → Replays (check_guard id queue revision state)
  unfolding check_guard
  Replays-check_guard id queue revision state = search (receipt_rules, Replays-guard_live)

  Replays-claim_fresh :
      (id state : Bytes) (req : Overrides) (ro : ReceiptOptions) (now : ℕ) (o : Option Task)
      → Replays (claim_fresh id state req ro now o)
  unfolding claim_fresh
  Replays-claim_fresh id state req ro now none = search receipt_rules
  Replays-claim_fresh id state req ro now (some t) = search receipt_rules depth 10

  Replays-claim_again : (rec : OperationRecord) (o : Option Task) → Replays (claim_again rec o)
  Replays-claim_again rec none = search receipt_rules
  Replays-claim_again rec (some t) = search receipt_rules

  Replays-claim_answer :
      (id : Bytes) (queues : List Bytes) (state : Bytes) (req : Overrides) (ro : ReceiptOptions)
      (now : ℕ) (o : Option OperationRecord)
      → Replays (claim_answer id queues state req ro now o)
  Replays-claim_answer id queues state req ro now none = search (receipt_rules, Replays-claim_fresh)
  Replays-claim_answer id queues state req ro now (some r) =
      search (receipt_rules, Replays-claim_again)

  pub Replays-claim_guarded_task :
      (id : Bytes) (queues : List Bytes) (state : Bytes) (req : Overrides) (ro : ReceiptOptions)
      (now : ℕ)
      → Replays (claim_guarded_task id queues state req ro now)
  unfolding claim_guarded_task
  Replays-claim_guarded_task id queues state req ro now =
      search (receipt_rules, Replays-replay_operation, Replays-claim_answer)

  Replays-update_answer :
      (req : UpdateGuardedTaskRequest) (ro : ReceiptOptions) (now : ℕ) (o : Option OperationRecord)
      → Replays (update_answer req ro now o)
  Replays-update_answer req ro now none = search (receipt_rules, Replays-check_guard) depth 10
  Replays-update_answer req ro now (some r) = search receipt_rules

  pub Replays-update_guarded_task :
      (req : UpdateGuardedTaskRequest) (ro : ReceiptOptions) (now : ℕ)
      → Replays (update_guarded_task req ro now)
  unfolding update_guarded_task
  Replays-update_guarded_task req ro now =
      search (receipt_rules, Replays-replay_operation, Replays-update_answer)

  Replays-finish_answer :
      (req : CompleteGuardedTaskRequest) (op : Op) (ro : ReceiptOptions) (now archived_at : ℕ)
      (o : Option OperationRecord)
      → Replays (finish_answer req op ro now archived_at o)
  Replays-finish_answer req op ro now archived_at none =
      search (receipt_rules, Replays-check_guard) depth 10
  Replays-finish_answer req op ro now archived_at (some r) = search receipt_rules

  pub Replays-finish_guarded_task :
      (req : CompleteGuardedTaskRequest) (op : Op) (ro : ReceiptOptions) (now archived_at : ℕ)
      → Replays (finish_guarded_task req op ro now archived_at)
  unfolding finish_guarded_task
  Replays-finish_guarded_task req op ro now archived_at =
      search (receipt_rules, Replays-replay_operation, Replays-finish_answer)
