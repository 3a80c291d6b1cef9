-- ===== src/Filestore/Lookups.antt =====
-- The lookups of guards.go: LookupSubmission and GetGuardedTask.
pub mod Once
use corndogs.Prelude.{ℕ, not, ◌&&◌, Option, none, some, if◌then◌else◌, []}
use corndogs.Bytes.{Bytes, equal}
use corndogs.Filestore.Api.{SubmissionRecord, SubmissionReceipt, GuardedTask, submission_receipt}
use corndogs.Filestore.Bolt.{Env}
use corndogs.Filestore.Tx.{Exec, pure, ◌>>=◌}
use corndogs.Filestore.Guards.{load_submission, current_view}

-- api.LookupSubmissionResponse
pub record LookupSubmissionResponse : Type 0 where
  pub receipt : Option SubmissionReceipt
  pub task : Option GuardedTask

module _ ⦃e : Env⦄ where
  abbrev pub seen_with : SubmissionRecord → Option GuardedTask → LookupSubmissionResponse
  seen_with rec v = record { receipt = some (submission_receipt rec); task = v }

  abbrev pub submission_seen : Option SubmissionRecord → Exec LookupSubmissionResponse
  submission_seen none = pure (record { receipt = none; task = none })
  submission_seen (some rec) = do v ← current_view rec.task_uuid; pure (seen_with rec v)

  unfoldable pub lookup_submission : Bytes → Bytes → ℕ → Exec LookupSubmissionResponse
  lookup_submission queue key now = do rec ← load_submission queue key now; submission_seen rec

  abbrev pub in_queue : Bytes → Option GuardedTask → Option GuardedTask
  in_queue queue none = none
  in_queue queue (some view) =
      if not (equal queue []) && not (equal view.task.queue queue) then none else some view

  unfoldable pub get_guarded_task : Bytes → Bytes → Exec (Option GuardedTask)
  get_guarded_task id queue = do view ← current_view id; pure (in_queue queue view)
