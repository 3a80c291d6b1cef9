-- ===== src/Filestore/Guards.antt =====
-- The guarded operations of corndogs/server/store/filestore/guards.go inside their write transaction.
use corndogs.Prelude.{
  ℕ, Bool, true, false, not, ◌||◌, [], ◌∷◌, ◌++◌, Option, none, some, if◌then◌else◌, ◌==◌,
}
use corndogs.Bytes.{Bytes, equal}
use corndogs.Filestore.Task.{Task, ArchivedTask, add64, lt64}
use corndogs.Filestore.Order.{sep, encode_time_asc}
use corndogs.Filestore.Api.{
  GuardedTask, SubmitKeyedTaskRequest, SubmitKeyedTaskResponse, ReceiptOptions, Op,
  SubmissionRecord, OperationRecord, to_guarded_task, archived_to_guarded_task, submission_receipt,
}
use corndogs.Filestore.Bolt.{Env}
use corndogs.Filestore.Tx.{
  Exec, pure, raise, gets, lift_option, ◌>>=◌, ◌>>◌, bucket_archived, bucket_submissions,
  bucket_operations, bucket_receipt_expiry, bad_record, submission_key_conflict, operation_conflict,
  task_not_found, revision_conflict, AuditOp,
}
use corndogs.Filestore.Records.{put_bytes, put_task, put_payload, load_by_uuid}
use corndogs.Filestore.BoltStore.{event}

abbrev pub receipt_submission : ℕ
receipt_submission = b's'

abbrev pub receipt_operation : ℕ
receipt_operation = b'o'

unfoldable pub submission_key : Bytes → Bytes → Bytes
submission_key queue key = queue ++ (sep ∷ key)

unfoldable pub expiry_key : ℕ → ℕ → Bytes → Bytes
expiry_key expires_at kind id = encode_time_asc expires_at ++ (kind ∷ id)

-- Go's `==` on the operation names
abbrev pub same_op : Op → Op → Bool
same_op Op.claim Op.claim = true
same_op Op.update Op.update = true
same_op Op.complete Op.complete = true
same_op Op.cancel Op.cancel = true
same_op _ _ = false

abbrev completed : Bytes
completed = b'c' ∷ b'o' ∷ b'm' ∷ b'p' ∷ b'l' ∷ b'e' ∷ b't' ∷ b'e' ∷ b'd' ∷ []

abbrev canceled : Bytes
canceled = b'c' ∷ b'a' ∷ b'n' ∷ b'c' ∷ b'e' ∷ b'l' ∷ b'e' ∷ b'd' ∷ []

-- store.TerminalState
abbrev pub terminal_state : Op → Bytes
terminal_state Op.cancel = canceled
terminal_state _ = completed

abbrev pub audit_op : Op → AuditOp
audit_op Op.claim = AuditOp.claim
audit_op Op.update = AuditOp.update
audit_op Op.complete = AuditOp.complete
audit_op Op.cancel = AuditOp.cancel

-- `r.ExpiresAt <= now`: an expired receipt counts as absent
abbrev pub unexpired {ℓ} : {A : Type ℓ} → ℕ → ℕ → A → Option A
unexpired expires_at now r = if lt64 now expires_at then some r else none

module _ ⦃e : Env⦄ where
  abbrev pub decode_submission : ℕ → Option Bytes → Exec (Option SubmissionRecord)
  decode_submission now none = pure none
  decode_submission now (some v) = do
    r ← lift_option bad_record (e.submission_json.unmarshal v)
    pure (unexpired r.expires_at now r)

  unfoldable pub load_submission : Bytes → Bytes → ℕ → Exec (Option SubmissionRecord)
  load_submission queue key now = do
    v ← gets (λ db. e.get (db bucket_submissions) (submission_key queue key))
    decode_submission now v

  abbrev pub decode_operation : ℕ → Option Bytes → Exec (Option OperationRecord)
  decode_operation now none = pure none
  decode_operation now (some v) = do
    r ← lift_option bad_record (e.operation_json.unmarshal v)
    pure (unexpired r.expires_at now r)

  unfoldable pub load_operation : Bytes → ℕ → Exec (Option OperationRecord)
  load_operation id now = do
    v ← gets (λ db. e.get (db bucket_operations) id)
    decode_operation now v

  unfoldable pub put_submission : SubmissionRecord → Exec (Unit {0})
  put_submission r = do
    let key = submission_key r.queue r.key
    put_bytes bucket_submissions key (e.submission_json.marshal r)
    put_bytes bucket_receipt_expiry (expiry_key r.expires_at receipt_submission key) []

  unfoldable pub put_operation : OperationRecord → Exec (Unit {0})
  put_operation r = do
    put_bytes bucket_operations r.operation_id (e.operation_json.marshal r)
    put_bytes bucket_receipt_expiry (expiry_key r.expires_at receipt_operation r.operation_id) []

  abbrev pub decode_archive : Option Bytes → Exec (Option ArchivedTask)
  decode_archive none = pure none
  decode_archive (some v) = do
    a ← lift_option bad_record (e.archived_json.unmarshal v)
    pure (some a)

  unfoldable pub load_archived : Bytes → Exec (Option ArchivedTask)
  load_archived id = do v ← gets (λ db. e.get (db bucket_archived) id); decode_archive v

  abbrev pub archived_view : Option ArchivedTask → Option GuardedTask
  archived_view none = none
  archived_view (some a) = some (archived_to_guarded_task a)

  abbrev pub view_of : Bytes → Option Task → Exec (Option GuardedTask)
  view_of id (some t) = pure (some (to_guarded_task t))
  view_of id none = do a ← load_archived id; pure (archived_view a)

  unfoldable pub current_view : Bytes → Exec (Option GuardedTask)
  current_view id = do t ← load_by_uuid id; view_of id t

  abbrev pub keyed_task : Bytes → ℕ → SubmitKeyedTaskRequest → Task
  keyed_task id now req = record {
    uuid = id;
    queue = req.queue;
    current_state = req.current_state;
    auto_target_state = req.auto_target_state;
    submit_time = now;
    update_time = now;
    timeout = req.timeout;
    priority = req.priority;
    revision = 1;
    guarded = req.guarded;
  }

  abbrev pub keyed_record : Bytes → ℕ → SubmitKeyedTaskRequest → ReceiptOptions → SubmissionRecord
  keyed_record id now req ro = record {
    queue = req.queue;
    key = req.submission_key;
    digest = ro.digest;
    task_uuid = id;
    accepted_at = now;
    expires_at = add64 now ro.retention;
    guarded = req.guarded;
  }

  unfoldable pub accept_keyed :
      Bytes → ℕ → SubmitKeyedTaskRequest → ReceiptOptions → Exec SubmitKeyedTaskResponse
  accept_keyed id now req ro = do
    let t = keyed_task id now req
    let rec = keyed_record id now req ro
    put_payload t.uuid req.payload
    put_task t
    put_submission rec
    event AuditOp.submit t [] t.priority
    pure (record {
      receipt = submission_receipt rec;
      replayed = false;
      task = some (to_guarded_task t);
    })

  abbrev pub replay_keyed : SubmissionRecord → Option GuardedTask → SubmitKeyedTaskResponse
  replay_keyed prev v = record { receipt = submission_receipt prev; replayed = true; task = v }

  abbrev pub answer_keyed :
      Bytes
      → ℕ
      → SubmitKeyedTaskRequest
      → ReceiptOptions
      → Option SubmissionRecord
      → Exec SubmitKeyedTaskResponse
  answer_keyed id now req ro none = accept_keyed id now req ro
  answer_keyed id now req ro (some prev) =
      if not (equal prev.digest ro.digest)
      then raise submission_key_conflict
      else do v ← current_view prev.task_uuid; pure (replay_keyed prev v)

  unfoldable pub submit_keyed_task :
      Bytes → ℕ → SubmitKeyedTaskRequest → ReceiptOptions → Exec SubmitKeyedTaskResponse
  submit_keyed_task id now req ro = do
    prev ← load_submission req.queue req.submission_key now
    answer_keyed id now req ro prev

  abbrev pub check_replay : Op → Bytes → Option OperationRecord → Exec (Option OperationRecord)
  check_replay op digest none = pure none
  check_replay op digest (some r) =
      if not (same_op r.op op) || not (equal r.digest digest)
      then raise operation_conflict
      else pure (some r)

  unfoldable pub replay_operation : Bytes → Op → Bytes → ℕ → Exec (Option OperationRecord)
  replay_operation id op digest now = do r ← load_operation id now; check_replay op digest r

  -- checkGuard
  abbrev pub finished_conflict : Option ArchivedTask → Exec Task
  finished_conflict none = raise task_not_found
  finished_conflict (some a) = raise revision_conflict

  abbrev pub state_differs : Option Bytes → Task → Bool
  state_differs none t = false
  state_differs (some s) t = not (equal t.current_state s)

  abbrev pub guard_live : Bytes → Bytes → ℕ → Option Bytes → Option Task → Exec Task
  guard_live id queue revision state none = do a ← load_archived id; finished_conflict a
  guard_live id queue revision state (some t) =
      if not (equal t.queue queue)
      then raise revision_conflict
      else if not (t.revision == revision)
      then raise revision_conflict
      else if state_differs state t
      then raise revision_conflict
      else pure t

  unfoldable pub check_guard : Bytes → Bytes → ℕ → Option Bytes → Exec Task
  check_guard id queue revision state = do t ← load_by_uuid id; guard_live id queue revision state t
