-- ===== src/Examples/Codec.antt =====
-- A codec of the stored records with the law that the store relies on: numbers and texts in a row,
-- each text behind its length.
use corndogs.Prelude.{
  ℕ, zero, suc, ◌≡◌, refl, ap, Bool, true, false, [], ◌∷◌, ◌++◌, Option, none, some, length,
}
use corndogs.Bytes.{Bytes}
use corndogs.Filestore.Task.{Task, ArchivedTask}
use corndogs.Filestore.Api.{SubmissionRecord, OperationRecord, Op}
use corndogs.Filestore.Bolt.{Json}

infixl 5 ◌>>=◌
abbrev pub ◌>>=◌ : {A B : Type 0} → Option A → (A → Option B) → Option B
none >>= f = none
some a >>= f = f a

unfoldable pub text : Bytes → Bytes → Bytes
text s rest = length s ∷ (s ++ rest)

abbrev pub snoc_first : ℕ → Option (Bytes × Bytes) → Option (Bytes × Bytes)
snoc_first x none = none
snoc_first x (some (s, rest)) = some (x ∷ s, rest)

unfoldable pub split : ℕ → Bytes → Option (Bytes × Bytes)
split zero b = some ([], b)
split (suc n) [] = none
split (suc n) (x ∷ xs) = snoc_first x (split n xs)

unfoldable pub read_text : Bytes → Option (Bytes × Bytes)
unfolding split
read_text [] = none
read_text (n ∷ rest) = split n rest

abbrev pub read_number : Bytes → Option (ℕ × Bytes)
read_number [] = none
read_number (n ∷ rest) = some (n, rest)

split_lem : (s rest : Bytes) → split (length s) (s ++ rest) ≡ some (s, rest)
unfolding split
split_lem [] rest = refl
split_lem (x ∷ xs) rest = ap (snoc_first x) (split_lem xs rest)

read_text-text : (s rest : Bytes) → read_text (text s rest) ≡ some (s, rest)
unfolding read_text text
read_text-text s rest = split_lem s rest

abbrev pub flag : Bool → ℕ
flag true = 1
flag false = 0

abbrev pub of_flag : ℕ → Bool
of_flag zero = false
of_flag (suc n) = true

of_flag-flag : (b : Bool) → of_flag (flag b) ≡ b
of_flag-flag true = refl
of_flag-flag false = refl

unfoldable pub write_task : Task → Bytes
write_task t = text t.uuid (
    text t.queue (
      text t.current_state (
        text t.auto_target_state (
          t.submit_time
          ∷ t.update_time
          ∷ t.timeout
          ∷ t.priority
          ∷ t.revision
          ∷ flag t.guarded
          ∷ []))))

unfoldable pub read_task_end : Bytes → Bytes → Bytes → Bytes → Bytes → Option Task
read_task_end u q c a (st ∷ ut ∷ to ∷ pr ∷ rv ∷ g ∷ []) = some (record {
  uuid = u;
  queue = q;
  current_state = c;
  auto_target_state = a;
  submit_time = st;
  update_time = ut;
  timeout = to;
  priority = pr;
  revision = rv;
  guarded = of_flag g;
})
read_task_end u q c a _ = none

unfoldable pub read_task : Bytes → Option Task
unfolding read_task_end
read_task b = do
  (u, b1) ← read_text b
  (q, b2) ← read_text b1
  (c, b3) ← read_text b2
  (a, b4) ← read_text b3
  read_task_end u q c a b4

pub read_task-write_task : (t : Task) → read_task (write_task t) ≡ some t
unfolding read_task write_task
read_task-write_task t =
    rw (read_text-text, read_text-text, read_text-text, read_text-text)
      (rw (of_flag-flag t.guarded) refl)

unfoldable pub write_archived : ArchivedTask → Bytes
write_archived t = text t.uuid (
    text t.queue (
      text t.current_state (
        text t.auto_target_state
          (t.submit_time ∷ t.update_time ∷ t.revision ∷ flag t.guarded ∷ []))))

unfoldable pub read_archived_end : Bytes → Bytes → Bytes → Bytes → Bytes → Option ArchivedTask
read_archived_end u q c a (st ∷ ut ∷ rv ∷ g ∷ []) = some (record {
  uuid = u;
  queue = q;
  current_state = c;
  auto_target_state = a;
  submit_time = st;
  update_time = ut;
  revision = rv;
  guarded = of_flag g;
})
read_archived_end u q c a _ = none

unfoldable pub read_archived : Bytes → Option ArchivedTask
unfolding read_archived_end
read_archived b = do
  (u, b1) ← read_text b
  (q, b2) ← read_text b1
  (c, b3) ← read_text b2
  (a, b4) ← read_text b3
  read_archived_end u q c a b4

pub read_archived-write_archived : (t : ArchivedTask) → read_archived (write_archived t) ≡ some t
unfolding read_archived write_archived
read_archived-write_archived t =
    rw (read_text-text, read_text-text, read_text-text, read_text-text)
      (rw (of_flag-flag t.guarded) refl)

unfoldable pub write_submission : SubmissionRecord → Bytes
write_submission r = text r.queue (
    text r.key
      (text r.digest (text r.task_uuid (r.accepted_at ∷ r.expires_at ∷ flag r.guarded ∷ []))))

unfoldable pub read_submission_end : Bytes → Bytes → Bytes → Bytes → Bytes → Option SubmissionRecord
read_submission_end q k d u (ac ∷ ex ∷ g ∷ []) = some (record {
  queue = q;
  key = k;
  digest = d;
  task_uuid = u;
  accepted_at = ac;
  expires_at = ex;
  guarded = of_flag g;
})
read_submission_end q k d u _ = none

unfoldable pub read_submission : Bytes → Option SubmissionRecord
unfolding read_submission_end
read_submission b = do
  (q, b1) ← read_text b
  (k, b2) ← read_text b1
  (d, b3) ← read_text b2
  (u, b4) ← read_text b3
  read_submission_end q k d u b4

pub read_submission-write_submission :
    (r : SubmissionRecord) → read_submission (write_submission r) ≡ some r
unfolding read_submission write_submission
read_submission-write_submission r =
    rw (read_text-text, read_text-text, read_text-text, read_text-text)
      (rw (of_flag-flag r.guarded) refl)

abbrev pub op_number : Op → ℕ
op_number Op.claim = 0
op_number Op.update = 1
op_number Op.complete = 2
op_number Op.cancel = 3

abbrev pub of_op_number : ℕ → Op
of_op_number zero = Op.claim
of_op_number (suc zero) = Op.update
of_op_number (suc (suc zero)) = Op.complete
of_op_number (suc (suc (suc n))) = Op.cancel

of_op_number-op_number : (o : Op) → of_op_number (op_number o) ≡ o
of_op_number-op_number Op.claim = refl
of_op_number-op_number Op.update = refl
of_op_number-op_number Op.complete = refl
of_op_number-op_number Op.cancel = refl

unfoldable pub write_operation : OperationRecord → Bytes
unfolding write_task
write_operation r = text r.operation_id (
    text r.digest (
      text r.task_uuid (
        text r.queue (
          op_number r.op
          ∷ r.at
          ∷ r.expires_at
          ∷ flag r.result.terminal
          ∷ write_task r.result.task))))

unfoldable pub read_operation_end : Bytes → Bytes → Bytes → Bytes → Bytes → Option OperationRecord
read_operation_end i d u q (op ∷ at ∷ ex ∷ tm ∷ rest) = do
  t ← read_task rest
  some (record {
    operation_id = i;
    op = of_op_number op;
    digest = d;
    task_uuid = u;
    queue = q;
    at = at;
    expires_at = ex;
    result = record { task = t; terminal = of_flag tm };
  })
read_operation_end i d u q _ = none

unfoldable pub read_operation : Bytes → Option OperationRecord
unfolding read_operation_end read_task
read_operation b = do
  (i, b1) ← read_text b
  (d, b2) ← read_text b1
  (u, b3) ← read_text b2
  (q, b4) ← read_text b3
  read_operation_end i d u q b4

pub read_operation-write_operation :
    (r : OperationRecord) → read_operation (write_operation r) ≡ some r
unfolding read_operation write_operation
read_operation-write_operation r =
    rw
      (
        read_text-text,
        read_text-text,
        read_text-text,
        read_text-text,
        read_task-write_task,
        of_op_number-op_number r.op,
        of_flag-flag r.result.terminal,
      )
      refl

abbrev pub list_task_json : Json Task
list_task_json = record {
  marshal = write_task;
  unmarshal = read_task;
  unmarshal-marshal = read_task-write_task;
}

abbrev pub list_archived_json : Json ArchivedTask
list_archived_json = record {
  marshal = write_archived;
  unmarshal = read_archived;
  unmarshal-marshal = read_archived-write_archived;
}

abbrev pub list_submission_json : Json SubmissionRecord
list_submission_json = record {
  marshal = write_submission;
  unmarshal = read_submission;
  unmarshal-marshal = read_submission-write_submission;
}

abbrev pub list_operation_json : Json OperationRecord
list_operation_json = record {
  marshal = write_operation;
  unmarshal = read_operation;
  unmarshal-marshal = read_operation-write_operation;
}
