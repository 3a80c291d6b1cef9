-- ===== src/Filestore/Order/Dequeue.antt =====
-- The byte order of the keys is the dequeue order and the order of the deadlines.
use corndogs.Prelude.{
  ℕ, ◌+◌, ◌*◌, ◌-◌, ◌^◌, ◌≡◌, ap₂, ◌∙◌, [], ◌++◌, true, ◌&&◌, arith, ltb, ◌==◌, if◌then◌else◌,
}
use corndogs.Bytes.{Bytes, IsWord64, less, be, be_onto, of_be}
use corndogs.Bytes.Laws.{less-append}
use corndogs.Bytes.BigEndian.{be-append, less-be_onto, of_be-be_onto}
use corndogs.Filestore.Task.{Task, flip_sign, lt64}
use corndogs.Filestore.Order.{
  task_prefix, encode_priority_desc, encode_time_asc, decode_time_asc, encode_task_key,
  task_deadline, encode_deadline_key, better_candidate,
}

less-be :
    (v w : ℕ) (a b : Bytes)
    → IsWord64 v
    → IsWord64 w
    → less (be 8 v ++ a) (be 8 w ++ b) ≡ (if ltb v w then true else (v == w && less a b))
unfolding be
less-be v w a b h k = rw (be-append 8 v [] a, be-append 8 w [] b) (less-be_onto 8 v w a b h k)

-- A stored time, a 64-bit word, reads back as it was written.
pub decode-encode_time : (t : ℕ) → IsWord64 t → decode_time_asc (encode_time_asc t) ≡ t
unfolding decode_time_asc encode_time_asc be
decode-encode_time t h = flip_sign-block t h (of_be-be_onto 8 0 (flip_sign t) [] (omega arith))
  where
    flip_sign-block :
        (t : ℕ)
        → IsWord64 t
        → of_be 0 (be_onto 8 (flip_sign t) []) ≡ of_be (0 * 256 ^ 8 + flip_sign t) []
        → flip_sign (of_be 0 (be_onto 8 (flip_sign t) [])) ≡ t
    flip_sign-block t h e = rw e (unfold of_be in omega arith)

less-same_prefix : (p q a b : Bytes) → p ≡ q → less (p ++ a) (q ++ b) ≡ less a b
less-same_prefix p q a b e = rw e (less-append q a b)

abbrev key_tail : Task → Bytes
key_tail t = be 8 (2 ^ 64 - 1 - flip_sign t.priority) ++ (be 8 (flip_sign t.update_time) ++ t.uuid)

less-key_tail :
    (a b : Task)
    → IsWord64 a.priority
    → IsWord64 b.priority
    → IsWord64 a.update_time
    → IsWord64 b.update_time
    → less (key_tail a) (key_tail b) ≡ better_candidate a b
unfolding better_candidate
less-key_tail a b pa pb ta tb =
    less-be (2 ^ 64 - 1 - flip_sign a.priority) (2 ^ 64 - 1 - flip_sign b.priority)
      (be 8 (flip_sign a.update_time) ++ a.uuid) (be 8 (flip_sign b.update_time) ++ b.uuid)
      (omega arith) (omega arith)
    ∙ rw
        (less-be (flip_sign a.update_time) (flip_sign b.update_time) a.uuid b.uuid (omega arith)
          (omega arith))
        (ground arith)

-- Within one queue and state, a task's key comes first exactly when the task is claimed first:
-- the higher priority, then the older update, then the smaller uuid. Priorities and update times are
-- 64-bit words.
pub less-task_key :
    (a b : Task)
    → IsWord64 a.priority
    → IsWord64 b.priority
    → IsWord64 a.update_time
    → IsWord64 b.update_time
    → a.queue ≡ b.queue
    → a.current_state ≡ b.current_state
    → less (encode_task_key a) (encode_task_key b) ≡ better_candidate a b
unfolding encode_task_key encode_priority_desc encode_time_asc
less-task_key a b pa pb ta tb q s =
    less-same_prefix (task_prefix a.queue a.current_state) (task_prefix b.queue b.current_state)
      (key_tail a) (key_tail b) (ap₂ task_prefix q s)
    ∙ less-key_tail a b pa pb ta tb

-- The deadline index is in the order of the deadlines, and of the uuids where these agree.
pub less-deadline_key :
    (a b : Task)
    → less (encode_deadline_key a) (encode_deadline_key b) ≡ (
        if lt64 (task_deadline a) (task_deadline b)
        then true
        else (task_deadline a == task_deadline b && less a.uuid b.uuid))
unfolding encode_deadline_key encode_time_asc task_deadline
less-deadline_key a b =
    less-be (flip_sign (task_deadline a)) (flip_sign (task_deadline b)) a.uuid b.uuid (omega arith)
      (omega arith)
    ∙ ground arith
