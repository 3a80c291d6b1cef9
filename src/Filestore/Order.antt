-- ===== src/Filestore/Order.antt =====
-- corndogs/server/store/filestore/order.go, with `betterCandidate` and `parseKeyQueueState` of
-- boltstore.go: the ordered keys, the deadlines and the state change of a claim.
pub mod Dequeue
pub mod Keys
use corndogs.Prelude.{ℕ, ◌-◌, ◌^◌, Bool, ◌++◌, [], ◌∷◌, ◌&&◌, not, ltb, ◌==◌, if◌then◌else◌}
use corndogs.Bytes.{Bytes, less, equal, be, of_be, cut}
use corndogs.Filestore.Task.{Task, flip_sign, lt64, add64, mul64}

abbrev pub sep : ℕ
sep = 0

unfoldable pub encode_priority_desc : ℕ → Bytes
encode_priority_desc p = be 8 (2 ^ 64 - 1 - flip_sign p)

unfoldable pub encode_time_asc : ℕ → Bytes
encode_time_asc t = be 8 (flip_sign t)

unfoldable pub decode_time_asc : Bytes → ℕ
decode_time_asc b = flip_sign (of_be 0 b)

unfoldable pub task_prefix : Bytes → Bytes → Bytes
task_prefix queue state = queue ++ (sep ∷ state ++ (sep ∷ []))

unfoldable pub encode_task_key : Task → Bytes
unfolding task_prefix encode_priority_desc encode_time_asc
encode_task_key t =
    task_prefix t.queue t.current_state
    ++ (encode_priority_desc t.priority ++ (encode_time_asc t.update_time ++ t.uuid))

abbrev pub nanos_per_second : ℕ
nanos_per_second = 1_000_000_000

unfoldable pub task_deadline : Task → ℕ
task_deadline t = add64 t.update_time (mul64 t.timeout nanos_per_second)

unfoldable pub encode_deadline_key : Task → Bytes
unfolding task_deadline encode_time_asc
encode_deadline_key t = encode_time_asc (task_deadline t) ++ t.uuid

unfoldable pub timed_out : Task → ℕ → Bool
unfolding task_deadline
timed_out t at_time = lt64 0 t.timeout && lt64 (task_deadline t) at_time

-- The fields of a claim request that `applyGetNext` reads.
pub record Overrides : Type 0 where
  pub current_state : Bytes
  pub auto_target_state : Bytes
  pub timeout : ℕ

unfoldable pub apply_get_next : Task → Overrides → ℕ → Task
apply_get_next t req now = record t {
  current_state =
      if not (equal req.current_state []) then req.current_state else t.auto_target_state;
  auto_target_state =
      if not (equal req.auto_target_state []) then req.auto_target_state else t.current_state;
  timeout =
      if lt64 req.timeout 0 then 0 else if not (req.timeout == 0) then req.timeout else t.timeout;
  update_time = now;
}

unfoldable pub better_candidate : Task → Task → Bool
better_candidate a b =
    if not (a.priority == b.priority)
    then lt64 b.priority a.priority
    else if not (a.update_time == b.update_time)
    then lt64 a.update_time b.update_time
    else less a.uuid b.uuid

unfoldable pub parse_key_queue_state : Bytes → Bytes × Bytes
parse_key_queue_state key = let (queue, rest) = cut sep key in (queue, (cut sep rest).0)
