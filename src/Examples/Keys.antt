-- ===== src/Examples/Keys.antt =====
-- Two tasks of one queue and state, and the theorems about their keys at them.
use corndogs.Prelude.{◌≡◌, ◌↔◌, refl, false, [], ◌∷◌, true, false, if◌then◌else◌, ◌&&◌, ◌==◌, arith}
use corndogs.Bytes.{Bytes, less, has_prefix}
use corndogs.Filestore.Task.{Task, lt64}
use corndogs.Filestore.Order.{
  task_prefix, encode_task_key, task_deadline, encode_deadline_key, better_candidate,
  parse_key_queue_state,
}
use corndogs.Filestore.Order.Dequeue.{less-task_key, less-deadline_key}
use corndogs.Filestore.Order.Keys.{parse-task_key, has_prefix-task_key}

abbrev pub queue_name : Bytes
queue_name = b'q' ∷ b'1' ∷ []

abbrev pub state_name : Bytes
state_name = b's' ∷ []

abbrev pub urgent_task : Task
urgent_task = record {
  uuid = b'u' ∷ [];
  queue = queue_name;
  current_state = state_name;
  auto_target_state = [];
  submit_time = 10;
  update_time = 20;
  timeout = 30;
  priority = 7;
  revision = 1;
  guarded = false;
}

-- Priority -1, in two's complement.
abbrev pub slow_task : Task
slow_task = record urgent_task {
  uuid = b'v' ∷ [];
  update_time = 11;
  priority = 18446744073709551615;
}

less-task_key_example :
    less (encode_task_key urgent_task) (encode_task_key slow_task)
    ≡ better_candidate urgent_task slow_task
less-task_key_example =
    less-task_key urgent_task slow_task (omega arith) (omega arith) (omega arith) (omega arith) refl
      refl

less-deadline_key_example :
    less (encode_deadline_key urgent_task) (encode_deadline_key slow_task) ≡ (
      if lt64 (task_deadline urgent_task) (task_deadline slow_task)
      then true
      else (task_deadline urgent_task == task_deadline slow_task
          && less urgent_task.uuid slow_task.uuid))
less-deadline_key_example = less-deadline_key urgent_task slow_task

parse-task_key_example :
    parse_key_queue_state (encode_task_key urgent_task) ≡ (queue_name, state_name)
parse-task_key_example = parse-task_key urgent_task (refl, (refl, tt)) (refl, tt)

has_prefix-task_key_example :
    (has_prefix (encode_task_key urgent_task) (task_prefix queue_name state_name) ≡ true)
    ↔ ((urgent_task.queue ≡ queue_name) × (urgent_task.current_state ≡ state_name))
has_prefix-task_key_example =
    has_prefix-task_key urgent_task queue_name state_name (refl, (refl, tt)) (refl, tt)
      (refl, (refl, tt)) (refl, tt)
