-- ===== src/Service/Policy.antt =====
-- The settings of corndogs/server/config/config.go that the handlers read, and the checks of the
-- resilience policies.
use corndogs.Prelude.{◌-◌, ℕ, ◌^◌, Bool, not, ◌&&◌, ◌||◌, Option, none, some, if◌then◌else◌}
use corndogs.Bytes.{Bytes, equal}
use corndogs.Filestore.Tx.{codes}
use corndogs.Filestore.Task.{lt64}

-- The texts are as read from the environment; times are in nanoseconds.
pub record ServerConfig : Type 0 where
  pub default_queue : Bytes
  pub default_starting_state : Bytes
  pub default_working_suffix : Bytes
  pub default_timeout : ℕ
  pub max_payload_bytes : ℕ
  pub submission_key_policy : Bytes
  pub task_guard_policy : Bytes
  pub receipt_retention : ℕ

abbrev pub policy_compatibility : Bytes
policy_compatibility = codes "compatibility"

abbrev pub policy_required : Bytes
policy_required = codes "required"

-- time.Minute
abbrev pub min_receipt_retention : ℕ
min_receipt_retention = 60_000_000_000

unfoldable pub keys_required : ServerConfig → Bool
keys_required cfg = equal cfg.submission_key_policy policy_required

unfoldable pub guards_required : ServerConfig → Bool
guards_required cfg = equal cfg.task_guard_policy policy_required

abbrev is_policy : Bytes → Bool
is_policy v = equal v policy_compatibility || equal v policy_required

pub data PolicyError : Type 0 where
  unknown_policy retention_too_short : PolicyError

-- ValidateResilience: the error, or none
unfoldable pub validate_resilience : ServerConfig → Option PolicyError
validate_resilience cfg =
    if not (is_policy cfg.submission_key_policy && is_policy cfg.task_guard_policy)
    then some unknown_policy
    else if lt64 cfg.receipt_retention min_receipt_retention
    then some retention_too_short
    else none

-- The range check of parseMaxPayloadBytes on the parsed int64: the value, or none.
abbrev pub hard_max_payload_bytes : ℕ
hard_max_payload_bytes = 2 ^ 30 - 1

unfoldable pub checked_max_payload : ℕ → Option ℕ
checked_max_payload value =
    if lt64 value 1 || lt64 hard_max_payload_bytes value then none else some value
