-- ===== src/Filestore/Task.antt =====
-- corndogs/server/store/filestore/task.go: the records of live and archived tasks. An int64 is its
-- bit pattern, a number below 2 ^ 64, and a string is its bytes.
use corndogs.Prelude.{◌-◌, ℕ, ◌+◌, ◌*◌, ◌%◌, ◌^◌, Bool, ltb}
use corndogs.Bytes.{Bytes}

pub record Task : Type 0 where
  pub uuid : Bytes
  pub queue : Bytes
  pub current_state : Bytes
  pub auto_target_state : Bytes
  pub submit_time : ℕ
  pub update_time : ℕ
  pub timeout : ℕ
  pub priority : ℕ
  pub revision : ℕ
  pub guarded : Bool

pub record ArchivedTask : Type 0 where
  pub uuid : Bytes
  pub queue : Bytes
  pub current_state : Bytes
  pub auto_target_state : Bytes
  pub submit_time : ℕ
  pub update_time : ℕ
  pub revision : ℕ
  pub guarded : Bool

-- int64 addition and multiplication, which wrap
abbrev pub add64 : ℕ → ℕ → ℕ
add64 a b = (a + b) % 2 ^ 64

-- int64 subtraction
abbrev pub sub64 : ℕ → ℕ → ℕ
sub64 a b = (a + (2 ^ 64 - b % 2 ^ 64)) % 2 ^ 64

abbrev pub mul64 : ℕ → ℕ → ℕ
mul64 a b = a * b % 2 ^ 64

-- `uint64(x) ^ (1 << 63)`: turning the sign bit round maps the order of int64 to that of uint64
abbrev pub flip_sign : ℕ → ℕ
flip_sign x = (x + 2 ^ 63) % 2 ^ 64

-- `a < b` on int64
abbrev pub lt64 : ℕ → ℕ → Bool
lt64 a b = ltb (flip_sign a) (flip_sign b)

unfoldable pub to_archived : Task → ArchivedTask
to_archived t = record {
  uuid = t.uuid;
  queue = t.queue;
  current_state = t.current_state;
  auto_target_state = t.auto_target_state;
  submit_time = t.submit_time;
  update_time = t.update_time;
  revision = add64 t.revision 1;
  guarded = t.guarded;
}
