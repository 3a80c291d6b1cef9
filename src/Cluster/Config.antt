-- ===== src/Cluster/Config.antt =====
-- corndogs/server/cluster/config.go: the timing parameters. An int64 is its bit pattern.
use corndogs.Prelude.{ℕ, Bool, true, not, Option, none, some, if◌then◌else◌}
use corndogs.Filestore.Task.{lt64, mul64}
use corndogs.Cluster.Floats.{Floats}

pub record Config ⦃f : Floats⦄ : Type 0 where
  pub heartbeat_interval : ℕ
  pub failure_timeout : ℕ
  pub election_window : ℕ
  pub election_jitter : ℕ
  pub bid_max : f.Float
  pub max_lag_to_vote : ℕ

-- The errors of Validate, in the order of its checks.
pub data ConfigError : Type 0 where
  heartbeat_not_positive : ConfigError
  failure_timeout_short : ConfigError
  window_not_positive : ConfigError
  window_too_long : ConfigError
  jitter_negative : ConfigError
  bid_max_not_positive : ConfigError

module _ ⦃f : Floats⦄ where
  -- DefaultConfig; its BidMax, 10.0, is given
  abbrev pub default_config : f.Float → Config
  default_config ten = record {
    heartbeat_interval = 10;
    failure_timeout = 20;
    election_window = 5;
    election_jitter = 3;
    bid_max = ten;
    max_lag_to_vote = 0;
  }

  -- `a <= b` on floats
  abbrev at_most : f.Float → f.Float → Bool
  at_most a b = if f.gt b a then true else f.same a b

  -- Validate: the error, or none
  unfoldable pub validate : Config → Option ConfigError
  validate c =
      if not (lt64 0 c.heartbeat_interval)
      then some heartbeat_not_positive
      else if lt64 c.failure_timeout (mul64 2 c.heartbeat_interval)
      then some failure_timeout_short
      else if not (lt64 0 c.election_window)
      then some window_not_positive
      else if not (lt64 c.election_window c.failure_timeout)
      then some window_too_long
      else if lt64 c.election_jitter 0
      then some jitter_negative
      else if at_most c.bid_max f.zero_float
      then some bid_max_not_positive
      else none
