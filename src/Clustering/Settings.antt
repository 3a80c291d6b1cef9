-- ===== src/Clustering/Settings.antt =====
-- corndogs/server/clustering/config.go: the settings of a cluster. A setting is as read from the
-- environment, and an int is its 64-bit pattern.
use corndogs.Prelude.{
  ℕ, ◌/◌, ◌-◌, Bool, false, not, ◌||◌, List, [], ◌∷◌, Option, none, some, if◌then◌else◌, ltb,
  length,
}
use corndogs.Bytes.{Bytes, equal}
use corndogs.Filestore.Task.{lt64}
use corndogs.Cluster.Floats.{Floats}
use corndogs.Cluster.Config.{Config, ConfigError, validate}

-- The fields that Validate and DurabilityAckCount read.
pub record Settings ⦃f : Floats⦄ : Type 0 where
  pub enabled : Bool
  pub node_id : Bytes
  pub peers : List Bytes
  pub ack_count : ℕ
  pub async : Bool
  pub election : Config

pub data SettingsError : Type 0 where
  no_node_id too_many_peers no_peers not_a_peer ack_count_too_high : SettingsError
  bad_election : ConfigError → SettingsError

module _ ⦃f : Floats⦄ where
  -- DurabilityAckCount
  unfoldable pub durability_ack_count : Settings → ℕ
  durability_ack_count s =
      if s.async then 0 else if not (lt64 s.ack_count 0) then s.ack_count else length s.peers / 2

  abbrev pub listed : Bytes → List Bytes → Bool
  listed id [] = false
  listed id (p ∷ ps) = equal p id || listed id ps

  abbrev election_error : Option ConfigError → Option SettingsError
  election_error none = none
  election_error (some x) = some (bad_election x)

  -- The checks of Validate, from the last.
  abbrev ack_check : Settings → Option SettingsError
  ack_check s =
      if lt64 (length s.peers - 1) (durability_ack_count s)
      then some ack_count_too_high
      else election_error (validate s.election)

  abbrev member_check : Settings → Option SettingsError
  member_check s = if not (listed s.node_id s.peers) then some not_a_peer else ack_check s

  abbrev presence_check : Settings → Option SettingsError
  presence_check s = if ltb (length s.peers) 1 then some no_peers else member_check s

  abbrev size_check : Settings → Option SettingsError
  size_check s = if ltb 255 (length s.peers) then some too_many_peers else presence_check s

  -- Validate: the error, or none
  unfoldable pub validate_settings : Settings → Option SettingsError
  unfolding durability_ack_count validate
  validate_settings s =
      if not s.enabled then none else if equal s.node_id [] then some no_node_id else size_check s
