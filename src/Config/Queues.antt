-- ===== src/Config/Queues.antt =====
-- pkg/config/config.go: `QueueConfig.Validate` and `Config.Validate`.
use tip_olg_ucentral_client.Prelude.{ℤ, String, Checked, pass, ◌>>=◌, ◌>>◌}
use tip_olg_ucentral_client.Config.{ConfigError, ConfigLibraries, positive, or_default}
use tip_olg_ucentral_client.Config.Cloud.{CloudConfig, validate_cloud}
use tip_olg_ucentral_client.Config.Nats.{NatsConfig, validate_nats}

pub record QueueConfig : Type 0 where
  pub ws_writer_capacity : ℤ
  pub emergency_capacity : ℤ
  pub nats_publish_capacity : ℤ
  pub command_result_capacity : ℤ
  pub telemetry_capacity : ℤ
  pub max_concurrent_requests : ℤ

unfoldable pub validate_queues : QueueConfig → Checked ConfigError QueueConfig
validate_queues q = do
  positive q.ws_writer_capacity
  positive q.emergency_capacity
  positive q.nats_publish_capacity
  positive q.command_result_capacity
  positive q.telemetry_capacity
  requests ← or_default q.max_concurrent_requests 100
  pass (record q { max_concurrent_requests = requests })

pub record Config : Type 0 where
  pub serial : String
  pub cloud : CloudConfig
  pub nats : NatsConfig
  pub queues : QueueConfig

unfoldable pub validate_config : ConfigLibraries → Config → Checked ConfigError Config
validate_config lib c = do
  cloud ← validate_cloud lib c.cloud
  nats ← validate_nats lib c.nats
  queues ← validate_queues c.queues
  pass (record c { cloud = cloud; nats = nats; queues = queues })
