-- ===== src/Config/Tests.antt =====
-- Settings converted, and the theorems about them at concrete settings. The words are in lower case
-- already, so the identity stands for `to_lowercase`.
use redisson_rs.Base.{
  ◌≡◌, refl, ◌↔◌, String, true, false, none, some, [], ◌∷◌, map, ◌==◌, string_eq, nat_eq,
  if◌then◌else◌, ok, err, is_err,
}
use redisson_rs.Config.{
  RedisConfig, RedissonConfig, cluster, default_config, cluster_without_nodes, try_from,
  server_mode, subscription_mode, reading_mode, auto, slave,
}
use redisson_rs.Config.Accept.{IsMode, IsSubscriptionMode, IsReadMode, try_from_accepts}
use redisson_rs.Config.Client.{
  PerformanceConfig, ConnectionConfig, build_fred_config, hosts, to_server,
  build_fred_config-try_from,
}

abbrev lower : String → String
lower s = s

abbrev cluster_config : RedisConfig
cluster_config = record default_config {
  mode = "cluster";
  nodes = record { host = "a"; port = 7000 } ∷ record { host = "b"; port = 7001 } ∷ [];
}

abbrev cluster_settings : RedissonConfig
cluster_settings = record {
  mode = cluster cluster_config.nodes;
  username = none;
  password = none;
  command_timeout = 3_000;
  connect_timeout = 5_000;
  max_command_attempts = 3;
  max_redirections = 5;
  reconnect_max_attempts = 0;
  reconnect_min_delay = 1;
  reconnect_max_delay = 30_000;
  reconnect_multiplier = 2;
  pool_size = 5;
  lock_watchdog_timeout = 30_000;
  subscription_timeout = 7_500;
  retry_attempts = 4;
  retry_delay = 1_000;
  sharded_subscription_mode = auto;
  read_mode = slave;
  use_script_cache = true;
  slaves_sync_timeout = 1_000;
  check_lock_synced_slaves = true;
}

cluster_accepted : try_from lower cluster_config ≡ ok cluster_settings
unfolding try_from server_mode subscription_mode reading_mode
cluster_accepted = refl

no_nodes_refused :
    try_from lower (record default_config { mode = "cluster" }) ≡ err cluster_without_nodes
unfolding try_from server_mode
no_nodes_refused = refl

try_from_accepts_example :
    (is_err (try_from lower cluster_config) ≡ false)
    ↔ (IsMode "cluster" cluster_config.nodes × IsSubscriptionMode "auto" × IsReadMode "slave")
try_from_accepts_example = try_from_accepts lower cluster_config

build_fred_config-try_from_example :
    (hosts (build_fred_config cluster_settings).server ≡ (
      if lower "cluster" == "standalone"
      then record { host = "localhost"; port = 6379 } ∷ []
      else map to_server cluster_config.nodes))
    × ((build_fred_config cluster_settings).database
        ≡ (if lower "cluster" == "cluster" then none else some 0))
    × ((build_fred_config cluster_settings).username ≡ none)
    × ((build_fred_config cluster_settings).password ≡ none)
build_fred_config-try_from_example =
    build_fred_config-try_from lower cluster_config cluster_settings cluster_accepted

abbrev perf : PerformanceConfig
perf = record { default_command_timeout = 10_000 }

abbrev conn : ConnectionConfig
conn = record { connection_timeout = 10_000; max_command_attempts = 3; max_redirections = 5 }
