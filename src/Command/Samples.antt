-- ===== src/Command/Samples.antt =====
-- Values and settings that the tests of the commands share.
use redisson_rs.Base.{true, none, ◌∷◌, []}
use redisson_rs.Config.{RedissonConfig, standalone, cluster, auto, slave}
use redisson_rs.Config.Client.{Server}
use redisson_rs.Command.Value.{Fred, FredError}

abbrev pub plain_fred : Fred
plain_fred = record { Expiration = Unit; SetOptions = Unit; Score = Unit; Other = Unit }

abbrev pub cfg : RedissonConfig
cfg = record {
  mode = standalone (record { host = "localhost"; port = 6379 }) 0;
  username = none;
  password = none;
  command_timeout = 3_000;
  connect_timeout = 5_000;
  max_command_attempts = 3;
  max_redirections = 5;
  reconnect_max_attempts = 0;
  reconnect_min_delay = 1;
  reconnect_max_delay = 30_000;
  reconnect_multiplier = 2;
  pool_size = 5;
  lock_watchdog_timeout = 30_000;
  subscription_timeout = 7_500;
  retry_attempts = 4;
  retry_delay = 1_000;
  sharded_subscription_mode = auto;
  read_mode = slave;
  use_script_cache = true;
  slaves_sync_timeout = 1_000;
  check_lock_synced_slaves = true;
}

abbrev pub first : Server
first = record { host = "first"; port = 7000 }

abbrev pub second : Server
second = record { host = "second"; port = 7001 }

abbrev pub down : FredError
down = record { details = "ERR"; display = "ERR" }

-- A cluster of the two.
abbrev pub clustered : RedissonConfig
clustered = record cfg {
  mode =
      cluster
        (record { host = "first"; port = 7000 } ∷ record { host = "second"; port = 7001 } ∷ []);
}
