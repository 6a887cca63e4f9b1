-- ===== src/Config.antt =====
-- redisson-rs/src/config: the file's settings as text and numbers (`RedisConfig`), the settings that
-- the program works with (`RedissonConfig`), the conversion, and what is handed to the fred client.
-- A `Duration` is its number of milliseconds.
pub mod Accept
pub mod Client
mod Tests
use redisson_rs.Base.{
  ℕ, ◌*◌, String, Bool, true, false, not, Option, none, some, List, [], ◌∷◌, is_empty, ◌==◌,
  string_eq, if◌then◌else◌, Result, ok, err, ◌>>=◌, ◌>>◌, ensure,
}

pub record RedisNode : Type 0 where
  pub host : String
  pub port : ℕ

pub data ServerMode : Type 0 where
  standalone : (server : RedisNode) (db : ℕ) → ServerMode
  cluster : (nodes : List RedisNode) → ServerMode
  sentinel :
      (sentinels : List RedisNode) (service_name : String) (username password : Option String)
      (db : ℕ)
      → ServerMode

pub data ReadMode : Type 0 where
  slave master master_slave : ReadMode

pub data ShardedSubscriptionMode : Type 0 where
  auto on off : ShardedSubscriptionMode

pub record RedisConfig : Type 0 where
  pub mode : String
  pub host : String
  pub port : ℕ
  pub nodes : List RedisNode
  pub sentinel_service_name : String
  pub sentinel_username : Option String
  pub sentinel_password : Option String
  pub username : Option String
  pub password : Option String
  pub db : ℕ
  pub command_timeout_secs : ℕ
  pub connect_timeout_secs : ℕ
  pub max_command_attempts : ℕ
  pub max_redirections : ℕ
  pub reconnect_max_attempts : ℕ
  pub reconnect_min_delay_ms : ℕ
  pub reconnect_max_delay_ms : ℕ
  pub reconnect_multiplier : ℕ
  pub pool_size : ℕ
  pub lock_watchdog_timeout : ℕ
  pub subscription_timeout : ℕ
  pub command_timeout_ms : ℕ
  pub retry_attempts : ℕ
  pub retry_delay_base_ms : ℕ
  pub retry_delay_max_ms : ℕ
  pub sharded_subscription_mode : String
  pub read_mode : String
  pub use_script_cache : Bool
  pub slaves_sync_timeout_ms : ℕ
  pub check_lock_synced_slaves : Bool

-- `RedisConfig::default`
abbrev pub default_config : RedisConfig
default_config = record {
  mode = "standalone";
  host = "localhost";
  port = 6379;
  nodes = [];
  sentinel_service_name = "mymaster";
  sentinel_username = none;
  sentinel_password = none;
  username = none;
  password = none;
  db = 0;
  command_timeout_secs = 0;
  connect_timeout_secs = 5;
  max_command_attempts = 3;
  max_redirections = 5;
  reconnect_max_attempts = 0;
  reconnect_min_delay_ms = 1;
  reconnect_max_delay_ms = 30_000;
  reconnect_multiplier = 2;
  pool_size = 5;
  lock_watchdog_timeout = 30;
  subscription_timeout = 7_500;
  command_timeout_ms = 3_000;
  retry_attempts = 4;
  retry_delay_base_ms = 1_000;
  retry_delay_max_ms = 2_000;
  sharded_subscription_mode = "auto";
  read_mode = "slave";
  use_script_cache = true;
  slaves_sync_timeout_ms = 1_000;
  check_lock_synced_slaves = true;
}

pub record RedissonConfig : Type 0 where
  pub mode : ServerMode
  pub username : Option String
  pub password : Option String
  pub command_timeout : ℕ
  pub connect_timeout : ℕ
  pub max_command_attempts : ℕ
  pub max_redirections : ℕ
  pub reconnect_max_attempts : ℕ
  pub reconnect_min_delay : ℕ
  pub reconnect_max_delay : ℕ
  pub reconnect_multiplier : ℕ
  pub pool_size : ℕ
  pub lock_watchdog_timeout : ℕ
  pub subscription_timeout : ℕ
  pub retry_attempts : ℕ
  pub retry_delay : ℕ
  pub sharded_subscription_mode : ShardedSubscriptionMode
  pub read_mode : ReadMode
  pub use_script_cache : Bool
  pub slaves_sync_timeout : ℕ
  pub check_lock_synced_slaves : Bool

pub data ConfigError : Type 0 where
  cluster_without_nodes sentinel_without_nodes : ConfigError
  invalid_mode invalid_sharded_subscription_mode invalid_read_mode : String → ConfigError

abbrev pub from_secs : ℕ → ℕ
from_secs s = s * 1000

abbrev pub from_millis : ℕ → ℕ
from_millis ms = ms

-- The first `match` of `try_from`; its argument is the mode in lower case.
unfoldable pub server_mode : String → RedisConfig → Result ConfigError ServerMode
server_mode mode c =
    if mode == "standalone"
    then ok (standalone (record { host = c.host; port = c.port }) c.db)
    else if mode == "cluster"
    then (do ensure (not (is_empty c.nodes)) cluster_without_nodes; ok (cluster c.nodes))
    else if mode == "sentinel"
    then (do
      ensure (not (is_empty c.nodes)) sentinel_without_nodes
      ok (sentinel c.nodes c.sentinel_service_name c.sentinel_username c.sentinel_password c.db))
    else err (invalid_mode mode)

unfoldable pub subscription_mode : String → Result ConfigError ShardedSubscriptionMode
subscription_mode mode =
    if mode == "auto"
    then ok auto
    else if mode == "on"
    then ok on
    else if mode == "off"
    then ok off
    else err (invalid_sharded_subscription_mode mode)

unfoldable pub reading_mode : String → Result ConfigError ReadMode
reading_mode mode =
    if mode == "slave"
    then ok slave
    else if mode == "master"
    then ok master
    else if mode == "master_slave"
    then ok master_slave
    else err (invalid_read_mode mode)

-- `RedissonConfig::try_from`. `str::to_lowercase`, of the standard library, is a parameter.
pub try_from : (String → String) → RedisConfig → Result ConfigError RedissonConfig
try_from to_lowercase c = do
  mode ← server_mode (to_lowercase c.mode) c
  sharded ← subscription_mode (to_lowercase c.sharded_subscription_mode)
  reading ← reading_mode (to_lowercase c.read_mode)
  ok (record {
    mode = mode;
    username = c.username;
    password = c.password;
    command_timeout = from_millis c.command_timeout_ms;
    connect_timeout = from_secs c.connect_timeout_secs;
    max_command_attempts = c.max_command_attempts;
    max_redirections = c.max_redirections;
    reconnect_max_attempts = c.reconnect_max_attempts;
    reconnect_min_delay = from_millis c.reconnect_min_delay_ms;
    reconnect_max_delay = from_millis c.reconnect_max_delay_ms;
    reconnect_multiplier = c.reconnect_multiplier;
    pool_size = c.pool_size;
    lock_watchdog_timeout = from_secs c.lock_watchdog_timeout;
    subscription_timeout = from_millis c.subscription_timeout;
    retry_attempts = c.retry_attempts;
    retry_delay = from_millis c.retry_delay_base_ms;
    sharded_subscription_mode = sharded;
    read_mode = reading;
    use_script_cache = c.use_script_cache;
    slaves_sync_timeout = from_millis c.slaves_sync_timeout_ms;
    check_lock_synced_slaves = c.check_lock_synced_slaves;
  })
