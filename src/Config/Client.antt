-- ===== src/Config/Client.antt =====
-- What the fred client is configured with: `build_fred_config`, `build_perf_config` and
-- `build_connection_config` of redisson-rs/src/config/mod.rs. The fields of fred's records that the
-- code leaves at their default are not modelled; the defaults that it may overwrite are arguments.
use redisson_rs.Base.{
  ℕ, ◌*◌, nat_eq, ◌≡◌, ◌≢◌, String, Option, none, some, List, [], ◌∷◌, map, arith, ltb, ◌==◌,
  string_eq, if◌then◌else◌, ok,
}
use redisson_rs.Config.{
  RedisNode, RedisConfig, RedissonConfig, ServerMode, standalone, cluster, sentinel, server_mode,
  try_from,
}

-- fred's `Server`
pub record Server : Type 0 where
  pub host : String
  pub port : ℕ

-- fred's `ServerConfig`
pub data ServerConfig : Type 0 where
  centralized : (server : Server) → ServerConfig
  clustered : (hosts : List Server) → ServerConfig
  sentinels :
      (hosts : List Server) (service_name : String) (username password : Option String)
      → ServerConfig

-- fred's `Config`
pub record FredConfig : Type 0 where
  pub server : ServerConfig
  pub username : Option String
  pub password : Option String
  pub database : Option ℕ

abbrev pub to_server : RedisNode → Server
to_server n = record { host = n.host; port = n.port }

abbrev pub server_of : ServerMode → ServerConfig × Option ℕ
server_of (standalone node db) = (centralized (to_server node), some db)
server_of (cluster nodes) = (clustered (map to_server nodes), none)
server_of (sentinel nodes service_name username password db) =
    (sentinels (map to_server nodes) service_name username password, some db)

-- It returns a `Result` that is always `Ok`.
pub build_fred_config : RedissonConfig → FredConfig
build_fred_config config =
    let (server, database) = server_of config.mode in
    record {
      server = server;
      username = config.username;
      password = config.password;
      database = database;
    }

-- fred's `PerformanceConfig`, its one field that the code sets.
pub record PerformanceConfig : Type 0 where
  pub default_command_timeout : ℕ

pub build_perf_config : PerformanceConfig → RedissonConfig → PerformanceConfig
build_perf_config perf config =
    if ltb 0 config.command_timeout
    then record { default_command_timeout = config.command_timeout }
    else perf

-- fred's `ConnectionConfig`, its three fields that the code sets.
pub record ConnectionConfig : Type 0 where
  pub connection_timeout : ℕ
  pub max_command_attempts : ℕ
  pub max_redirections : ℕ

pub build_connection_config : ConnectionConfig → RedissonConfig → ConnectionConfig
build_connection_config conn config =
    let timed : ConnectionConfig =
      if ltb 0 config.connect_timeout
      then record conn { connection_timeout = config.connect_timeout }
      else conn in
    record timed {
      max_command_attempts = config.max_command_attempts;
      max_redirections = config.max_redirections;
    }

-- fred's `ServerConfig::hosts`
abbrev pub hosts : ServerConfig → List Server
hosts (centralized server) = server ∷ []
hosts (clustered servers) = servers
hosts (sentinels servers _ _ _) = servers

standalone_is_not_cluster : ◌≢◌ {A = String} "standalone" "cluster"
standalone_is_not_cluster = ground (arith, string_eq.beq_iff "standalone" "cluster")

server_mode-server_of :
    (mode : String) (c : RedisConfig) (m : ServerMode)
    → server_mode mode c ≡ ok m
    → (hosts (server_of m).0 ≡ (
        if mode == "standalone"
        then record { host = c.host; port = c.port } ∷ []
        else map to_server c.nodes))
      × ((server_of m).1 ≡ (if mode == "cluster" then none else some c.db))
unfolding server_mode
server_mode-server_of mode c m e = ground (
  arith,
  standalone_is_not_cluster,
  string_eq.beq_iff mode "standalone",
  string_eq.beq_iff mode "cluster",
)

-- From accepted settings the client gets the one host and port in standalone mode and the listed
-- nodes, in order, in the other modes; the database is chosen except in cluster mode; the user and
-- password are passed on.
pub build_fred_config-try_from :
    (to_lowercase : String → String) (c : RedisConfig) (r : RedissonConfig)
    → try_from to_lowercase c ≡ ok r
    → (hosts (build_fred_config r).server ≡ (
        if to_lowercase c.mode == "standalone"
        then record { host = c.host; port = c.port } ∷ []
        else map to_server c.nodes))
      × ((build_fred_config r).database
          ≡ (if to_lowercase c.mode == "cluster" then none else some c.db))
      × ((build_fred_config r).username ≡ c.username)
      × ((build_fred_config r).password ≡ c.password)
unfolding try_from build_fred_config
build_fred_config-try_from to_lowercase c r e =
    ground (arith, server_mode-server_of (to_lowercase c.mode) c r.mode)

-- A timeout of zero in the settings keeps fred's own; any other replaces it, a connect timeout in
-- seconds as milliseconds. The attempts and redirections are always replaced.
pub timeouts-try_from :
    (to_lowercase : String → String) (c : RedisConfig) (r : RedissonConfig)
    (perf : PerformanceConfig) (conn : ConnectionConfig)
    → try_from to_lowercase c ≡ ok r
    → ((build_perf_config perf r).default_command_timeout ≡ (
        if c.command_timeout_ms == 0 then perf.default_command_timeout else c.command_timeout_ms))
      × (build_connection_config conn r ≡ record {
        connection_timeout =
            if c.connect_timeout_secs == 0
            then conn.connection_timeout
            else c.connect_timeout_secs * 1000;
        max_command_attempts = c.max_command_attempts;
        max_redirections = c.max_redirections;
      })
unfolding try_from build_perf_config build_connection_config
timeouts-try_from to_lowercase c r perf conn e = ground arith
