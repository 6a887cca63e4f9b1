-- ===== src/Redisson.antt =====
-- The construction of a client: `Redisson::create` (redisson-rs/src/redisson.rs),
-- `FredConnectionManager::create` (redisson-rs/src/connection/fred_connection_manager.rs) and the first
-- half of `PublishSubscribeService::new` (redisson-rs/src/pubsub/publish_subscribe_service.rs). What
-- fred does is a parameter: whether it makes a pool and connects, and what it answers.
pub mod Created
mod Tests
use redisson_rs.Base.{
  ℕ, ◌%◌, ◌^◌, String, Bool, true, false, Option, none, some, List, [], ◌∷◌, ◌++◌, if◌then◌else◌,
  Result, ok, err,
}
use redisson_rs.Config.{RedissonConfig, ReadMode, ServerMode, ShardedSubscriptionMode, auto}
use redisson_rs.Config.Client.{
  FredConfig, PerformanceConfig, ConnectionConfig, build_fred_config, build_perf_config,
  build_connection_config,
}
use redisson_rs.Connection.{publish_command}
use redisson_rs.PubSub.{Service, is_cluster, init}
use redisson_rs.PubSub.Topic.{PatternTopic}
use redisson_rs.PubSub.Topic
use redisson_rs.Command.Async.{CommandAsyncInner}
use redisson_rs.Command.Async

-- fred's exponential `ReconnectPolicy`
pub record ReconnectPolicy : Type 0 where
  pub max_attempts : ℕ
  pub min_delay : ℕ
  pub max_delay : ℕ
  pub base : ℕ

-- `as_millis() as u32`
abbrev pub as_u32 : ℕ → ℕ
as_u32 n = n % 2 ^ 32

-- What a fred client is made with.
pub record ClientSettings : Type 0 where
  pub config : FredConfig
  pub perf : PerformanceConfig
  pub connection : ConnectionConfig
  pub policy : ReconnectPolicy

-- What the program asks of fred, in order.
pub data Step : Type 0 where
  makes_pool : ClientSettings → (pool_size : ℕ) → Step
  connects_pool : Step
  listens_cluster_change listens_reconnect : Step
  asks_shardnumsub : Step
  makes_subscriber : ClientSettings → Step
  connects_subscriber : Step

-- What fred does, with its defaults.
pub record FredLibrary : Type 0 where
  pub perf_default : PerformanceConfig
  pub connection_default : ConnectionConfig
  pub pool_made : ClientSettings → ℕ → Bool
  pub pool_connects : Bool
  pub shardnumsub_answered : Bool
  pub subscriber_connects : Bool

pub data CreateError : Type 0 where
  no_pool no_connection no_subscriber already_set : CreateError

-- The service with what it is made of.
pub record PublishSubscribeService : Type 0 where
  pub subscriber : ClientSettings
  pub publish_command : String
  pub listeners : Service

pub record FredConnectionManager : Type 0 where
  pub pool : ClientSettings
  pub pool_size : ℕ
  pub subscribe_service : Option PublishSubscribeService
  pub config : RedissonConfig
  pub read_mode : ReadMode

abbrev pub Made : Type 0 → Type 0
Made A = List Step × Result CreateError A

-- A step that may fail, and what follows it.
abbrev pub try_step : {A : Type 0} → Step → Bool → CreateError → Made A → Made A
try_step s true e (steps, result) = (s ∷ steps, result)
try_step s false e rest = (s ∷ [], err e)

abbrev pub after : {A : Type 0} → List Step → Made A → Made A
after before (steps, result) = (before ++ steps, result)

-- The settings that the pool and the subscriber are each made with.
abbrev pub client_settings : FredLibrary → RedissonConfig → ClientSettings
client_settings f config = record {
  config = build_fred_config config;
  perf = build_perf_config f.perf_default config;
  connection = build_connection_config f.connection_default config;
  policy = record {
    max_attempts = config.reconnect_max_attempts;
    min_delay = as_u32 config.reconnect_min_delay;
    max_delay = as_u32 config.reconnect_max_delay;
    base = config.reconnect_multiplier;
  };
}

-- Whether `check_sharding_support` asks the servers.
abbrev pub asks : ServerMode → ShardedSubscriptionMode → List Step
asks mode sharded =
    if is_cluster mode then (elim sharded [ auto ↦ asks_shardnumsub ∷ [] | _ ↦ [] ]) else []

-- `OnceLock::set`
abbrev pub set_once : {A : Type 0} → A → Option A → Result CreateError A
set_once a none = ok a
set_once a (some b) = err already_set

-- `PublishSubscribeService::new` up to the tasks that it spawns.
pub new_service : FredLibrary → RedissonConfig → String → Made PublishSubscribeService
new_service f config command =
    let settings = client_settings f config in
    after (makes_subscriber settings ∷ []) (
      try_step connects_subscriber f.subscriber_connects no_subscriber (
        [],
        ok (record {
          subscriber = settings;
          publish_command = command;
          listeners = init config.mode;
        }),
      ))

abbrev pub with_service :
    FredConnectionManager → Made PublishSubscribeService → Made FredConnectionManager
with_service m (steps, err e) = (steps, err e)
with_service m (steps, ok s) = (
  steps,
  elim (set_once s m.subscribe_service) [
    | ok set ↦ ok (record m { subscribe_service = some set })
    | err e ↦ err e
  ],
)

-- `FredConnectionManager::create`
pub create_manager : FredLibrary → RedissonConfig → Made FredConnectionManager
unfolding new_service
create_manager f config =
    let settings = client_settings f config in
    let command =
      publish_command config.mode config.sharded_subscription_mode f.shardnumsub_answered in
    try_step (makes_pool settings config.pool_size) (f.pool_made settings config.pool_size) no_pool
      (try_step connects_pool f.pool_connects no_connection (
        after
          (listens_cluster_change
            ∷ listens_reconnect
            ∷ asks config.mode config.sharded_subscription_mode)
          (with_service
            (record {
              pool = settings;
              pool_size = config.pool_size;
              subscribe_service = none;
              config = config;
              read_mode = config.read_mode;
            })
            (new_service f config command))))

pub record Redisson : Type 0 where
  pub connection_manager : FredConnectionManager
  pub command_executor : CommandAsyncInner
  pub config : RedissonConfig

-- `Redisson::create`
pub create : FredLibrary → RedissonConfig → Made Redisson
unfolding create_manager
create f config =
    let (steps, made) = create_manager f config in
    (
      steps,
      elim made [
        | err e ↦ err e
        | ok m ↦ ok (record {
          connection_manager = m;
          command_executor = Async.new m.config;
          config = config;
        })
      ],
    )

abbrev pub get_pattern_topic : String → PatternTopic
get_pattern_topic pattern = Topic.new pattern
