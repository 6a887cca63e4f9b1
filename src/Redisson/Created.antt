-- ===== src/Redisson/Created.antt =====
-- A client that has been created (redisson-rs/src/redisson.rs) and used to listen.
use redisson_rs.Base.{
  ◌≡◌, refl, ap, ◌∙◌, String, true, false, ◌&&◌, some, arith, ◌==◌, nat_eq, string_eq,
  if◌then◌else◌, ok,
}
use redisson_rs.Config.{RedissonConfig}
use redisson_rs.Connection.{publish_command}
use redisson_rs.Glob.{redis_glob_matches}
use redisson_rs.PubSub.{World, is_keyspace, ListenerId, init, subscribing, psubscribe}
use redisson_rs.PubSub.Topic.{add_listener, add_listener-first, listening}
use redisson_rs.PubSub.Dispatch.{pmessage, dispatch, calls, calls-dispatch}
use redisson_rs.Command.Async
use redisson_rs.Redisson.{
  FredLibrary, PublishSubscribeService, Redisson, client_settings, new_service, create_manager,
  create, get_pattern_topic,
}

module _ (f : FredLibrary) (config : RedissonConfig) where
  abbrev service : PublishSubscribeService
  service = record {
    subscriber = client_settings f config;
    publish_command =
        publish_command config.mode config.sharded_subscription_mode f.shardnumsub_answered;
    listeners = init config.mode;
  }

  abbrev client : Redisson
  client = record {
    connection_manager = record {
      pool = client_settings f config;
      pool_size = config.pool_size;
      subscribe_service = some service;
      config = config;
      read_mode = config.read_mode;
    };
    command_executor = Async.new config;
    config = config;
  }

  create-client :
      f.pool_made (client_settings f config) config.pool_size ≡ true
      → f.pool_connects ≡ true
      → f.subscriber_connects ≡ true
      → (create f config).1 ≡ ok client
  unfolding create create_manager new_service
  create-client made connects joins = ground (arith, made, connects, joins)

  -- When fred makes the pool and both clients connect, a client is created. A listener added to its
  -- topic of a pattern that is no keyspace channel, if the server accepts the subscription, is called
  -- by a pattern message once when the pattern matches the channel, and not otherwise; nothing else is
  -- called.
  pub create-add_listener-dispatch :
      {M : Type 0} (w : World) (pattern channel : String) (id l : ListenerId) (p : String)
      (value : M)
      → f.pool_made (client_settings f config) config.pool_size ≡ true
      → f.pool_connects ≡ true
      → f.subscriber_connects ≡ true
      → is_keyspace pattern ≡ false
      → w.accepts (subscribing psubscribe pattern) ≡ true
      → (r : Redisson) × (s : PublishSubscribeService) × ((create f config).1 ≡ ok r)
        × (r.connection_manager.subscribe_service ≡ some s)
        × ((add_listener w (get_pattern_topic pattern) id s.listeners).1 ≡ ok id)
        × (calls l p (
              dispatch pmessage channel value
                (add_listener w (get_pattern_topic pattern) id s.listeners).0.service)
            ≡ (if id == l && pattern == p && redis_glob_matches pattern channel then 1 else 0))
  create-add_listener-dispatch w pattern channel id l p value made connects joins plain fine =
      let (stands, succeeds) = add_listener-first w config.mode pattern id plain fine in
      (
        client,
        service,
        create-client made connects joins,
        refl,
        succeeds,
        ap (λ s. calls l p (dispatch pmessage channel value s)) stands
            ∙ calls-dispatch l p channel value (listening config.mode pattern id)
            ∙ ground (arith, string_eq.beq_iff pattern p),
      )
