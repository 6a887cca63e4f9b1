-- ===== src/Redisson/Tests.antt =====
-- Clients that are created, or not, and the theorem at one.
use redisson_rs.Base.{
  ℕ, ◌≡◌, refl, String, true, false, ◌&&◌, none, some, [], ◌∷◌, ◌==◌, nat_eq, string_eq,
  if◌then◌else◌, ok, err,
}
use redisson_rs.Command.Samples.{cfg}
use redisson_rs.Glob.{redis_glob_matches}
use redisson_rs.PubSub.{World}
use redisson_rs.PubSub.Topic.{add_listener}
use redisson_rs.PubSub.Dispatch.{pmessage, dispatch, calls}
use redisson_rs.Redisson.{
  FredLibrary, PublishSubscribeService, Redisson, client_settings, makes_pool, connects_pool,
  no_connection, create_manager, create, get_pattern_topic,
}
use redisson_rs.Redisson.Created.{create-add_listener-dispatch}

abbrev library : FredLibrary
library = record {
  perf_default = record { default_command_timeout = 10_000 };
  connection_default = record {
    connection_timeout = 10_000;
    max_command_attempts = 3;
    max_redirections = 5;
  };
  pool_made = λ settings size. true;
  pool_connects = true;
  shardnumsub_answered = true;
  subscriber_connects = true;
}

abbrev willing : World
willing = record { accepts = λ r. true; entry_set = none; finish_order = λ rs. rs }

-- Without a connection there is no subscriber.
unreachable : create (record library { pool_connects = false }) cfg ≡ (
  makes_pool (client_settings library cfg) cfg.pool_size ∷ connects_pool ∷ [],
  err no_connection,
)
unfolding create create_manager
unreachable = refl

abbrev me : ℕ
me = 7

abbrev pattern : String
pattern = "news.*"

create-add_listener-dispatch_example :
    (r : Redisson) × (s : PublishSubscribeService) × ((create library cfg).1 ≡ ok r)
    × (r.connection_manager.subscribe_service ≡ some s)
    × ((add_listener willing (get_pattern_topic pattern) me s.listeners).1 ≡ ok me)
    × (calls me pattern (
          dispatch {M = String} pmessage "news.it" "hello"
            (add_listener willing (get_pattern_topic pattern) me s.listeners).0.service)
        ≡ (if me == me && pattern == pattern && redis_glob_matches pattern "news.it" then 1 else 0))
create-add_listener-dispatch_example =
    create-add_listener-dispatch library cfg {M = String} willing pattern "news.it" me me pattern
      "hello" refl refl refl refl refl
