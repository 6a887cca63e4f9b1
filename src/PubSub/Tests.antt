-- ===== src/PubSub/Tests.antt =====
-- Runs of the service, and its theorems at concrete services.
use redisson_rs.Base.{
  ◌≡◌, refl, String, true, false, none, [], ◌∷◌, ◌==◌, string_eq, if◌then◌else◌, is_some,
}
use redisson_rs.Base.Assoc.{lookup, contains_key, insert}
use redisson_rs.Config.{ServerMode, standalone, cluster}
use redisson_rs.Config.Client.{Server}
use redisson_rs.Glob.{redis_glob_matches}
use redisson_rs.PubSub.{
  Service, World, init, is_keyspace, punsubscribe, listener_map, with_listener_map, unsub_map,
  do_psubscribe, remove_listener,
}
use redisson_rs.PubSub.Subscribe.{heard_after, cleans, do_psubscribe-lookup}
use redisson_rs.PubSub.Unsubscribe.{heard, named, pruned, remove_listener-heard}
use redisson_rs.PubSub.Synced.{Reach, start, listen, serve}
use redisson_rs.PubSub.Dispatch.{
  KeyspaceEvent, pmessage, dispatch, dispatch_keyspace, calls, registrations, calls-dispatch,
  calls-dispatch_keyspace,
}
use redisson_rs.PubSub.Reconnect.{on_reconnect, on_reconnect-restores}
use redisson_rs.PubSub.Topic.{
  PatternTopic, add_pubsub_listener, add_listener, remove_listeners, remove-add,
}
use redisson_rs.PubSub.Topic

abbrev mode : ServerMode
mode = standalone (record { host = "localhost"; port = 6379 }) 0

abbrev willing : World
willing = record { accepts = λ r. true; entry_set = none; finish_order = λ rs. rs }

abbrev unwilling : World
unwilling = record { accepts = λ r. false; entry_set = none; finish_order = λ rs. rs }

-- Two patterns that overlap, with a listener each.
abbrev news : Service
news = record {
  mode = mode;
  pattern_listeners = ("news.*", 1 ∷ []) ∷ ("*.it", 2 ∷ []) ∷ [];
  keyspace_pattern_listeners = [];
  channel_listeners = [];
  shard_channel_listeners = [];
}

news_reached :
    (do_psubscribe willing "*.it"
      (2 ∷ [])
      (do_psubscribe willing "news.*" (1 ∷ []) (init mode)).service).service
    ≡ news
unfolding do_psubscribe listener_map with_listener_map init lookup contains_key insert
news_reached = refl

do_psubscribe-lookup_example :
    (let after = (do_psubscribe unwilling "news.*" (3 ∷ []) news).service in
      ((j : String)
        → lookup j (listener_map (is_keyspace "news.*") after) ≡ (
            if "news.*" == j
            then heard_after
                (lookup "news.*" (listener_map (is_keyspace "news.*") news))
                (3 ∷ [])
                (cleans unwilling "news.*" news)
            else lookup j (listener_map (is_keyspace "news.*") news)))
      × (listener_map true after ≡ listener_map true news))
do_psubscribe-lookup_example = do_psubscribe-lookup unwilling "news.*" (3 ∷ []) news

remove_listener-heard_example :
    heard punsubscribe "*.it"
      (remove_listener willing punsubscribe ("*.it" ∷ []) (2 ∷ []) news).service
    ≡ (if named "*.it" ("*.it" ∷ [])
        then pruned (2 ∷ []) (heard punsubscribe "*.it" news)
        else heard punsubscribe "*.it" news)
remove_listener-heard_example =
    remove_listener-heard willing punsubscribe ("*.it" ∷ []) (2 ∷ []) news "*.it"

listened :
    Reach
      (do_psubscribe willing "news.*" (1 ∷ []) (init mode)).service
      (serve willing (do_psubscribe willing "news.*" (1 ∷ []) (init mode)).sent (λ j. false))
unfolding do_psubscribe init contains_key listener_map
listened = listen willing "news.*" (1 ∷ []) (start mode refl) refl

calls-dispatch_example :
    calls 1 "news.*" (dispatch {M = String} pmessage "news.it" "hello" news) ≡ (
      if redis_glob_matches "news.*" "news.it"
      then registrations 1 "news.*" news.pattern_listeners
      else 0)
calls-dispatch_example = calls-dispatch {M = String} 1 "news.*" "news.it" "hello" news

abbrev expired : KeyspaceEvent
expired = record { db = "0"; operation = "expired"; key = "session" }

abbrev watching : Service
watching = record {
  mode = mode;
  pattern_listeners = [];
  keyspace_pattern_listeners = ("__keyevent@*:expired", 7 ∷ []) ∷ [];
  channel_listeners = [];
  shard_channel_listeners = [];
}

calls-dispatch_keyspace_example :
    calls 7 "__keyevent@*:expired" (dispatch_keyspace {M = String} (λ t. t) expired watching) ≡ (
      if redis_glob_matches "__keyevent@*:expired" "__keyevent@0__:expired"
      then registrations 7 "__keyevent@*:expired" watching.keyspace_pattern_listeners
      else 0)
calls-dispatch_keyspace_example =
    calls-dispatch_keyspace {M = String} (λ t. t) 7 "__keyevent@*:expired" expired watching

abbrev node : Server
node = record { host = "first"; port = 7000 }

-- A cluster with a keyspace channel that has a listener.
abbrev clustered : Service
clustered = record {
  mode = cluster (record { host = "first"; port = 7000 } ∷ []);
  pattern_listeners = [];
  keyspace_pattern_listeners = ("__keyspace@0__:*", 1 ∷ []) ∷ [];
  channel_listeners = [];
  shard_channel_listeners = [];
}

on_reconnect-restores_example :
    serve willing (on_reconnect node clustered) (λ _. false) "__keyspace@0__:*"
    ≡ is_some (lookup "__keyspace@0__:*" clustered.keyspace_pattern_listeners)
on_reconnect-restores_example =
    on_reconnect-restores willing node clustered "__keyspace@0__:*" refl refl

abbrev topic : PatternTopic
topic = Topic.new "news.*"

remove-add_example :
    heard punsubscribe "news.*"
      (remove_listeners unwilling topic
        (7 ∷ [])
        (add_listener willing topic 7 news).0.service).service
    ≡ heard punsubscribe "news.*" news
unfolding do_psubscribe add_pubsub_listener lookup contains_key unsub_map
remove-add_example = remove-add willing unwilling topic 7 news "news.*" refl refl
