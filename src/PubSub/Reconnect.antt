-- ===== src/PubSub/Reconnect.antt =====
-- The task of `PublishSubscribeService::new`
-- (redisson-rs/src/pubsub/publish_subscribe_service.rs) that subscribes a reconnected node again to
-- the keyspace channels.
use redisson_rs.Base.{
  true, false, List, [], ◌∷◌, map, is_some, if◌then◌else◌, string_eq, arith, ◌≡◌, refl,
}
use redisson_rs.Base.Assoc.{lookup}
use redisson_rs.Config.Client.{Server}
use redisson_rs.PubSub.{
  ChannelName, ListenerId, Listeners, Service, World, Request, psubscribe_all_on, is_cluster,
}
use redisson_rs.PubSub.Synced.{serve}
use redisson_rs.PubSub.Unsubscribe.{named}

-- The keys of the map.
abbrev pub patterns : Listeners → List ChannelName
patterns m = map (λ (p : ChannelName × List ListenerId). p.0) m

abbrev ask_all : Server → List ChannelName → List Request
ask_all server [] = []
ask_all server (name ∷ names) = psubscribe_all_on server (name ∷ names) ∷ []

-- What a reconnection of the node makes it send.
pub on_reconnect : Server → Service → List Request
on_reconnect server s =
    if is_cluster s.mode then ask_all server (patterns s.keyspace_pattern_listeners) else []

named-patterns : (j : ChannelName) (m : Listeners) → named j (patterns m) ≡ is_some (lookup j m)
unfolding lookup
named-patterns j [] = refl
named-patterns j ((name, ls) ∷ m) = ground (arith, named-patterns j m)

serve_all :
    (w : World) (server : Server) (names : List ChannelName) (j : ChannelName)
    → w.accepts (psubscribe_all_on server names) ≡ true
    → serve w (ask_all server names) (λ _. false) j ≡ named j names
serve_all w server [] j fine = refl
serve_all w server (name ∷ names) j fine = ground (arith, fine)

-- In a cluster, a node that lost its subscriptions has, after it reconnected and took the request, a
-- subscription to exactly the keyspace channels that the service has listeners or an entry for.
pub on_reconnect-restores :
    (w : World) (server : Server) (s : Service) (j : ChannelName)
    → is_cluster s.mode ≡ true
    → w.accepts (psubscribe_all_on server (patterns s.keyspace_pattern_listeners)) ≡ true
    → serve w (on_reconnect server s) (λ _. false) j
      ≡ is_some (lookup j s.keyspace_pattern_listeners)
unfolding on_reconnect
on_reconnect-restores w server s j clustered fine = simp clustered (
    rw (serve_all w server (patterns s.keyspace_pattern_listeners) j fine)
      (named-patterns j s.keyspace_pattern_listeners))
