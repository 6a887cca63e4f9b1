-- ===== src/PubSub/Mode.antt =====
-- The calls of `PublishSubscribeService` (redisson-rs/src/pubsub/publish_subscribe_service.rs) that
-- change its listener maps, and the server's mode that the service keeps.
use redisson_rs.Base.{
  ◌≡◌, refl, ap, ◌∙◌, inl, inr, Bool, true, false, List, [], ◌∷◌, arith, string_eq, Result, ok, err,
  Bool-cases,
}
use redisson_rs.Base.Assoc.{insert, contains_key}
use redisson_rs.PubSub.{
  ChannelName, is_keyspace, ListenerId, Service, World, Request, punsubscribe, listener_map,
  do_psubscribe, psubscribe_begin, psubscribe_end, clear_listeners, with_listener_map,
  with_unsub_map, Listeners, Drops, push_dropped, goes_to_nodes, is_cluster, UnsubscribeType,
  unsubscribe, sunsubscribe, PubSubError, Reply, drop_all,
}
use redisson_rs.PubSub.Subscribe.{do_psubscribe-known, do_psubscribe-new, settle}

with_map-mode : (k : Bool) (m : Listeners) (s : Service) → (with_listener_map k m s).mode ≡ s.mode
unfolding with_listener_map
with_map-mode true m s = refl
with_map-mode false m s = refl

settle-mode :
    (name : ChannelName) (s : Service) (asked : Result PubSubError (List Request × Reply))
    → (settle name s asked).service.mode ≡ s.mode
unfolding psubscribe_end clear_listeners
settle-mode name s (err e) = refl
settle-mode name s (ok (rs, answer)) =
    ground (
      arith,
      with_map-mode (is_keyspace name) (insert name [] (listener_map (is_keyspace name) s)) s,
    )

pub begin-mode :
    (name : ChannelName) (ls : List ListenerId) (s : Service)
    → (psubscribe_begin name ls s).0.mode ≡ s.mode
unfolding psubscribe_begin
begin-mode name ls s = with_map-mode (is_keyspace name) _ s

pub do_psubscribe-mode :
    (w : World) (name : ChannelName) (ls : List ListenerId) (s : Service)
    → (do_psubscribe w name ls s).service.mode ≡ s.mode
do_psubscribe-mode w name ls s =
    elim (Bool-cases (contains_key name (listener_map (is_keyspace name) s))) [
      | inl known ↦ rw (do_psubscribe-known w name ls s known) (begin-mode name ls s)
      | inr new ↦
          rw (do_psubscribe-new w name ls s new) (settle-mode name _ _ ∙ begin-mode name ls s)
    ]

pub with_unsub_map-mode :
    (type : UnsubscribeType) (k : Bool) (m : Listeners) (s : Service)
    → (with_unsub_map type k m s).mode ≡ s.mode
unfolding with_unsub_map
with_unsub_map-mode unsubscribe k m s = refl
with_unsub_map-mode sunsubscribe k m s = refl
with_unsub_map-mode punsubscribe true m s = refl
with_unsub_map-mode punsubscribe false m s = refl

push_dropped-service :
    (flag to_nodes : Bool) (name : ChannelName) (rest : Drops)
    → (push_dropped flag to_nodes name rest).0 ≡ rest.0
push_dropped-service false to_nodes name rest = refl
push_dropped-service true true name rest = refl
push_dropped-service true false name rest = refl

pub drop_all-mode :
    (type : UnsubscribeType) (ids : List ListenerId) (names : List ChannelName) (s : Service)
    → (drop_all type ids names s).0.mode ≡ s.mode
unfolding drop_all
drop_all-mode type ids [] s = refl
drop_all-mode type ids (name ∷ names) s =
    ap (λ (r : Service). r.mode) (push_dropped-service _ (goes_to_nodes type s.mode name) name _)
    ∙ drop_all-mode type ids names _
    ∙ with_unsub_map-mode type (is_keyspace name) _ s

push_dropped-keyspace :
    (flag : Bool) (name : ChannelName) (rest : Drops)
    → (push_dropped flag false name rest).2 ≡ rest.2
push_dropped-keyspace false name rest = refl
push_dropped-keyspace true name rest = refl

-- Outside cluster mode no channel goes to the nodes.
pub drop_all-keyspace :
    (ids : List ListenerId) (names : List ChannelName) (s : Service)
    → is_cluster s.mode ≡ false
    → (drop_all punsubscribe ids names s).2 ≡ []
unfolding drop_all
drop_all-keyspace ids [] s single = refl
drop_all-keyspace ids (name ∷ names) s single = rw single (
    push_dropped-keyspace _ name _
    ∙ drop_all-keyspace ids names _
        (ap is_cluster (with_unsub_map-mode punsubscribe (is_keyspace name) _ s) ∙ single))
