-- ===== src/PubSub/Unsubscribe.antt =====
-- What `remove_listener` of redisson-rs/src/pubsub/publish_subscribe_service.rs leaves, and which
-- channels it unsubscribes from.
use redisson_rs.Base.{
  ◌≡◌, refl, ap, ◌∙◌, Bool, true, false, not, ◌&&◌, ◌||◌, Option, none, some, List, [], ◌∷◌, ◌++◌,
  arith, is_some, is_empty, any, retain, ◌==◌, string_eq, nat_eq, if◌then◌else◌,
}
use redisson_rs.Base.Assoc.{lookup, lookup-insert, lookup-remove}
use redisson_rs.PubSub.{
  ChannelName, is_keyspace, ListenerId, Listeners, Service, World, remove_listener, UnsubscribeType,
  unsubscribe, punsubscribe, sunsubscribe, unsub_map, with_unsub_map, keep, contains, drop_from,
  drop_all, goes_to_nodes, or_default, Drops, push_dropped,
}

-- The listeners of a named channel once the ids are gone; a channel with none is taken out.
abbrev pub pruned : List ListenerId → Option (List ListenerId) → Option (List ListenerId)
pruned ids none = none
pruned ids (some ls) = if is_empty (keep ids ls) then none else some (keep ids ls)

pub pruned-is_some :
    (ids : List ListenerId) (o : Option (List ListenerId))
    → is_some (pruned ids o) ≡ true
    → is_some o ≡ true
pruned-is_some ids none h = h
pruned-is_some ids (some ls) h = refl

retain_idem : (p : ListenerId → Bool) (ls : List ListenerId) → retain p (retain p ls) ≡ retain p ls
retain_idem p [] = refl
retain_idem p (l ∷ ls) = ground (arith, retain_idem p ls)

pruned_idem :
    (ids : List ListenerId) (o : Option (List ListenerId))
    → pruned ids (pruned ids o) ≡ pruned ids o
pruned_idem ids none = refl
pruned_idem ids (some ls) = ground (arith, retain_idem (λ l. not (contains ids l)) ls)

lookup-drop_from :
    (ids : List ListenerId) (name j : ChannelName) (m : Listeners)
    → lookup j (drop_from ids name m).0
      ≡ (if name == j then pruned ids (lookup j m) else lookup j m)
unfolding drop_from
lookup-drop_from ids name j m = ground (
  arith,
  string_eq.beq_iff name j,
  lookup-remove name j m,
  lookup-insert name j (keep ids (or_default (lookup name m))) m,
)

-- The flag says that the channel was there and is no more.
drop_from-dropped :
    (ids : List ListenerId) (name : ChannelName) (m : Listeners)
    → (drop_from ids name m).1
      ≡ (is_some (lookup name m) && not (is_some (pruned ids (lookup name m))))
unfolding drop_from
drop_from-dropped ids name m = ground arith

-- One turn of the loop, seen at a channel `j`: another channel of the same map, or of another map,
-- keeps its listeners.
drop_one-lookup :
    (type : UnsubscribeType) (k k' : Bool) (ids : List ListenerId) (name j : ChannelName)
    (s : Service)
    → ((name == j) ≡ true → k ≡ k')
    → lookup j
        (unsub_map type k' (with_unsub_map type k (drop_from ids name (unsub_map type k s)).0 s))
      ≡ (if name == j
          then pruned ids (lookup j (unsub_map type k' s))
          else lookup j (unsub_map type k' s))
unfolding unsub_map with_unsub_map
drop_one-lookup unsubscribe k k' ids name j s h = lookup-drop_from ids name j s.channel_listeners
drop_one-lookup sunsubscribe k k' ids name j s h =
    lookup-drop_from ids name j s.shard_channel_listeners
drop_one-lookup punsubscribe true true ids name j s h =
    lookup-drop_from ids name j s.keyspace_pattern_listeners
drop_one-lookup punsubscribe false false ids name j s h =
    lookup-drop_from ids name j s.pattern_listeners
drop_one-lookup punsubscribe true false ids name j s h = ground (arith, h)
drop_one-lookup punsubscribe false true ids name j s h = ground (arith, h)

-- The channel's listeners in the map that the type and the channel choose.
abbrev pub heard : UnsubscribeType → ChannelName → Service → Option (List ListenerId)
heard type j s = lookup j (unsub_map type (is_keyspace j) s)

abbrev pub named : ChannelName → List ChannelName → Bool
named j names = any (λ n. n == j) names

abbrev next : UnsubscribeType → List ListenerId → ChannelName → Service → Service
next type ids name s =
    with_unsub_map type (is_keyspace name)
      (drop_from ids name (unsub_map type (is_keyspace name) s)).0 s

heard-next :
    (type : UnsubscribeType) (ids : List ListenerId) (name j : ChannelName) (s : Service)
    → heard type j (next type ids name s)
      ≡ (if name == j then pruned ids (heard type j s) else heard type j s)
heard-next type ids name j s =
    drop_one-lookup type (is_keyspace name) (is_keyspace j) ids name j s
      (λ e. ap is_keyspace ((string_eq.beq_iff name j).0 e))

drop_all-service :
    (type : UnsubscribeType) (ids : List ListenerId) (name : ChannelName) (names : List ChannelName)
    (s : Service)
    → (drop_all type ids (name ∷ names) s).0 ≡ (drop_all type ids names (next type ids name s)).0
unfolding drop_all
drop_all-service type ids name names s = ground arith

pub drop_all-heard :
    (type : UnsubscribeType) (ids : List ListenerId) (names : List ChannelName) (s : Service)
    (j : ChannelName)
    → heard type j (drop_all type ids names s).0
      ≡ (if named j names then pruned ids (heard type j s) else heard type j s)
unfolding drop_all
drop_all-heard type ids [] s j = refl
drop_all-heard type ids (name ∷ names) s j =
    ap (heard type j) (drop_all-service type ids name names s)
    ∙ drop_all-heard type ids names (next type ids name s) j
    ∙ ground (arith, heard-next type ids name j s, pruned_idem ids (heard type j s))

-- The two lists of channels to unsubscribe from, as one.
abbrev pub channels : Drops → List ChannelName
channels (s, normal, keyspace) = normal ++ keyspace

abbrev dropped : UnsubscribeType → List ListenerId → List ChannelName → Service → List ChannelName
dropped type ids names s = channels (drop_all type ids names s)

any-append :
    (f : ChannelName → Bool) (xs ys : List ChannelName) → any f (xs ++ ys) ≡ (any f xs || any f ys)
any-append f [] ys = refl
any-append f (x ∷ xs) ys = ground (arith, any-append f xs ys)

push_dropped-named :
    (flag to_nodes : Bool) (name : ChannelName) (rest : Drops) (j : ChannelName)
    → named j (channels (push_dropped flag to_nodes name rest))
      ≡ (((name == j) && flag) || named j (channels rest))
push_dropped-named false to_nodes name rest j = ground arith
push_dropped-named true true name (s, normal, keyspace) j = ground (
  arith,
  any-append (λ n. n == j) normal (name ∷ keyspace),
  any-append (λ n. n == j) normal keyspace,
)
push_dropped-named true false name (s, normal, keyspace) j = ground arith

named-dropped :
    (type : UnsubscribeType) (ids : List ListenerId) (name : ChannelName) (names : List ChannelName)
    (s : Service) (j : ChannelName)
    → named j (dropped type ids (name ∷ names) s) ≡ (
        ((name == j) && (drop_from ids name (unsub_map type (is_keyspace name) s)).1)
        || named j (dropped type ids names (next type ids name s)))
unfolding drop_all
named-dropped type ids name names s j =
    push_dropped-named (drop_from ids name (unsub_map type (is_keyspace name) s)).1
      (goes_to_nodes type s.mode name) name (drop_all type ids names (next type ids name s)) j

pub dropped_iff :
    (type : UnsubscribeType) (ids : List ListenerId) (names : List ChannelName) (s : Service)
    (j : ChannelName)
    → named j (dropped type ids names s)
      ≡ (is_some (heard type j s) && not (is_some (heard type j (drop_all type ids names s).0)))
dropped_iff type ids [] s j = unfold drop_all in ground arith
dropped_iff type ids (name ∷ names) s j =
    named-dropped type ids name names s j
    ∙ ground (
      arith,
      drop_from-dropped ids name (unsub_map type (is_keyspace name) s),
      dropped_iff type ids names (next type ids name s) j,
      heard-next type ids name j s,
      drop_all-heard type ids names (next type ids name s) j,
      drop_all-heard type ids (name ∷ names) s j,
      pruned_idem ids (heard type j s),
      string_eq.beq_iff name j,
    )

pub remove_listener-service :
    (w : World) (type : UnsubscribeType) (names : List ChannelName) (ids : List ListenerId)
    (s : Service)
    → (remove_listener w type names ids s).service ≡ (drop_all type ids names s).0
unfolding remove_listener
remove_listener-service w type names ids s = refl

-- After `remove_listener`, whatever the server answers, every named channel has its listeners
-- without the ids, and is gone from its map when none is left; every other channel of the kind is as
-- before.
pub remove_listener-heard :
    (w : World) (type : UnsubscribeType) (names : List ChannelName) (ids : List ListenerId)
    (s : Service) (j : ChannelName)
    → heard type j (remove_listener w type names ids s).service
      ≡ (if named j names then pruned ids (heard type j s) else heard type j s)
remove_listener-heard w type names ids s j =
    rw (remove_listener-service w type names ids s) (drop_all-heard type ids names s j)
