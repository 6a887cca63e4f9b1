-- ===== src/PubSub.antt =====
-- `PublishSubscribeService` of redisson-rs/src/pubsub/publish_subscribe_service.rs: which listeners
-- hear which channel, and what is asked of the server for it. `ChannelName`
-- (redisson-rs/src/client/channel_name.rs) is a newtype of its text. A listener is known by the
-- address of its `Arc`, its `ListenerId` (redisson-rs/src/client/listener_id.rs).
pub mod Subscribe
pub mod Unsubscribe
pub mod Mode
pub mod Heard
pub mod Synced
pub mod Tasks
pub mod Dispatch
pub mod Reconnect
pub mod Topic
pub mod RedissonLockEntry
mod Tests
use text.Mathlib.Text.{starts_with}
use redisson_rs.Base.{
  ℕ, String, Bool, true, false, not, ◌&&◌, ◌||◌, Option, none, some, List, [], ◌∷◌, ◌++◌, map, any,
  is_empty, retain, ◌==◌, nat_eq, string_eq, if◌then◌else◌, Result, ok, err, ◌>>=◌, is_err,
}
use redisson_rs.Base.Assoc.{Assoc, lookup, contains_key, insert, remove}
use redisson_rs.Config.{ServerMode, standalone, cluster, sentinel}
use redisson_rs.Config.Client.{Server}

abbrev pub ChannelName : Type 0
ChannelName = String

-- `ChannelName::is_keyspace`
abbrev pub is_keyspace : ChannelName → Bool
is_keyspace name = starts_with name "__keyspace" || starts_with name "__keyevent"

abbrev pub ListenerId : Type 0
ListenerId = ℕ

-- `matches!(mode, ServerMode::Cluster { .. })`
abbrev pub is_cluster : ServerMode → Bool
is_cluster (standalone _ _) = false
is_cluster (cluster _) = true
is_cluster (sentinel _ _ _ _ _) = false

abbrev pub Listeners : Type 0
Listeners = Assoc ChannelName (List ListenerId)

-- The fields that the operations read or write.
pub record Service : Type 0 where
  pub mode : ServerMode
  pub pattern_listeners : Listeners
  pub keyspace_pattern_listeners : Listeners
  pub channel_listeners : Listeners
  pub shard_channel_listeners : Listeners

-- The maps that `new` begins with.
pub init : ServerMode → Service
init mode = record {
  mode = mode;
  pattern_listeners = [];
  keyspace_pattern_listeners = [];
  channel_listeners = [];
  shard_channel_listeners = [];
}

-- redisson-rs/src/client/protocol/pubsub/pubsub_type.rs
pub data SubscribeType : Type 0 where
  subscribe psubscribe ssubscribe : SubscribeType

pub data UnsubscribeType : Type 0 where
  unsubscribe punsubscribe sunsubscribe : UnsubscribeType

-- What the subscriber client is asked to do: of the whole deployment, or of one cluster node.
pub data Request : Type 0 where
  subscribing : SubscribeType → ChannelName → Request
  unsubscribing : UnsubscribeType → List ChannelName → Request
  psubscribe_on : Server → ChannelName → Request
  punsubscribe_on : Server → List ChannelName → Request
  psubscribe_all_on : Server → List ChannelName → Request

pub data PubSubError : Type 0 where
  refused : Request → PubSubError
  manager_dropped : PubSubError

-- The world outside: whether a request succeeds, the primaries that the connection manager knows
-- (`none` when it has been dropped), and the order in which the tasks of a `JoinSet` finish.
pub record World : Type 0 where
  pub accepts : Request → Bool
  pub entry_set : Option (List Server)
  pub finish_order : List Request → List Request

abbrev pub Reply : Type 0
Reply = Result PubSubError (Unit {0})

abbrev pub reply : World → Request → Reply
reply w r = if w.accepts r then ok tt else err (refused r)

-- `join_all`: the first error in order of completion, after all have finished.
pub first_error : World → List Request → Reply
first_error w [] = ok tt
first_error w (r ∷ rs) = if w.accepts r then first_error w rs else err (refused r)

pub join_all : World → List Request → Reply
unfolding first_error
join_all w rs = first_error w (w.finish_order rs)

-- `subscription_entry_set`
pub subscription_entry_set : World → Result PubSubError (List Server)
subscription_entry_set w = elim w.entry_set [ none ↦ err manager_dropped | some es ↦ ok es ]

-- A call ends with the service, the requests that it sent, in order, and its result.
pub record Outcome : Type 0 where
  pub service : Service
  pub sent : List Request
  pub result : Reply

-- The map of `psubscribe`.
pub listener_map : Bool → Service → Listeners
listener_map true s = s.keyspace_pattern_listeners
listener_map false s = s.pattern_listeners

pub with_listener_map : Bool → Listeners → Service → Service
with_listener_map true m s = record s { keyspace_pattern_listeners = m }
with_listener_map false m s = record s { pattern_listeners = m }

-- `map.entry(k).or_default()`, read.
abbrev pub or_default : Option (List ListenerId) → List ListenerId
or_default none = []
or_default (some ls) = ls

-- `psubscribe` up to its first wait: the listeners are put down at once. The flag says whether the
-- channel was there, in which case the call returns.
pub psubscribe_begin : ChannelName → List ListenerId → Service → Service × Bool
unfolding listener_map with_listener_map
psubscribe_begin name ls s =
    let keyspace = is_keyspace name in
    let m = listener_map keyspace s in
    (
      with_listener_map keyspace (insert name (or_default (lookup name m) ++ ls) m) s,
      contains_key name m,
    )

-- `get_mut(name)` and `clear`.
pub clear_listeners : ChannelName → Service → Service
unfolding listener_map with_listener_map
clear_listeners name s =
    let keyspace = is_keyspace name in
    let m = listener_map keyspace s in
    if contains_key name m then with_listener_map keyspace (insert name [] m) s else s

-- `psubscribe` after the server has answered.
pub psubscribe_end : ChannelName → Reply → Service → Service
psubscribe_end name result s = if is_err result then clear_listeners name s else s

-- The wait between: to every node for a keyspace channel of a cluster, else once.
pub ask_subscribe : World → ChannelName → ServerMode → Result PubSubError (List Request × Reply)
ask_subscribe w name mode =
    if is_cluster mode && is_keyspace name
    then (do
      entries ← subscription_entry_set w
      let rs = map (λ server. psubscribe_on server name) entries
      ok (rs, join_all w rs))
    else (let r = subscribing psubscribe name in ok (r ∷ [], reply w r))

-- `psubscribe` with nothing else in between. The `?` on the entry set returns before the clean-up.
pub do_psubscribe : World → ChannelName → List ListenerId → Service → Outcome
unfolding psubscribe_begin ask_subscribe psubscribe_end
do_psubscribe w name ls s =
    let (begun, already) = psubscribe_begin name ls s in
    if already
    then record { service = begun; sent = []; result = ok tt }
    else (elim (ask_subscribe w name s.mode) [
      | err e ↦ record { service = begun; sent = []; result = err e }
      | ok (rs, answer) ↦ record {
        service = psubscribe_end name answer begun;
        sent = rs;
        result = answer;
      }
    ])

-- The map of `remove_listener`.
pub unsub_map : UnsubscribeType → Bool → Service → Listeners
unsub_map punsubscribe true s = s.keyspace_pattern_listeners
unsub_map punsubscribe false s = s.pattern_listeners
unsub_map unsubscribe _ s = s.channel_listeners
unsub_map sunsubscribe _ s = s.shard_channel_listeners

pub with_unsub_map : UnsubscribeType → Bool → Listeners → Service → Service
with_unsub_map punsubscribe true m s = record s { keyspace_pattern_listeners = m }
with_unsub_map punsubscribe false m s = record s { pattern_listeners = m }
with_unsub_map unsubscribe _ m s = record s { channel_listeners = m }
with_unsub_map sunsubscribe _ m s = record s { shard_channel_listeners = m }

-- `MultipleListenerIds::contains`
abbrev pub contains : List ListenerId → ListenerId → Bool
contains ids l = any (λ i. i == l) ids

-- What is left on a channel once the ids are gone.
abbrev pub keep : List ListenerId → List ListenerId → List ListenerId
keep ids ls = retain (λ l. not (contains ids l)) ls

-- One turn of the loop: the new map, and whether the channel became empty and was taken out.
pub drop_from : List ListenerId → ChannelName → Listeners → Listeners × Bool
drop_from ids name m = elim (lookup name m) [
  | none ↦ (m, false)
  | some ls ↦
      let left = keep ids ls in
      if is_empty left then (remove name m, true) else (insert name left m, false)
]

abbrev pub goes_to_nodes : UnsubscribeType → ServerMode → ChannelName → Bool
goes_to_nodes punsubscribe mode name = is_cluster mode && is_keyspace name
goes_to_nodes unsubscribe mode name = false
goes_to_nodes sunsubscribe mode name = false

-- What the loop gathers: the normal channels to unsubscribe from and those of cluster keyspace.
abbrev pub Drops : Type 0
Drops = Service × List ChannelName × List ChannelName

-- `keyspace_unsub.push` or `normal_unsub.push`, when the channel was dropped.
abbrev pub push_dropped : (dropped to_nodes : Bool) → ChannelName → Drops → Drops
push_dropped false to_nodes name rest = rest
push_dropped true true name (s, normal, keyspace) = (s, normal, name ∷ keyspace)
push_dropped true false name (s, normal, keyspace) = (s, name ∷ normal, keyspace)

-- The loop, which puts each dropped channel before those of the later turns.
pub drop_all : UnsubscribeType → List ListenerId → List ChannelName → Service → Drops
drop_all type ids [] s = (s, [], [])
drop_all type ids (name ∷ names) s =
    let (m, dropped) = drop_from ids name (unsub_map type (is_keyspace name) s) in
    push_dropped dropped (goes_to_nodes type s.mode name) name
      (drop_all type ids names (with_unsub_map type (is_keyspace name) m s))

-- The requests after the loop; an error in the first leaves the second out.
pub ask_unsubscribe :
    World → UnsubscribeType → List ChannelName → List ChannelName → List Request × Reply
ask_unsubscribe w type normal keyspace =
    let r = unsubscribing type normal in
    let first : List Request × Reply =
      if is_empty normal then ([], ok tt) else (r ∷ [], reply w r) in
    let second : List Request × Reply =
      if is_empty keyspace then ([], ok tt) else (elim (subscription_entry_set w) [
        | err e ↦ ([], err e)
        | ok entries ↦
            let rs = map (λ server. punsubscribe_on server keyspace) entries in (rs, join_all w rs)
      ]) in
    if is_err first.1 then first else (first.0 ++ second.0, second.1)

pub remove_listener :
    World → UnsubscribeType → List ChannelName → List ListenerId → Service → Outcome
remove_listener w type names ids s =
    let (s', normal, keyspace) = drop_all type ids names s in
    let (rs, answer) = ask_unsubscribe w type normal keyspace in
    record { service = s'; sent = rs; result = answer }
