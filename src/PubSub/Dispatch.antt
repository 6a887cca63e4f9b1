-- ===== src/PubSub/Dispatch.antt =====
-- The two dispatch loops that `PublishSubscribeService::new` spawns
-- (redisson-rs/src/pubsub/publish_subscribe_service.rs): which listeners a message from the server
-- reaches. A message's value is of any type `M`; `text_value` stands for fred's `Value::String`.
use Prim.Native.String.{◌++◌ as str_append}
use text.Mathlib.Text.{starts_with}
use redisson_rs.Base.{
  ℕ, suc, ◌+◌, ◌≡◌, ◌∙◌, String, List, [], ◌∷◌, ◌++◌, map, arith, ◌&&◌, ◌==◌, nat_eq, string_eq,
  if◌then◌else◌, Bool-cases, inl, inr,
}
use redisson_rs.Base.Assoc.{lookup}
use redisson_rs.Glob.{redis_glob_matches}
use redisson_rs.PubSub.{ListenerId, Listeners, Service, or_default}

pub data Delivery (M : Type 0) : Type 0 where
  on_pattern_message : ListenerId → (pattern channel : String) → M → Delivery M
  on_message : ListenerId → (channel : String) → M → Delivery M

-- fred's message kinds
pub data MessageKind : Type 0 where
  pmessage message smessage : MessageKind

-- fred's keyspace event, its database number as decimal text
pub record KeyspaceEvent : Type 0 where
  pub db : String
  pub operation : String
  pub key : String

module _ {M : Type 0} where
  -- The listeners of every pattern that matches the channel, with the message, as `read` gives both
  -- for the pattern.
  unfoldable pub deliver_matching : (String → String × M) → Listeners → List (Delivery M)
  deliver_matching read [] = []
  deliver_matching read ((pattern, ls) ∷ m) =
      let (channel, value) = read pattern in
      (if redis_glob_matches pattern channel
        then map (λ l. on_pattern_message l pattern channel value) ls
        else [])
      ++ deliver_matching read m

  -- The body of the first loop.
  unfoldable pub dispatch : MessageKind → String → M → Service → List (Delivery M)
  dispatch pmessage channel value s = deliver_matching (λ _. (channel, value)) s.pattern_listeners
  dispatch message channel value s =
      map (λ l. on_message l channel value) (or_default (lookup channel s.channel_listeners))
  dispatch smessage channel value s =
      map (λ l. on_message l channel value) (or_default (lookup channel s.shard_channel_listeners))

  -- The channel and the message that a keyspace event has for a pattern.
  unfoldable pub event_channel : (String → M) → KeyspaceEvent → String → String × M
  event_channel text_value event pattern =
      if starts_with pattern "__keyevent"
      then (
        str_append "__keyevent@" (str_append event.db (str_append "__:" event.operation)),
        text_value event.key,
      )
      else (
        str_append "__keyspace@" (str_append event.db (str_append "__:" event.key)),
        text_value event.operation,
      )

  -- The body of the second loop.
  unfoldable pub dispatch_keyspace : (String → M) → KeyspaceEvent → Service → List (Delivery M)
  dispatch_keyspace text_value event s =
      deliver_matching (event_channel text_value event) s.keyspace_pattern_listeners

  -- How often a listener is called under a pattern.
  abbrev pub calls : ListenerId → String → List (Delivery M) → ℕ
  calls l p [] = 0
  calls l p (on_pattern_message l' p' channel value ∷ ds) =
      if l' == l && p' == p then suc (calls l p ds) else calls l p ds
  calls l p (on_message l' channel value ∷ ds) = calls l p ds

  calls-append :
      (l : ListenerId) (p : String) (xs ys : List (Delivery M))
      → calls l p (xs ++ ys) ≡ calls l p xs + calls l p ys
  calls-append l p [] ys = omega arith
  calls-append l p (on_pattern_message l' p' channel value ∷ xs) ys =
      ground (arith, calls-append l p xs ys)
  calls-append l p (on_message l' channel value ∷ xs) ys = calls-append l p xs ys

-- How often a listener stands in a list, and under a pattern of a map.
abbrev pub count : ListenerId → List ListenerId → ℕ
count l [] = 0
count l (k ∷ ks) = if k == l then suc (count l ks) else count l ks

abbrev pub registrations : ListenerId → String → Listeners → ℕ
registrations l p [] = 0
registrations l p ((q, ls) ∷ m) =
    if q == p then count l ls + registrations l p m else registrations l p m

module _ {M : Type 0} (read : String → String × M) where
  calls-map :
      (l : ListenerId) (p q channel : String) (value : M) (ls : List ListenerId)
      → calls l p (map (λ k. on_pattern_message k q channel value) ls)
        ≡ (if q == p then count l ls else 0)
  calls-map l p q channel value [] = ground arith
  calls-map l p q channel value (k ∷ ks) = ground (arith, calls-map l p q channel value ks)

  calls-deliver_matching :
      (l : ListenerId) (p : String) (m : Listeners)
      → calls l p (deliver_matching read m)
        ≡ (if redis_glob_matches p (read p).0 then registrations l p m else 0)
  unfolding deliver_matching
  calls-deliver_matching l p [] = ground arith
  calls-deliver_matching l p ((q, ls) ∷ m) = rw (calls-append l p) (
      ground (
        arith,
        calls-map l p q (read q).0 (read q).1 ls,
        calls-deliver_matching l p m,
        string_eq.beq_iff q p,
      ))

-- A pattern message calls each listener, under each pattern that matches the channel, once for each
-- time that it was registered there, and under no other pattern.
pub calls-dispatch :
    {M : Type 0} (l : ListenerId) (p channel : String) (value : M) (s : Service)
    → calls l p (dispatch pmessage channel value s)
      ≡ (if redis_glob_matches p channel then registrations l p s.pattern_listeners else 0)
unfolding dispatch
calls-dispatch l p channel value s =
    calls-deliver_matching (λ _. (channel, value)) l p s.pattern_listeners

-- A keyspace event calls each listener of the keyspace patterns under exactly the patterns that
-- match the event's channel, which names the operation for a pattern that begins with `__keyevent`
-- and the key for any other.
pub calls-dispatch_keyspace :
    {M : Type 0} (text_value : String → M) (l : ListenerId) (p : String) (event : KeyspaceEvent)
    (s : Service)
    → calls l p (dispatch_keyspace text_value event s) ≡ (
        if redis_glob_matches p (
          if starts_with p "__keyevent"
          then str_append "__keyevent@" (str_append event.db (str_append "__:" event.operation))
          else str_append "__keyspace@" (str_append event.db (str_append "__:" event.key)))
        then registrations l p s.keyspace_pattern_listeners
        else 0)
unfolding dispatch_keyspace event_channel
calls-dispatch_keyspace text_value l p event s =
    calls-deliver_matching (event_channel text_value event) l p s.keyspace_pattern_listeners
    ∙ elim (Bool-cases (starts_with p "__keyevent")) [ inl e ↦ rw e | inr e ↦ rw e ]
