-- ===== src/PubSub/Subscribe.antt =====
-- What `psubscribe` of redisson-rs/src/pubsub/publish_subscribe_service.rs does to the listeners.
use redisson_rs.Base.{
  ◌≡◌, refl, ◌∙◌, inl, inr, Bool, true, false, not, Option, none, some, List, [], ◌∷◌, ◌++◌, arith,
  ◌==◌, string_eq, if◌then◌else◌, Result, ok, err, is_err, Bool-cases, ==-refl,
}
use redisson_rs.Base.Assoc.{lookup, contains_key, insert, lookup-insert, contains_key-lookup}
use redisson_rs.Config.{ServerMode}
use redisson_rs.PubSub.{
  ChannelName, is_keyspace, ListenerId, Service, World, Request, Outcome, Reply, reply, PubSubError,
  refused, subscribing, psubscribe, is_cluster, listener_map, with_listener_map, or_default,
  psubscribe_begin, psubscribe_end, clear_listeners, ask_subscribe, do_psubscribe,
}

pub listener_map-with_self :
    (k : Bool) (m : List (ChannelName × List ListenerId)) (s : Service)
    → listener_map k (with_listener_map k m s) ≡ m
unfolding listener_map with_listener_map
listener_map-with_self true m s = refl
listener_map-with_self false m s = refl

pub listener_map-with_other :
    (k : Bool) (m : List (ChannelName × List ListenerId)) (s : Service)
    → listener_map (not k) (with_listener_map k m s) ≡ listener_map (not k) s
unfolding listener_map with_listener_map
listener_map-with_other true m s = refl
listener_map-with_other false m s = refl

pub lookup-clear_listeners :
    (name j : ChannelName) (s : Service)
    → lookup j (listener_map (is_keyspace name) (clear_listeners name s)) ≡ (
        if name == j
        then (if contains_key name (listener_map (is_keyspace name) s) then some [] else none)
        else lookup j (listener_map (is_keyspace name) s))
unfolding clear_listeners
lookup-clear_listeners name j s =
    elim (Bool-cases (contains_key name (listener_map (is_keyspace name) s))) [
      | inl e ↦
          rw (e, listener_map-with_self (is_keyspace name))
            (lookup-insert name j [] (listener_map (is_keyspace name) s))
      | inr e ↦ rw e (
          ground (
            arith,
            string_eq.beq_iff name j,
            contains_key-lookup name (listener_map (is_keyspace name) s),
          ))
    ]

pub clear_listeners-other :
    (name : ChannelName) (s : Service)
    → listener_map (not (is_keyspace name)) (clear_listeners name s)
      ≡ listener_map (not (is_keyspace name)) s
unfolding clear_listeners
clear_listeners-other name s =
    elim (Bool-cases (contains_key name (listener_map (is_keyspace name) s))) [
      | inl e ↦ rw e (listener_map-with_other (is_keyspace name) _ s)
      | inr e ↦ rw e
    ]

-- The listeners of a channel after a call that brings `ls`: those of a known channel grow, a new
-- channel has `ls`, or none of them if the server refused it.
abbrev pub heard_after :
    Option (List ListenerId) → List ListenerId → Bool → Option (List ListenerId)
heard_after (some old) ls refusal = some (old ++ ls)
heard_after none ls refusal = some (if refusal then [] else ls)

module _ (name : ChannelName) (ls : List ListenerId) (s : Service) where
  abbrev pub own_map : Service → List (ChannelName × List ListenerId)
  own_map = listener_map (is_keyspace name)

  abbrev pub begun : Service
  begun = (psubscribe_begin name ls s).0

  pub lookup-begun :
      (j : ChannelName)
      → lookup j (own_map begun) ≡ (
          if name == j
          then some (or_default (lookup name (own_map s)) ++ ls)
          else lookup j (own_map s))
  unfolding psubscribe_begin
  lookup-begun j = rw (listener_map-with_self (is_keyspace name)) (lookup-insert name j _ _)

  lookup-end :
      (answer : Reply) (j : ChannelName)
      → contains_key name (own_map s) ≡ false
      → lookup j (own_map (psubscribe_end name answer begun)) ≡ (
          if name == j
          then heard_after (lookup name (own_map s)) ls (is_err answer)
          else lookup j (own_map s))
  unfolding psubscribe_end
  lookup-end answer j new = ground (
    arith,
    string_eq.beq_iff name j,
    lookup-begun j,
    lookup-begun name,
    string_eq.beq_iff name name,
    lookup-clear_listeners name j begun,
    contains_key-lookup name (own_map s),
    contains_key-lookup name (own_map begun),
  )

  pub begun-other :
      listener_map (not (is_keyspace name)) begun ≡ listener_map (not (is_keyspace name)) s
  unfolding psubscribe_begin
  begun-other = listener_map-with_other (is_keyspace name) _ s

  end-other :
      (answer : Reply)
      → listener_map (not (is_keyspace name)) (psubscribe_end name answer begun)
        ≡ listener_map (not (is_keyspace name)) s
  unfolding psubscribe_end psubscribe_begin
  end-other answer = ground (
    arith,
    clear_listeners-other name begun,
    listener_map-with_other (is_keyspace name)
        (insert name (or_default (lookup name (own_map s)) ++ ls) (own_map s)) s,
  )

-- Whether the call ends with the clean-up: the server was asked and refused. When the nodes to ask
-- are not known the call fails before that.
abbrev pub refuses : Result PubSubError (List Request × Reply) → Bool
refuses (err e) = false
refuses (ok (rs, answer)) = is_err answer

abbrev pub cleans : World → ChannelName → Service → Bool
cleans w name s = refuses (ask_subscribe w name s.mode)

pub do_psubscribe-known :
    (w : World) (name : ChannelName) (ls : List ListenerId) (s : Service)
    → contains_key name (listener_map (is_keyspace name) s) ≡ true
    → do_psubscribe w name ls s
      ≡ record { service = (psubscribe_begin name ls s).0; sent = []; result = ok tt }
unfolding do_psubscribe psubscribe_begin
do_psubscribe-known w name ls s known = rw known

-- What follows the question to the server.
abbrev pub settle : ChannelName → Service → Result PubSubError (List Request × Reply) → Outcome
settle name s (err e) = record { service = s; sent = []; result = err e }
settle name s (ok (rs, answer)) = record {
  service = psubscribe_end name answer s;
  sent = rs;
  result = answer;
}

pub do_psubscribe-new :
    (w : World) (name : ChannelName) (ls : List ListenerId) (s : Service)
    → contains_key name (listener_map (is_keyspace name) s) ≡ false
    → do_psubscribe w name ls s
      ≡ settle name (psubscribe_begin name ls s).0 (ask_subscribe w name s.mode)
unfolding do_psubscribe psubscribe_begin
do_psubscribe-new w name ls s new = rw new (ground arith)

module _ (name : ChannelName) (ls : List ListenerId) (s : Service)
    (new : contains_key name (listener_map (is_keyspace name) s) ≡ false) where
  settle-lookup :
      (asked : Result PubSubError (List Request × Reply)) (j : ChannelName)
      → lookup j (
          listener_map
            (is_keyspace name)
            (settle name (psubscribe_begin name ls s).0 asked).service)
        ≡ (if name == j
            then heard_after (lookup name (listener_map (is_keyspace name) s)) ls (refuses asked)
            else lookup j (listener_map (is_keyspace name) s))
  settle-lookup (err e) j = ground (
    arith,
    lookup-begun name ls s j,
    contains_key-lookup name (listener_map (is_keyspace name) s),
  )
  settle-lookup (ok (rs, answer)) j = lookup-end name ls s answer j new

  settle-other :
      (asked : Result PubSubError (List Request × Reply))
      → listener_map
          (not (is_keyspace name))
          (settle name (psubscribe_begin name ls s).0 asked).service
        ≡ listener_map (not (is_keyspace name)) s
  settle-other (err e) = begun-other name ls s
  settle-other (ok (rs, answer)) = end-other name ls s answer

-- After `psubscribe` with `ls` on a channel, in the map that the channel belongs to, its listeners
-- are the old ones with `ls` behind them, or `ls` alone, or none of them if the channel was new and
-- the server refused it; every other channel, and the other map, is as before.
pub do_psubscribe-lookup :
    (w : World) (name : ChannelName) (ls : List ListenerId) (s : Service)
    → let after = (do_psubscribe w name ls s).service in
      ((j : ChannelName)
        → lookup j (listener_map (is_keyspace name) after) ≡ (
            if name == j
            then heard_after (lookup name (listener_map (is_keyspace name) s)) ls (cleans w name s)
            else lookup j (listener_map (is_keyspace name) s)))
      × (listener_map (not (is_keyspace name)) after ≡ listener_map (not (is_keyspace name)) s)
do_psubscribe-lookup w name ls s =
    elim (Bool-cases (contains_key name (listener_map (is_keyspace name) s))) [
      | inl known ↦ rw (do_psubscribe-known w name ls s known) (
        λ j. ground (
          arith,
          lookup-begun name ls s j,
          contains_key-lookup name (listener_map (is_keyspace name) s),
        ),
        begun-other name ls s,
      )
      | inr new ↦ rw (do_psubscribe-new w name ls s new) (
        settle-lookup name ls s new (ask_subscribe w name s.mode),
        settle-other name ls s new (ask_subscribe w name s.mode),
      )
    ]

pub ask_subscribe-single :
    (w : World) (name : ChannelName) (mode : ServerMode)
    → is_cluster mode ≡ false
    → let r = subscribing psubscribe name in ask_subscribe w name mode ≡ ok (r ∷ [], reply w r)
unfolding ask_subscribe
ask_subscribe-single w name mode single = ground arith

-- Outside cluster mode, when the server refuses the first `psubscribe` on a channel, that call fails;
-- a second one on the channel then reports success, asks the server for nothing, and leaves its
-- listeners in the map.
pub psubscribe_after_refusal :
    (w w' : World) (name : ChannelName) (ls ls' : List ListenerId) (s : Service)
    → is_cluster s.mode ≡ false
    → contains_key name (listener_map (is_keyspace name) s) ≡ false
    → w.accepts (subscribing psubscribe name) ≡ false
    → let first = do_psubscribe w name ls s in
      let again = do_psubscribe w' name ls' first.service in
      (first.result ≡ err (refused (subscribing psubscribe name)))
      × (again.result ≡ ok tt)
      × (again.sent ≡ [])
      × (lookup name (listener_map (is_keyspace name) again.service) ≡ some ls')
psubscribe_after_refusal w w' name ls ls' s single new refusal =
    let after = (do_psubscribe w name ls s).service in
    let asked = ask_subscribe-single w name s.mode single in
    let left : lookup name (listener_map (is_keyspace name) after) ≡ some [] = ground (
      arith,
      contains_key-lookup name (listener_map (is_keyspace name) s),
      (do_psubscribe-lookup w name ls s).0 name,
      ==-refl {A = ChannelName} name,
    ) in
    let known : contains_key name (listener_map (is_keyspace name) after) ≡ true =
      contains_key-lookup name (listener_map (is_keyspace name) after) ∙ rw left in
    (
      rw (do_psubscribe-new w name ls s new) (ground arith),
      rw (do_psubscribe-known w' name ls' after known),
      rw (do_psubscribe-known w' name ls' after known),
      ground
          (arith, (do_psubscribe-lookup w' name ls' after).0 name, ==-refl {A = ChannelName} name),
    )
