-- ===== src/PubSub/Topic.antt =====
-- redisson-rs/src/api/rpattern_topic.rs: a topic whose name is a pattern, over the publish/subscribe
-- service, and its listener (redisson-rs/src/pubsub_pattern_message_listener.rs).
use mathlib.Core.List.{append-nil}
use redisson_rs.Base.{
  String, Bool, true, false, not, ◌&&◌, Bool-cases, Option, none, some, List, [], ◌∷◌, is_empty,
  retain-append, ◌==◌, ==-refl, nat_eq, string_eq, Result, ok, err, bind_ok, ◌>>=◌, arith, ◌≡◌,
  refl, sym, ap, ◌∙◌, inl, inr, is_some,
}
use redisson_rs.Config.{ServerMode}
use redisson_rs.Base.Assoc.{insert, lookup, contains_key, contains_key-lookup}
use redisson_rs.PubSub.{
  subscribing, psubscribe, init, psubscribe_begin, psubscribe_end, with_listener_map, ChannelName,
  is_keyspace, ListenerId, Service, World, Outcome, Request, Reply, PubSubError, punsubscribe, keep,
  contains, listener_map, unsub_map, ask_subscribe, do_psubscribe, remove_listener,
}
use redisson_rs.PubSub.Subscribe.{do_psubscribe-new, heard_after, cleans, refuses, settle}
use redisson_rs.PubSub.Heard.{heard-do_psubscribe, listener_map-unsub_map}
use redisson_rs.PubSub.Unsubscribe.{heard, pruned, remove_listener-heard}
use redisson_rs.PubSub

pub record PatternTopic : Type 0 where
  pub name : String
  pub channel_name : ChannelName

-- `RedissonPatternTopicInner::new`
abbrev pub new : String → PatternTopic
new name = record { name = name; channel_name = name }

-- `PubSubPatternMessageListener::on_pattern_message`: whether it calls the listener within.
abbrev pub on_pattern_message : (name pattern : String) → Bool
on_pattern_message name pattern = name == pattern

module _ (w : World) (t : PatternTopic) where
  -- The listener is known by the address of its new `Arc`.
  unfoldable pub add_pubsub_listener :
      ListenerId → Service → Outcome × Result PubSubError ListenerId
  add_pubsub_listener id s =
      let o = do_psubscribe w t.channel_name (id ∷ []) s in (o, o.result >>= λ _. ok id)

  -- The listener that is added is a new one around that of the user.
  abbrev pub add_listener : ListenerId → Service → Outcome × Result PubSubError ListenerId
  add_listener id s = add_pubsub_listener id s

  abbrev pub remove_listeners : List ListenerId → Service → Outcome
  remove_listeners ids s = remove_listener w punsubscribe (t.channel_name ∷ []) ids s

settle-refuses :
    (name : ChannelName) (s : Service) (asked : Result PubSubError (List Request × Reply))
    → (settle name s asked).result ≡ ok tt
    → refuses asked ≡ false
settle-refuses name s (err e) fine = refl
settle-refuses name s (ok (rs, answer)) fine = rw fine refl

-- A call that succeeded on a new channel did not clear it.
heard_fine :
    (w : World) (name : ChannelName) (ls : List ListenerId) (s : Service)
    (old : Option (List ListenerId))
    → heard punsubscribe name s ≡ old
    → (do_psubscribe w name ls s).result ≡ ok tt
    → heard_after old ls (cleans w name s) ≡ heard_after old ls false
heard_fine w name ls s (some old) was fine = refl
heard_fine w name ls s none was fine =
    let new : contains_key name (listener_map (is_keyspace name) s) ≡ false =
      contains_key-lookup name (listener_map (is_keyspace name) s)
      ∙ ap is_some (ap (lookup name) (sym (listener_map-unsub_map (is_keyspace name) s)) ∙ was) in
    let settled : (settle name (PubSub.psubscribe_begin name ls s).0
          (ask_subscribe w name s.mode)).result
        ≡ ok tt =
      rw (do_psubscribe-new w name ls s new) at fine in
    ap (heard_after none ls) (settle-refuses name _ (ask_subscribe w name s.mode) settled)

-- The address is new to the channel, which has a listener or is not there.
abbrev pub is_fresh : ListenerId → Option (List ListenerId) → Bool
is_fresh id none = true
is_fresh id (some ls) = not (is_empty ls) && not (contains ls id)

keep-fresh :
    (id : ListenerId) (ls : List ListenerId) → contains ls id ≡ false → keep (id ∷ []) ls ≡ ls
keep-fresh id [] new = refl
keep-fresh id (l ∷ ls) new =
    ground (arith, keep-fresh id ls, nat_eq.beq_iff id l, nat_eq.beq_iff l id)

pruned-added :
    (id : ListenerId) (old : Option (List ListenerId))
    → is_fresh id old ≡ true
    → pruned (id ∷ []) (heard_after old (id ∷ []) false) ≡ old
pruned-added id none fresh = rw (==-refl id) refl
pruned-added id (some ls) fresh =
    rw (retain-append (λ l. not (contains (id ∷ []) l)) ls (id ∷ []))
      (ground (arith, keep-fresh id ls, ==-refl id, append-nil ls))

-- Adding a listener to a topic, with success, and removing it again leaves each channel with the
-- listeners it had, whatever the server says to the removal; the address is new to the topic's
-- channel, which has a listener or is not there.
pub remove-add :
    (w w' : World) (t : PatternTopic) (id : ListenerId) (s : Service) (j : ChannelName)
    → is_fresh id (heard punsubscribe t.channel_name s) ≡ true
    → (add_listener w t id s).1 ≡ ok id
    → heard punsubscribe j
        (remove_listeners w' t (id ∷ []) (add_listener w t id s).0.service).service
      ≡ heard punsubscribe j s
unfolding add_pubsub_listener
remove-add w w' t id s j fresh fine =
    let name = t.channel_name in
    let added = (do_psubscribe w name (id ∷ []) s).service in
    let (_, succeeded, _) = bind_ok (do_psubscribe w name (id ∷ []) s).result _ fine in
    remove_listener-heard w' punsubscribe (name ∷ []) (id ∷ []) added j
    ∙ (elim (Bool-cases (name == j)) [
      | inl same ↦
          rw (same, heard-do_psubscribe w name (id ∷ []) s j, same)
            (ap (pruned (id ∷ []))
                (heard_fine w name (id ∷ []) s (heard punsubscribe name s) refl succeeded)
              ∙ pruned-added id (heard punsubscribe name s) fresh
              ∙ ap (λ k. heard punsubscribe k s) ((string_eq.beq_iff name j).0 same))
      | inr other ↦ rw (other, heard-do_psubscribe w name (id ∷ []) s j, other) refl
    ])

-- The service with one pattern listener.
abbrev pub listening : ServerMode → String → ListenerId → Service
listening mode pattern id = record {
  mode = mode;
  pattern_listeners = (pattern, id ∷ []) ∷ [];
  keyspace_pattern_listeners = [];
  channel_listeners = [];
  shard_channel_listeners = [];
}

pub add_listener-first :
    (w : World) (mode : ServerMode) (pattern : String) (id : ListenerId)
    → is_keyspace pattern ≡ false
    → w.accepts (subscribing psubscribe pattern) ≡ true
    → ((add_listener w (new pattern) id (init mode)).0.service ≡ listening mode pattern id)
      × ((add_listener w (new pattern) id (init mode)).1 ≡ ok id)
unfolding add_pubsub_listener do_psubscribe psubscribe_begin psubscribe_end ask_subscribe
    listener_map with_listener_map init lookup contains_key insert
add_listener-first w mode pattern id plain fine =
    (ground (arith, plain, fine), ground (arith, plain, fine))
