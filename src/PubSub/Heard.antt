-- ===== src/PubSub/Heard.antt =====
-- The two maps of pattern listeners in redisson-rs/src/pubsub/publish_subscribe_service.rs, seen as
-- one by channel.
use redisson_rs.Base.{
  ◌≡◌, refl, ap, ◌∙◌, sym, Bool, true, false, not, Option, some, List, ◌++◌, arith, is_some, ◌==◌,
  string_eq, if◌then◌else◌,
}
use redisson_rs.Base.Assoc.{lookup, contains_key-lookup}
use redisson_rs.PubSub.{
  ChannelName, is_keyspace, ListenerId, Service, punsubscribe, listener_map, unsub_map, or_default,
  psubscribe_begin, do_psubscribe, World,
}
use redisson_rs.PubSub.Subscribe.{
  lookup-begun, begun-other, do_psubscribe-lookup, heard_after, cleans,
}
use redisson_rs.PubSub.Unsubscribe.{heard}

pub listener_map-unsub_map :
    (k : Bool) (s : Service) → unsub_map punsubscribe k s ≡ listener_map k s
unfolding unsub_map listener_map
listener_map-unsub_map true s = refl
listener_map-unsub_map false s = refl

changed :
    (k k' same : Bool) (s s' : Service) (j : ChannelName) (new : Option (List ListenerId))
    → lookup j (listener_map k s') ≡ (if same then new else lookup j (listener_map k s))
    → listener_map (not k) s' ≡ listener_map (not k) s
    → (same ≡ true → k ≡ k')
    → lookup j (listener_map k' s') ≡ (if same then new else lookup j (listener_map k' s))
changed true true same s s' j new own other h = own
changed false false same s s' j new own other h = own
changed true false same s s' j new own other h = rw other (ground (arith, h))
changed false true same s s' j new own other h = rw other (ground (arith, h))

-- A change of the channel's own map at the channel, and of nothing else.
pub heard-changed :
    (name j : ChannelName) (s s' : Service) (new : Option (List ListenerId))
    → lookup j (listener_map (is_keyspace name) s')
      ≡ (if name == j then new else lookup j (listener_map (is_keyspace name) s))
    → listener_map (not (is_keyspace name)) s' ≡ listener_map (not (is_keyspace name)) s
    → heard punsubscribe j s' ≡ (if name == j then new else heard punsubscribe j s)
heard-changed name j s s' new own other =
    rw (listener_map-unsub_map (is_keyspace j) s, listener_map-unsub_map (is_keyspace j) s')
      (changed (is_keyspace name) (is_keyspace j) (name == j) s s' j new own other
        (λ e. ap is_keyspace ((string_eq.beq_iff name j).0 e)))

pub heard-begun :
    (name : ChannelName) (ls : List ListenerId) (s : Service) (j : ChannelName)
    → heard punsubscribe j (psubscribe_begin name ls s).0 ≡ (
        if name == j
        then some (or_default (heard punsubscribe name s) ++ ls)
        else heard punsubscribe j s)
heard-begun name ls s j = rw (listener_map-unsub_map (is_keyspace name) s) (
    heard-changed name j s (psubscribe_begin name ls s).0 _ (lookup-begun name ls s j)
      (begun-other name ls s))

-- The flag of `psubscribe`.
pub begin-already :
    (name : ChannelName) (ls : List ListenerId) (s : Service)
    → (psubscribe_begin name ls s).1 ≡ is_some (heard punsubscribe name s)
unfolding psubscribe_begin
begin-already name ls s =
    contains_key-lookup name (listener_map (is_keyspace name) s)
    ∙ ap (λ m. is_some (lookup name m)) (sym (listener_map-unsub_map (is_keyspace name) s))

-- A channel's listeners after `psubscribe` on another or on itself.
pub heard-do_psubscribe :
    (w : World) (name : ChannelName) (ls : List ListenerId) (s : Service) (j : ChannelName)
    → heard punsubscribe j (do_psubscribe w name ls s).service ≡ (
        if name == j
        then heard_after (heard punsubscribe name s) ls (cleans w name s)
        else heard punsubscribe j s)
heard-do_psubscribe w name ls s j =
    let (own, other) = do_psubscribe-lookup w name ls s in
    rw (listener_map-unsub_map (is_keyspace name) s)
      (heard-changed name j s (do_psubscribe w name ls s).service _ (own j) other)
