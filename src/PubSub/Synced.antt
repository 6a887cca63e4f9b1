-- ===== src/PubSub/Synced.antt =====
-- The listener maps of `PublishSubscribeService`
-- (redisson-rs/src/pubsub/publish_subscribe_service.rs) beside the pattern subscriptions that the
-- server has, outside cluster mode.
use mathlib.Core.List.{append-nil}
use redisson_rs.Base.{
  ◌≡◌, ap, ◌∙◌, inl, inr, Bool, true, false, not, ◌&&◌, ◌||◌, List, [], ◌∷◌, arith, is_some, ◌==◌,
  string_eq, if◌then◌else◌, ok, Bool-cases,
}
use redisson_rs.Base.Assoc.{lookup, contains_key, contains_key-lookup}
use redisson_rs.Config.{ServerMode}
use redisson_rs.PubSub.{
  ChannelName, is_keyspace, ListenerId, Service, World, Request, init, subscribing, unsubscribing,
  psubscribe_on, punsubscribe_on, psubscribe_all_on, psubscribe, punsubscribe, is_cluster, reply,
  listener_map, unsub_map, do_psubscribe, remove_listener, drop_all, ask_unsubscribe,
}
use redisson_rs.PubSub.Subscribe.{do_psubscribe-known, do_psubscribe-new, ask_subscribe-single}
use redisson_rs.PubSub.Unsubscribe.{
  heard, named, pruned-is_some, dropped_iff, drop_all-heard, remove_listener-service,
}
use redisson_rs.PubSub.Heard.{heard-do_psubscribe, listener_map-unsub_map}
use redisson_rs.PubSub.Mode.{drop_all-keyspace, do_psubscribe-mode, drop_all-mode}

abbrev pub Subscriptions : Type 0
Subscriptions = ChannelName → Bool

-- The server's pattern subscriptions after a request that it accepts.
abbrev pub change : Request → Subscriptions → Subscriptions
change (subscribing psubscribe name) subs j = name == j || subs j
change (subscribing _ name) subs j = subs j
change (unsubscribing punsubscribe names) subs j = not (named j names) && subs j
change (unsubscribing _ names) subs j = subs j
change (psubscribe_on server name) subs j = name == j || subs j
change (punsubscribe_on server names) subs j = not (named j names) && subs j
change (psubscribe_all_on server names) subs j = named j names || subs j

-- A request that it refuses changes nothing.
abbrev pub serve : World → List Request → Subscriptions → Subscriptions
serve w [] subs = subs
serve w (r ∷ rs) subs = serve w rs (if w.accepts r then change r subs else subs)

-- The services and subscriptions that calls reach from a new service, while each call succeeds.
pub data Reach : Service → Subscriptions → Type 0 where
  start : (mode : ServerMode) → is_cluster mode ≡ false → Reach (init mode) (λ _. false)
  listen :
      {s : Service} {subs : Subscriptions} (w : World) (name : ChannelName) (ls : List ListenerId)
      → Reach s subs
      → (do_psubscribe w name ls s).result ≡ ok tt
      → Reach (do_psubscribe w name ls s).service (serve w (do_psubscribe w name ls s).sent subs)
  forget :
      {s : Service} {subs : Subscriptions} (w : World) (names : List ChannelName)
      (ids : List ListenerId)
      → Reach s subs
      → (remove_listener w punsubscribe names ids s).result ≡ ok tt
      → Reach
          (remove_listener w punsubscribe names ids s).service
          (serve w (remove_listener w punsubscribe names ids s).sent subs)

pub record IsSynced (s : Service) (subs : Subscriptions) : Type 0 where
  pub single : is_cluster s.mode ≡ false
  pub agree : (j : ChannelName) → is_some (heard punsubscribe j s) ≡ subs j

init-IsSynced : (mode : ServerMode) → is_cluster mode ≡ false → IsSynced (init mode) (λ _. false)
unfolding init unsub_map lookup
init-IsSynced mode single = record { single = single; agree = λ j. ground arith }

module _ {s : Service} {subs : Subscriptions} (w : World) (h : IsSynced s subs) where
  accepted :
      (name : ChannelName) (ls : List ListenerId)
      → contains_key name (listener_map (is_keyspace name) s) ≡ false
      → (do_psubscribe w name ls s).result ≡ ok tt
      → w.accepts (subscribing psubscribe name) ≡ true
  accepted name ls new fine =
      let answered : reply w (subscribing psubscribe name) ≡ ok tt =
        rw (do_psubscribe-new w name ls s new, ask_subscribe-single w name s.mode h.single) at
          fine in
      ground arith

  listen-agree :
      (name : ChannelName) (ls : List ListenerId)
      → (do_psubscribe w name ls s).result ≡ ok tt
      → (j : ChannelName)
      → is_some (heard punsubscribe j (do_psubscribe w name ls s).service)
        ≡ serve w (do_psubscribe w name ls s).sent subs j
  listen-agree name ls fine j =
      ap is_some (heard-do_psubscribe w name ls s j)
      ∙ (elim (Bool-cases (contains_key name (listener_map (is_keyspace name) s))) [
        | inl known ↦ rw (do_psubscribe-known w name ls s known) (
            ground (
              arith,
              h.agree j,
              string_eq.beq_iff name j,
              contains_key-lookup name (listener_map (is_keyspace name) s),
              listener_map-unsub_map (is_keyspace name) s,
            ))
        | inr new ↦
            rw (do_psubscribe-new w name ls s new, ask_subscribe-single w name s.mode h.single)
              (ground (arith, h.agree j, accepted name ls new fine))
      ])

  forget-agree :
      (names : List ChannelName) (ids : List ListenerId)
      → (remove_listener w punsubscribe names ids s).result ≡ ok tt
      → (j : ChannelName)
      → is_some (heard punsubscribe j (remove_listener w punsubscribe names ids s).service)
        ≡ serve w (remove_listener w punsubscribe names ids s).sent subs j
  unfolding remove_listener ask_unsubscribe
  forget-agree names ids fine j =
      let gone = drop_all-keyspace ids names s h.single in
      ground (
        arith,
        h.agree j,
        dropped_iff punsubscribe ids names s j,
        append-nil (drop_all punsubscribe ids names s).1,
        pruned-is_some ids (heard punsubscribe j s),
        drop_all-heard punsubscribe ids names s j,
      )

listen-IsSynced :
    {s : Service} {subs : Subscriptions} (w : World) (name : ChannelName) (ls : List ListenerId)
    → IsSynced s subs
    → (do_psubscribe w name ls s).result ≡ ok tt
    → IsSynced (do_psubscribe w name ls s).service (serve w (do_psubscribe w name ls s).sent subs)
listen-IsSynced {s} w name ls h fine = record {
  single = ap is_cluster (do_psubscribe-mode w name ls s) ∙ h.single;
  agree = listen-agree w h name ls fine;
}

forget-IsSynced :
    {s : Service} {subs : Subscriptions} (w : World) (names : List ChannelName)
    (ids : List ListenerId)
    → IsSynced s subs
    → (remove_listener w punsubscribe names ids s).result ≡ ok tt
    → IsSynced
        (remove_listener w punsubscribe names ids s).service
        (serve w (remove_listener w punsubscribe names ids s).sent subs)
forget-IsSynced {s} w names ids h fine = record {
  single =
      ap is_cluster (
        ap (λ (r : Service). r.mode) (remove_listener-service w punsubscribe names ids s)
        ∙ drop_all-mode punsubscribe ids names s)
      ∙ h.single;
  agree = forget-agree w h names ids fine;
}

Reach-IsSynced : {s : Service} {subs : Subscriptions} → Reach s subs → IsSynced s subs
Reach-IsSynced (start mode single) = init-IsSynced mode single
Reach-IsSynced (listen w name ls r fine) = listen-IsSynced w name ls (Reach-IsSynced r) fine
Reach-IsSynced (forget w names ids r fine) = forget-IsSynced w names ids (Reach-IsSynced r) fine

-- Outside cluster mode, after any calls that all succeeded, a channel has an entry in its map exactly
-- when the server has the pattern subscription.
pub Reach-agrees :
    {s : Service} {subs : Subscriptions}
    → Reach s subs
    → (j : ChannelName) → is_some (heard punsubscribe j s) ≡ subs j
Reach-agrees r = (Reach-IsSynced r).agree
