-- ===== src/PubSub/Tasks/Refused.antt =====
-- Calls of `psubscribe` in redisson-rs/src/pubsub/publish_subscribe_service.rs on a channel whose
-- first call still waits for the server.
use mathlib.Core.List.{append_assoc, append-nil}
use redisson_rs.Base.{
  ◌≡◌, ap, sym, ◌∙◌, Bool, true, false, none, some, List, [], ◌∷◌, ◌++◌, map, arith, is_some,
  string_eq, if◌then◌else◌, ==-refl, ok, err,
}
use redisson_rs.Base.Assoc.{contains_key-lookup}
use redisson_rs.PubSub.{
  ChannelName, is_keyspace, ListenerId, Service, is_cluster, subscribing, psubscribe, punsubscribe,
  refused, Reply, psubscribe_begin, psubscribe_end, clear_listeners, listener_map,
}
use redisson_rs.PubSub.Subscribe.{lookup-clear_listeners, clear_listeners-other}
use redisson_rs.PubSub.Synced.{Subscriptions}
use redisson_rs.PubSub.Heard.{heard-begun, heard-changed, begin-already, listener_map-unsub_map}
use redisson_rs.PubSub.Unsubscribe.{heard}
use redisson_rs.PubSub.Tasks.{
  System, adding, Action, calls_psubscribe, serves, resumes, returns, waits, call_psubscribe, run,
}

heard-cleared :
    (name : ChannelName) (s : Service)
    → is_some (heard punsubscribe name s) ≡ true
    → heard punsubscribe name (clear_listeners name s) ≡ some []
heard-cleared name s there = ground (
  arith,
  heard-changed name name s (clear_listeners name s) _ (lookup-clear_listeners name name s)
      (clear_listeners-other name s),
  ==-refl {A = ChannelName} name,
  contains_key-lookup name (listener_map (is_keyspace name) s),
  listener_map-unsub_map (is_keyspace name) s,
)

module _ (name : ChannelName) where
  -- The service once these calls have put down their listeners.
  abbrev joined : List (List ListenerId) → Service → Service
  joined [] s = s
  joined (ls ∷ rest) s = joined rest (psubscribe_begin name ls s).0

  abbrev pub successes : List (List ListenerId) → List Reply
  successes [] = []
  successes (ls ∷ rest) = ok tt ∷ successes rest

  begun-there :
      (ls : List ListenerId) (s : Service)
      → is_some (heard punsubscribe name (psubscribe_begin name ls s).0) ≡ true
  begun-there ls s = ground (arith, heard-begun name ls s name, ==-refl {A = ChannelName} name)

  joined-there :
      (rest : List (List ListenerId)) (s : Service)
      → is_some (heard punsubscribe name s) ≡ true
      → is_some (heard punsubscribe name (joined rest s)) ≡ true
  joined-there [] s there = there
  joined-there (ls ∷ rest) s there =
      joined-there rest (psubscribe_begin name ls s).0 (begun-there ls s)

  asked : Bool → List ListenerId → System → System
  asked already ls y =
      if already
      then returns (psubscribe_begin name ls y.service).0 (ok tt) y
      else waits (psubscribe_begin name ls y.service).0 (adding name) y

  call-asked :
      (ls : List ListenerId) (y : System) (there : Bool)
      → is_some (heard punsubscribe name y.service) ≡ there
      → call_psubscribe name ls y ≡ asked there ls y
  unfolding call_psubscribe asked
  call-asked ls y there h = ap (λ b. asked b ls y) (begin-already name ls y.service ∙ h)

  run-known :
      (rest : List (List ListenerId)) (after : List Action) (y : System)
      → is_some (heard punsubscribe name y.service) ≡ true
      → run (map (calls_psubscribe name) rest ++ after) y
        ≡ run after
            (record y { service = joined rest y.service; returned = y.returned ++ successes rest })
  unfolding run asked
  run-known [] after y there =
      ap (λ r. run after (record y { returned = r })) (sym (append-nil y.returned))
  run-known (ls ∷ rest) after y there =
      ap (run (map (calls_psubscribe name) rest ++ after)) (call-asked ls y true there)
      ∙ run-known rest after (returns (psubscribe_begin name ls y.service).0 (ok tt) y)
          (begun-there ls y.service)
      ∙ ap (λ r. run after (record y { service = joined (ls ∷ rest) y.service; returned = r }))
          (append_assoc y.returned (ok tt ∷ []) (successes rest))

  -- No call is under way.
  abbrev pub idle : Service → Subscriptions → List Reply → System
  idle s subs rs = record { service = s; subs = subs; sent = []; answered = []; returned = rs }

  abbrev pub refusal : Reply
  refusal = err (refused (subscribing psubscribe name))

  -- The calls, of which `ls` comes first, then the server's refusal.
  abbrev pub together : List ListenerId → List (List ListenerId) → List Action
  together ls others =
      calls_psubscribe name ls
      ∷ (map (calls_psubscribe name) others ++ (serves false ∷ resumes 0 ∷ []))

  module _ (ls : List ListenerId) (others : List (List ListenerId)) (s : Service)
      (subs : Subscriptions) (rs : List Reply) where
    -- What the overlapping calls come to.
    refused_run :
        heard punsubscribe name s ≡ none
        → run (together ls others) (idle s subs rs)
          ≡ idle
              (clear_listeners name (joined others (psubscribe_begin name ls s).0))
              subs
              ((rs ++ successes others) ++ (refusal ∷ []))
    unfolding run asked psubscribe_end
    refused_run new =
        ap (run (map (calls_psubscribe name) others ++ (serves false ∷ resumes 0 ∷ [])))
          (call-asked ls (idle s subs rs) false (ap is_some new))
        ∙ run-known others (serves false ∷ resumes 0 ∷ [])
            (waits (psubscribe_begin name ls s).0 (adding name) (idle s subs rs)) (begun-there ls s)

    -- Outside cluster mode, each call running from wait to wait: while the first `psubscribe` on a
    -- channel waits, every other one on it returns with success; when the server then refuses the
    -- first, its call fails, no call has listeners on the channel, and the server has the
    -- subscriptions that it had. A later `psubscribe` on the channel succeeds, asks the server for
    -- nothing, and leaves its listeners there.
    pub refused_together :
        (later : List ListenerId)
        → is_cluster s.mode ≡ false
        → heard punsubscribe name s ≡ none
        → let z = run (together ls others) (idle s subs rs) in
          let z' = call_psubscribe name later z in
          (z.returned ≡ (rs ++ successes others) ++ (refusal ∷ []))
          × (heard punsubscribe name z.service ≡ some [])
          × (z.subs ≡ subs)
          × (z'.returned ≡ z.returned ++ (ok tt ∷ []))
          × (z'.sent ≡ [])
          × (heard punsubscribe name z'.service ≡ some later)
    unfolding asked
    refused_together later single new =
        let z = run (together ls others) (idle s subs rs) in
        let end = refused_run new in
        let emptied =
          ap (λ (y : System). heard punsubscribe name y.service) end
          ∙ heard-cleared name _ (joined-there others _ (begun-there ls s)) in
        let again = call-asked later z true (ap is_some emptied) in
        (
          ap (λ (y : System). y.returned) end,
          emptied,
          ap (λ (y : System). y.subs) end,
          ap (λ (y : System). y.returned) again,
          ap (λ (y : System). y.sent) again ∙ ap (λ (y : System). y.sent) end,
          ap (λ (y : System). heard punsubscribe name y.service) again
              ∙ ground (
                arith,
                heard-begun name later z.service name,
                emptied,
                ==-refl {A = ChannelName} name,
              ),
        )
