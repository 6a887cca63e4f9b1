-- ===== src/PubSub/Tasks/Tests.antt =====
-- Overlapping calls on a service with a few listeners, and the theorems at them.
use redisson_rs.Base.{◌≡◌, refl, true, false, none, some, List, [], ◌∷◌, ◌++◌, is_some, ok}
use redisson_rs.Base.Assoc.{lookup, contains_key, insert, remove}
use redisson_rs.Config.{ServerMode, standalone}
use redisson_rs.PubSub.{
  Service, punsubscribe, is_keyspace, psubscribe_begin, psubscribe_end, unsub_map, init, drop_all,
  drop_from, with_unsub_map,
}
use redisson_rs.PubSub.Unsubscribe.{heard}
use redisson_rs.PubSub.Tasks.{
  begin, Action, calls_psubscribe, calls_remove, serves, resumes, call_psubscribe, call_remove, run,
}
use redisson_rs.PubSub.Tasks.History.{history, taken}
use redisson_rs.PubSub.Tasks.Agrees.{run-agrees}
use redisson_rs.PubSub.Tasks.Refused.{idle, together, successes, refusal, refused_together}
use redisson_rs.PubSub.Tasks.Within.{has, run-within}
use redisson_rs.PubSub.Tasks.Removal.{prune, pruned_at, removed_at, psubscribe_between}

abbrev mode : ServerMode
mode = standalone (record { host = "localhost"; port = 6379 }) 0

-- Two calls add a listener to a channel before the server has read the first request; one listener is
-- removed, then the other, and a third call comes before the server has read that.
abbrev busy : List Action
busy =
    calls_psubscribe "news.*" (1 ∷ [])
    ∷ calls_psubscribe "news.*" (2 ∷ [])
    ∷ calls_remove ("news.*" ∷ []) (1 ∷ [])
    ∷ serves true
    ∷ calls_remove ("news.*" ∷ []) (2 ∷ [])
    ∷ calls_psubscribe "news.*" (3 ∷ [])
    ∷ resumes 0
    ∷ serves true
    ∷ []

busy_state :
    (heard punsubscribe "news.*" (run busy (begin mode)).service ≡ some (3 ∷ []))
    × ((run busy (begin mode)).subs "news.*" ≡ false)
    × ((run busy (begin mode)).returned ≡ ok tt ∷ ok tt ∷ ok tt ∷ [])
unfolding run call_psubscribe call_remove psubscribe_begin drop_all drop_from unsub_map
    with_unsub_map init lookup insert contains_key remove psubscribe_end
busy_state = (refl, refl, refl)

run-agrees_example :
    (heard punsubscribe "news.*" (run busy (begin mode)).service ≡ history busy "news.*" none)
    × (taken (run busy (begin mode)).sent (run busy (begin mode)).subs "news.*"
        ≡ is_some (heard punsubscribe "news.*" (run busy (begin mode)).service))
run-agrees_example = run-agrees mode busy refl refl "news.*"

refused_together_example :
    let z =
      run
        (together "a" (1 ∷ []) ((2 ∷ []) ∷ (3 ∷ []) ∷ []))
        (idle "a" (init mode) (λ j. false) []) in
    let z' = call_psubscribe "a" (4 ∷ []) z in
    (z.returned ≡ ([] ++ successes "a" ((2 ∷ []) ∷ (3 ∷ []) ∷ [])) ++ (refusal "a" ∷ []))
    × (heard punsubscribe "a" z.service ≡ some [])
    × (z.subs ≡ λ j. false)
    × (z'.returned ≡ z.returned ++ (ok tt ∷ []))
    × (z'.sent ≡ [])
    × (heard punsubscribe "a" z'.service ≡ some (4 ∷ []))
unfolding init unsub_map lookup
refused_together_example =
    refused_together "a" (1 ∷ []) ((2 ∷ []) ∷ (3 ∷ []) ∷ []) (init mode) (λ j. false) [] (4 ∷ [])
      refl refl

-- One listener is removed while the request for it is refused.
abbrev refusing : List Action
refusing =
    calls_psubscribe "news.*" (1 ∷ [])
    ∷ calls_psubscribe "news.*" (2 ∷ [])
    ∷ calls_remove ("news.*" ∷ []) (1 ∷ [])
    ∷ serves false
    ∷ []

run-within_example :
    has 2 (history refusing "news.*" (heard punsubscribe "news.*" (begin mode).service)) ≡ true
unfolding run call_psubscribe call_remove psubscribe_begin drop_all drop_from unsub_map
    with_unsub_map init lookup insert contains_key remove psubscribe_end
run-within_example =
    run-within refusing (begin mode) (λ j. heard punsubscribe j (begin mode).service)
      (λ j l there. there) "news.*" 2 refl

-- A channel with one listener.
abbrev one : Service
one = record {
  mode = mode;
  pattern_listeners = ("a", 1 ∷ []) ∷ [];
  keyspace_pattern_listeners = [];
  channel_listeners = [];
  shard_channel_listeners = [];
}

psubscribe_between_example :
    let (joined, already) =
      psubscribe_begin "a" (2 ∷ []) (pruned_at punsubscribe (1 ∷ []) "a" one) in
    ((prune (1 ∷ []) "a" (unsub_map punsubscribe (is_keyspace "a") one)).1 ≡ true)
    × (already ≡ true)
    × (heard punsubscribe "a" joined ≡ some (2 ∷ []))
    × (heard punsubscribe "a" (removed_at punsubscribe "a" joined) ≡ none)
unfolding unsub_map lookup
psubscribe_between_example = psubscribe_between (1 ∷ []) (1 ∷ []) (2 ∷ []) "a" one refl refl
