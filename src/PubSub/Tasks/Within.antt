-- ===== src/PubSub/Tasks/Within.antt =====
-- Overlapping calls of redisson-rs/src/pubsub/publish_subscribe_service.rs, whatever the server answers.
use redisson_rs.Base.{
  ◌≡◌, refl, Bool, true, false, not, ◌&&◌, ◌||◌, Option, none, some, List, [], ◌∷◌, ◌++◌, arith,
  string_eq, nat_eq, if◌then◌else◌, Bool-cases, inl, inr, is_empty,
}
use redisson_rs.PubSub.{
  ChannelName, ListenerId, Service, punsubscribe, or_default, contains, keep, psubscribe_begin,
  psubscribe_end, clear_listeners, drop_all,
}
use redisson_rs.PubSub.Subscribe.{lookup-clear_listeners, clear_listeners-other}
use redisson_rs.PubSub.Heard.{heard-begun, heard-changed}
use redisson_rs.PubSub.Unsubscribe.{heard, pruned, drop_all-heard}
use redisson_rs.PubSub.Tasks.{
  Waiting, adding, removing, System, Action, calls_psubscribe, calls_remove, serves, resumes, pick,
  call_psubscribe, call_remove, serve_next, go_on, act, run,
}
use redisson_rs.PubSub.Tasks.History.{after_call, history}

abbrev pub has : ListenerId → Option (List ListenerId) → Bool
has l o = contains (or_default o) l

has-append :
    (l : ListenerId) (xs ys : List ListenerId)
    → contains (xs ++ ys) l ≡ (contains xs l || contains ys l)
has-append l [] ys = refl
has-append l (x ∷ xs) ys = ground (arith, has-append l xs ys)

has-keep :
    (l : ListenerId) (ids ls : List ListenerId)
    → contains (keep ids ls) l ≡ (contains ls l && not (contains ids l))
has-keep l ids [] = refl
has-keep l ids (x ∷ ls) = ground (arith, has-keep l ids ls, nat_eq.beq_iff x l)

has-pruned :
    (l : ListenerId) (ids : List ListenerId) (o : Option (List ListenerId))
    → has l (pruned ids o) ≡ (has l o && not (contains ids l))
has-pruned l ids none = refl
has-pruned l ids (some []) = refl
has-pruned l ids (some (x ∷ ls)) = empty (keep ids (x ∷ ls)) (has-keep l ids (x ∷ ls))
  where
    empty :
        (left : List ListenerId)
        → contains left l ≡ (contains (x ∷ ls) l && not (contains ids l))
        → has l (if is_empty left then none else some left)
          ≡ (contains (x ∷ ls) l && not (contains ids l))
    empty [] h = h
    empty (y ∷ ys) h = h

-- Every listener that is heard is among those of `o`.
abbrev Within : (ChannelName → Option (List ListenerId)) → Service → Type 0
Within o s =
    (j : ChannelName) (l : ListenerId) → has l (heard punsubscribe j s) ≡ true → has l (o j) ≡ true

cleared-Within :
    (name : ChannelName) (s : Service) (o : ChannelName → Option (List ListenerId))
    → Within o s
    → Within o (clear_listeners name s)
cleared-Within name s o h j l there = ground (
  arith,
  heard-changed name j s (clear_listeners name s) _ (lookup-clear_listeners name j s)
      (clear_listeners-other name s),
  h j l,
)

module _ (o : ChannelName → Option (List ListenerId)) (y : System) (h : Within o y.service) where
  begun-Within :
      (name : ChannelName) (ls : List ListenerId)
      → Within
          (λ j. after_call (calls_psubscribe name ls) j (o j))
          (psubscribe_begin name ls y.service).0
  begun-Within name ls j l there = ground (
    arith,
    heard-begun name ls y.service j,
    string_eq.beq_iff name j,
    has-append l (or_default (heard punsubscribe name y.service)) ls,
    has-append l (or_default (o j)) ls,
    h j l,
  )

  dropped-Within :
      (names : List ChannelName) (ids : List ListenerId)
      → Within
          (λ j. after_call (calls_remove names ids) j (o j))
          (drop_all punsubscribe ids names y.service).0
  dropped-Within names ids j l there = ground (
    arith,
    drop_all-heard punsubscribe ids names y.service j,
    has-pruned l ids (heard punsubscribe j y.service),
    has-pruned l ids (o j),
    h j l,
  )

  go_on-Within :
      (p : Option ((Waiting × Bool) × List (Waiting × Bool))) → Within o (go_on p y).service
  unfolding psubscribe_end
  go_on-Within none = h
  go_on-Within (some ((adding name, true), rest)) = h
  go_on-Within (some ((adding name, false), rest)) = cleared-Within name y.service o h
  go_on-Within (some ((removing names, b), rest)) = h

  serve-Within : (accepted : Bool) (q : List Waiting) → Within o (serve_next accepted q y).service
  serve-Within accepted [] = h
  serve-Within accepted (x ∷ q) = h

  call_psubscribe-Within :
      (name : ChannelName) (ls : List ListenerId)
      → Within
          (λ j. after_call (calls_psubscribe name ls) j (o j))
          (call_psubscribe name ls y).service
  unfolding call_psubscribe
  call_psubscribe-Within name ls = elim (Bool-cases (psubscribe_begin name ls y.service).1) [
    | inl known ↦ rw known (begun-Within name ls)
    | inr new ↦ rw new (begun-Within name ls)
  ]

  call_remove-Within :
      (names : List ChannelName) (ids : List ListenerId)
      → Within (λ j. after_call (calls_remove names ids) j (o j)) (call_remove names ids y).service
  unfolding call_remove
  call_remove-Within names ids =
      elim (Bool-cases (is_empty (drop_all punsubscribe ids names y.service).1)) [
        | inl none_left ↦ rw none_left (dropped-Within names ids)
        | inr some_left ↦ rw some_left (dropped-Within names ids)
      ]

act-Within :
    (a : Action) (o : ChannelName → Option (List ListenerId)) (y : System)
    → Within o y.service
    → Within (λ j. after_call a j (o j)) (act a y).service
act-Within (calls_psubscribe name ls) o y h = call_psubscribe-Within o y h name ls
act-Within (calls_remove names ids) o y h = call_remove-Within o y h names ids
act-Within (serves accepted) o y h = serve-Within o y h accepted y.sent
act-Within (resumes n) o y h = go_on-Within o y h (pick n y.answered)

-- Outside cluster mode, however calls overlap that each run from wait to wait, and whatever the server
-- answers, a listener that a channel has is among those that the calls, one after the other, would
-- leave it, when each channel begins with at least the listeners that it has: one that was removed and
-- not added again is not heard.
pub run-within :
    (acts : List Action) (y : System) (o : ChannelName → Option (List ListenerId))
    → ((j : ChannelName) (l : ListenerId)
        → has l (heard punsubscribe j y.service) ≡ true
        → has l (o j) ≡ true)
    → (j : ChannelName) (l : ListenerId) → has l (heard punsubscribe j (run acts y).service) ≡ true
    → has l (history acts j (o j)) ≡ true
unfolding run
run-within [] y o h = h
run-within (a ∷ acts) y o h =
    run-within acts (act a y) (λ j. after_call a j (o j)) (act-Within a o y h)
