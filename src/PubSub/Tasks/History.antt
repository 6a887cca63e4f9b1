-- ===== src/PubSub/Tasks/History.antt =====
-- What overlapping calls of redisson-rs/src/pubsub/publish_subscribe_service.rs come to when each is
-- done in full at once, and the requests that are on their way.
use redisson_rs.Base.{
  ◌≡◌, refl, Bool, true, ◌&&◌, Option, some, List, [], ◌∷◌, ◌++◌, ◌==◌, string_eq, if◌then◌else◌,
}
use redisson_rs.PubSub.{ChannelName, ListenerId, or_default}
use redisson_rs.PubSub.Synced.{Subscriptions, change}
use redisson_rs.PubSub.Unsubscribe.{named, pruned}
use redisson_rs.PubSub.Tasks.{
  Waiting, request_of, Action, calls_psubscribe, calls_remove, serves, resumes,
}

-- A channel's listeners by the calls alone, each done in full at once.
abbrev pub after_call : Action → ChannelName → Option (List ListenerId) → Option (List ListenerId)
after_call (calls_psubscribe name ls) j o = if name == j then some (or_default o ++ ls) else o
after_call (calls_remove names ids) j o = if named j names then pruned ids o else o
after_call (serves accepted) j o = o
after_call (resumes n) j o = o

abbrev pub history : List Action → ChannelName → Option (List ListenerId) → Option (List ListenerId)
history [] j o = o
history (a ∷ rest) j o = history rest j (after_call a j o)

-- The subscriptions once the server has taken the requests that are on their way.
abbrev pub taken : List Waiting → Subscriptions → Subscriptions
taken [] subs = subs
taken (x ∷ rest) subs = taken rest (change (request_of x) subs)

abbrev pub accepts : Action → Bool
accepts (serves accepted) = accepted
accepts _ = true

abbrev pub all_accepted : List Action → Bool
all_accepted [] = true
all_accepted (a ∷ rest) = accepts a && all_accepted rest

pub taken-snoc :
    (q : List Waiting) (x : Waiting) (subs : Subscriptions)
    → taken (q ++ (x ∷ [])) subs ≡ change (request_of x) (taken q subs)
taken-snoc [] x subs = refl
taken-snoc (y ∷ q) x subs = taken-snoc q x (change (request_of y) subs)
