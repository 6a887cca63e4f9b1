-- ===== src/PubSub/Tasks.antt =====
-- Calls of `psubscribe` and `remove_listener` of redisson-rs/src/pubsub/publish_subscribe_service.rs
-- that overlap. The model is for services outside cluster mode, where no channel goes to the nodes one
-- by one, and for a runtime with one thread: each call runs from wait to wait, so `contains_key` and
-- `entry`, and `retain` and `remove`, are one step here (Tasks.Removal takes the latter apart). The
-- subscriber client has one connection: the server reads the requests in the order in which they were
-- sent. The tasks whose answers are there go on in any order.
pub mod History
pub mod Agrees
pub mod Within
pub mod Refused
pub mod Removal
mod Tests
use mathlib.Core.Option
use redisson_rs.Base.{
  ℕ, zero, suc, Bool, true, false, Option, none, some, List, [], ◌∷◌, ◌++◌, is_empty, if◌then◌else◌,
  ok, err,
}
use redisson_rs.Config.{ServerMode}
use redisson_rs.PubSub.{
  ChannelName, ListenerId, Service, Request, init, subscribing, unsubscribing, psubscribe,
  punsubscribe, refused, Reply, psubscribe_begin, psubscribe_end, drop_all,
}
use redisson_rs.PubSub.Synced.{Subscriptions, change}

-- A call that has sent its request.
pub data Waiting : Type 0 where
  adding : ChannelName → Waiting
  removing : List ChannelName → Waiting

abbrev pub request_of : Waiting → Request
request_of (adding name) = subscribing psubscribe name
request_of (removing names) = unsubscribing punsubscribe names

abbrev pub answer_to : Waiting → Bool → Reply
answer_to x true = ok tt
answer_to x false = err (refused (request_of x))

-- What a call does when its answer is there; `remove_listener` only returns.
abbrev pub after_answer : Waiting → Reply → Service → Service
after_answer (adding name) answer s = psubscribe_end name answer s
after_answer (removing names) answer s = s

-- The service, the server's subscriptions, the requests that are on their way, the calls whose
-- requests are answered (accepted or not) and that have not gone on, and the results of those that
-- have returned.
pub record System : Type 0 where
  pub service : Service
  pub subs : Subscriptions
  pub sent : List Waiting
  pub answered : List (Waiting × Bool)
  pub returned : List Reply

abbrev pub begin : ServerMode → System
begin mode = record {
  service = init mode;
  subs = λ j. false;
  sent = [];
  answered = [];
  returned = [];
}

abbrev pub returns : Service → Reply → System → System
returns s answer y = record y { service = s; returned = y.returned ++ (answer ∷ []) }

abbrev pub waits : Service → Waiting → System → System
waits s x y = record y { service = s; sent = y.sent ++ (x ∷ []) }

pub data Action : Type 0 where
  calls_psubscribe : ChannelName → List ListenerId → Action
  calls_remove : List ChannelName → List ListenerId → Action
  serves : (accepted : Bool) → Action
  resumes : ℕ → Action

-- The element at a place, and the others.
abbrev pub pick {ℓ} : {A : Type ℓ} → ℕ → List A → Option (A × List A)
pick n [] = none
pick zero (x ∷ xs) = some (x, xs)
pick (suc n) (x ∷ xs) = elim (pick n xs) [ none ↦ none | some (y, ys) ↦ some (y, x ∷ ys) ]

-- `psubscribe` up to its wait, outside cluster mode and with no other thread between.
unfoldable pub call_psubscribe : ChannelName → List ListenerId → System → System
call_psubscribe name ls y =
    let (s, already) = psubscribe_begin name ls y.service in
    if already then returns s (ok tt) y else waits s (adding name) y

-- `remove_listener` up to its wait, outside cluster mode, where no channel goes to the nodes, and
-- with no other thread between.
unfoldable pub call_remove : List ChannelName → List ListenerId → System → System
call_remove names ids y =
    let (s, normal, keyspace) = drop_all punsubscribe ids names y.service in
    if is_empty normal then returns s (ok tt) y else waits s (removing normal) y

-- The server reads the first request that is on its way.
abbrev pub serve_next : Bool → List Waiting → System → System
serve_next accepted [] y = y
serve_next accepted (x ∷ rest) y = record y {
  subs = if accepted then change (request_of x) y.subs else y.subs;
  sent = rest;
  answered = y.answered ++ ((x, accepted) ∷ []);
}

abbrev pub go_on : Option ((Waiting × Bool) × List (Waiting × Bool)) → System → System
go_on none y = y
go_on (some ((x, accepted), rest)) y =
    returns (after_answer x (answer_to x accepted) y.service) (answer_to x accepted)
      (record y { answered = rest })

abbrev pub act : Action → System → System
act (calls_psubscribe name ls) y = call_psubscribe name ls y
act (calls_remove names ids) y = call_remove names ids y
act (serves accepted) y = serve_next accepted y.sent y
act (resumes n) y = go_on (pick n y.answered) y

unfoldable pub run : List Action → System → System
run [] y = y
run (a ∷ rest) y = run rest (act a y)
