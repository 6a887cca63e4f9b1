-- ===== src/PubSub/Tasks/Agrees.antt =====
-- Overlapping calls of redisson-rs/src/pubsub/publish_subscribe_service.rs while the server refuses
-- nothing.
use mathlib.Core.List.{append-nil}
use redisson_rs.Base.{
  ℕ, zero, suc, ◌≡◌, refl, ap, ◌∙◌, sym, Bool, true, false, not, ◌&&◌, Option, none, some, List, [],
  ◌∷◌, arith, is_some, is_empty, All, All-append, string_eq, Bool-cases, inl, inr,
}
use redisson_rs.Base.Assoc.{lookup}
use redisson_rs.Config.{ServerMode}
use redisson_rs.PubSub.{
  ChannelName, ListenerId, Service, init, punsubscribe, is_cluster, psubscribe_begin,
  psubscribe_end, drop_all, unsub_map,
}
use redisson_rs.PubSub.Mode.{begin-mode, drop_all-mode, drop_all-keyspace}
use redisson_rs.PubSub.Heard.{heard-begun, begin-already}
use redisson_rs.PubSub.Unsubscribe.{heard, named, pruned-is_some, dropped_iff, drop_all-heard}
use redisson_rs.PubSub.Tasks.{
  Waiting, adding, removing, answer_to, System, begin, Action, calls_psubscribe, calls_remove,
  serves, resumes, pick, call_psubscribe, call_remove, serve_next, go_on, act, run,
}
use redisson_rs.PubSub.Tasks.History.{after_call, history, taken, taken-snoc, accepts, all_accepted}

abbrev Fine : Waiting × Bool → Type 0
Fine x = x.1 ≡ true

-- What holds between the calls, `o` being what they alone come to.
record IsAgreed (o : ChannelName → Option (List ListenerId)) (y : System) : Type 0 where
  single : is_cluster y.service.mode ≡ false
  fine : All Fine y.answered
  own : (j : ChannelName) → heard punsubscribe j y.service ≡ o j
  agree : (j : ChannelName) → taken y.sent y.subs j ≡ is_some (o j)

abbrev Picked : Option ((Waiting × Bool) × List (Waiting × Bool)) → Type 0
Picked none = Unit {0}
Picked (some (x, rest)) = Fine x × All Fine rest

pick-Fine : (n : ℕ) (xs : List (Waiting × Bool)) → All Fine xs → Picked (pick n xs)
pick-Fine n [] h = tt
pick-Fine zero (x ∷ xs) h = h
pick-Fine (suc n) (x ∷ xs) h = more (pick n xs) (pick-Fine n xs h.1)
  where
    more :
        (p : Option ((Waiting × Bool) × List (Waiting × Bool)))
        → Picked p
        → Picked (elim p [ none ↦ none | some (y, ys) ↦ some (y, x ∷ ys) ])
    more none m = tt
    more (some (y, ys)) m = (m.0, (h.0, m.1))

named-is_empty :
    (j : ChannelName) (names : List ChannelName) → is_empty names ≡ true → named j names ≡ false
named-is_empty j [] h = refl
named-is_empty j (name ∷ names) h = cc

module _ {o : ChannelName → Option (List ListenerId)} {y : System} (h : IsAgreed o y) where
  module _ (name : ChannelName) (ls : List ListenerId) where
    begun-own :
        (j : ChannelName)
        → heard punsubscribe j (psubscribe_begin name ls y.service).0
          ≡ after_call (calls_psubscribe name ls) j (o j)
    begun-own j =
        ground
          (arith, heard-begun name ls y.service j, h.own name, h.own j, string_eq.beq_iff name j)

    begun-single : is_cluster (psubscribe_begin name ls y.service).0.mode ≡ false
    begun-single = ap is_cluster (begin-mode name ls y.service) ∙ h.single

    call_psubscribe-IsAgreed :
        IsAgreed (λ j. after_call (calls_psubscribe name ls) j (o j)) (call_psubscribe name ls y)
    unfolding call_psubscribe
    call_psubscribe-IsAgreed = elim (Bool-cases (psubscribe_begin name ls y.service).1) [
      | inl known ↦ rw known (record {
        single = begun-single;
        fine = h.fine;
        own = begun-own;
        agree = λ j. ground (
          arith,
          h.agree j,
          h.own name,
          begin-already name ls y.service,
          string_eq.beq_iff name j,
        );
      })
      | inr new ↦ rw new (record {
        single = begun-single;
        fine = h.fine;
        own = begun-own;
        agree = λ j. ground (arith, h.agree j, taken-snoc y.sent (adding name) y.subs);
      })
    ]

  module _ (names : List ChannelName) (ids : List ListenerId) where
    abbrev dropped : Service × List ChannelName × List ChannelName
    dropped = drop_all punsubscribe ids names y.service

    dropped-own :
        (j : ChannelName)
        → heard punsubscribe j dropped.0 ≡ after_call (calls_remove names ids) j (o j)
    dropped-own j = ground (arith, drop_all-heard punsubscribe ids names y.service j, h.own j)

    dropped-single : is_cluster dropped.0.mode ≡ false
    dropped-single = ap is_cluster (drop_all-mode punsubscribe ids names y.service) ∙ h.single

    normal_iff :
        (j : ChannelName)
        → named j dropped.1 ≡ (is_some (o j) && not (is_some (heard punsubscribe j dropped.0)))
    normal_iff j = ground (
      arith,
      dropped_iff punsubscribe ids names y.service j,
      drop_all-keyspace ids names y.service h.single,
      append-nil dropped.1,
      h.own j,
    )

    -- A channel that was there and is not any more is one to unsubscribe from.
    left_over :
        (j : ChannelName)
        → is_some (after_call (calls_remove names ids) j (o j))
          ≡ (not (named j dropped.1) && is_some (o j))
    left_over j = ground (arith, normal_iff j, dropped-own j, pruned-is_some ids (o j))

    call_remove-IsAgreed :
        IsAgreed (λ j. after_call (calls_remove names ids) j (o j)) (call_remove names ids y)
    unfolding call_remove
    call_remove-IsAgreed = elim (Bool-cases (is_empty dropped.1)) [
      | inl none_left ↦ rw none_left (record {
        single = dropped-single;
        fine = h.fine;
        own = dropped-own;
        agree = λ j. ground (arith, h.agree j, left_over j, named-is_empty j dropped.1);
      })
      | inr some_left ↦ rw some_left (record {
        single = dropped-single;
        fine = h.fine;
        own = dropped-own;
        agree = λ j.
            ground (arith, h.agree j, left_over j, taken-snoc y.sent (removing dropped.1) y.subs);
      })
    ]

  serve_next-IsAgreed : (q : List Waiting) → y.sent ≡ q → IsAgreed o (serve_next true q y)
  serve_next-IsAgreed [] e = h
  serve_next-IsAgreed (x ∷ q) e = record {
    single = h.single;
    fine = All-append Fine y.answered ((x, true) ∷ []) h.fine (refl, tt);
    own = h.own;
    agree = λ j. ap (λ s. taken s y.subs j) (sym e) ∙ h.agree j;
  }

  go_on-IsAgreed :
      (p : Option ((Waiting × Bool) × List (Waiting × Bool))) → Picked p → IsAgreed o (go_on p y)
  unfolding psubscribe_end
  go_on-IsAgreed none m = h
  go_on-IsAgreed (some ((adding name, b), rest)) m =
      let kept : psubscribe_end name (answer_to (adding name) b) y.service ≡ y.service =
        ground (arith, m.0) in
      rw kept (record { single = h.single; fine = m.1; own = h.own; agree = h.agree })
  go_on-IsAgreed (some ((removing names, b), rest)) m = record {
    single = h.single;
    fine = m.1;
    own = h.own;
    agree = h.agree;
  }

act-IsAgreed :
    {o : ChannelName → Option (List ListenerId)} {y : System} (a : Action)
    → IsAgreed o y
    → accepts a ≡ true
    → IsAgreed (λ j. after_call a j (o j)) (act a y)
act-IsAgreed (calls_psubscribe name ls) h fine = call_psubscribe-IsAgreed h name ls
act-IsAgreed (calls_remove names ids) h fine = call_remove-IsAgreed h names ids
act-IsAgreed {y} (serves true) h fine = serve_next-IsAgreed h y.sent refl
act-IsAgreed (serves false) h fine = cc
act-IsAgreed {y} (resumes n) h fine =
    go_on-IsAgreed h (pick n y.answered) (pick-Fine n y.answered h.fine)

run-IsAgreed :
    {o : ChannelName → Option (List ListenerId)} {y : System} (acts : List Action)
    → IsAgreed o y
    → all_accepted acts ≡ true
    → IsAgreed (λ j. history acts j (o j)) (run acts y)
unfolding run
run-IsAgreed [] h fine = h
run-IsAgreed {o = o} {y = y} (a ∷ acts) h fine =
    run-IsAgreed {o = λ j. after_call a j (o j)} {y = act a y} acts
      (act-IsAgreed a h (ground arith)) (ground arith)

begin-IsAgreed : (mode : ServerMode) → is_cluster mode ≡ false → IsAgreed (λ j. none) (begin mode)
unfolding init unsub_map lookup
begin-IsAgreed mode single = record {
  single = single;
  fine = tt;
  own = λ j. ground arith;
  agree = λ j. refl;
}

-- Outside cluster mode, when each call of `psubscribe` and `remove_listener` runs from wait to wait
-- with no other between, as on a runtime with one thread, in whatever order they are called and their
-- tasks go on, as long as the server reads the requests in the order of their sending and refuses
-- nothing: a channel has the listeners that the calls, one after the other, come to, and it has an
-- entry exactly when the server is subscribed to it once it has taken the requests on their way.
pub run-agrees :
    (mode : ServerMode) (acts : List Action)
    → is_cluster mode ≡ false
    → all_accepted acts ≡ true
    → (j : ChannelName)
    → (heard punsubscribe j (run acts (begin mode)).service ≡ history acts j none)
      × (taken (run acts (begin mode)).sent (run acts (begin mode)).subs j
          ≡ is_some (heard punsubscribe j (run acts (begin mode)).service))
run-agrees mode acts single fine j =
    let end = run-IsAgreed acts (begin-IsAgreed mode single) fine in
    (end.own j, end.agree j ∙ ap is_some (sym (end.own j)))
