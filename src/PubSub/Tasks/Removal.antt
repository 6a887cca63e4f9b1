-- ===== src/PubSub/Tasks/Removal.antt =====
-- The two map operations of which a turn of `remove_listener` in
-- redisson-rs/src/pubsub/publish_subscribe_service.rs consists: the entry is locked while its listeners
-- are pruned, and again to take it out. On another thread a call can come between.
use redisson_rs.Base.{
  ◌≡◌, refl, ap, ◌∙◌, Bool, true, false, Option, none, some, List, [], ◌∷◌, arith, is_some,
  is_empty, string_eq, if◌then◌else◌, ==-refl,
}
use redisson_rs.Base.Assoc.{lookup, insert, remove, lookup-insert, lookup-remove}
use redisson_rs.PubSub.{
  ChannelName, is_keyspace, ListenerId, Listeners, Service, punsubscribe, unsubscribe, sunsubscribe,
  UnsubscribeType, psubscribe_begin, or_default, unsub_map, with_unsub_map, keep, drop_from,
}
use redisson_rs.PubSub.Heard.{heard-begun, begin-already}
use redisson_rs.PubSub.Unsubscribe.{heard}

-- `retain` and `is_empty` on the entry that `get_mut` finds.
abbrev pub prune_entry :
    List ListenerId → ChannelName → Listeners → Option (List ListenerId) → Listeners × Bool
prune_entry ids name m none = (m, false)
prune_entry ids name m (some ls) = (insert name (keep ids ls) m, is_empty (keep ids ls))

unfoldable pub prune : List ListenerId → ChannelName → Listeners → Listeners × Bool
prune ids name m = prune_entry ids name m (lookup name m)

-- A turn that nothing interrupts.
abbrev pub prune_and_remove : List ListenerId → ChannelName → Listeners → Listeners × Bool
prune_and_remove ids name m =
    let (left, empty) = prune ids name m in (if empty then remove name left else left, empty)

pub prune-drop_from :
    (ids : List ListenerId) (name j : ChannelName) (m : Listeners)
    → (lookup j (prune_and_remove ids name m).0 ≡ lookup j (drop_from ids name m).0)
      × ((prune_and_remove ids name m).1 ≡ (drop_from ids name m).1)
unfolding prune drop_from
prune-drop_from ids name j m = (
  ground (
    arith,
    string_eq.beq_iff name j,
    lookup-remove name j m,
    lookup-insert name j (keep ids (or_default (lookup name m))) m,
    lookup-remove name j (insert name (keep ids (or_default (lookup name m))) m),
  ),
  ground arith,
)

module _ (type : UnsubscribeType) where
  -- The two steps on the service.
  abbrev pub pruned_at : List ListenerId → ChannelName → Service → Service
  pruned_at ids name s =
      with_unsub_map type (is_keyspace name)
        (prune ids name (unsub_map type (is_keyspace name) s)).0 s

  abbrev pub removed_at : ChannelName → Service → Service
  removed_at name s =
      with_unsub_map type (is_keyspace name) (remove name (unsub_map type (is_keyspace name) s)) s

unsub_map-with_self :
    (type : UnsubscribeType) (k : Bool) (m : Listeners) (s : Service)
    → unsub_map type k (with_unsub_map type k m s) ≡ m
unfolding unsub_map with_unsub_map
unsub_map-with_self unsubscribe k m s = refl
unsub_map-with_self sunsubscribe k m s = refl
unsub_map-with_self punsubscribe true m s = refl
unsub_map-with_self punsubscribe false m s = refl

is_empty-nil : (ls : List ListenerId) → is_empty ls ≡ true → ls ≡ []
is_empty-nil [] h = refl
is_empty-nil (l ∷ ls) h = cc

module _ (ids ls : List ListenerId) (name : ChannelName) (m : Listeners)
    (there : lookup name m ≡ some ls) (gone : is_empty (keep ids ls) ≡ true) where
  pruned-empty : (prune ids name m).1 ≡ true
  unfolding prune
  pruned-empty = ap (λ o. (prune_entry ids name m o).1) there ∙ gone

  lookup-pruned : lookup name (prune ids name m).0 ≡ some []
  unfolding prune
  lookup-pruned =
      ap (λ o. lookup name (prune_entry ids name m o).0) there
      ∙ lookup-insert name name (keep ids ls) m
      ∙ rw (==-refl {A = ChannelName} name) (ap some (is_empty-nil (keep ids ls) gone))

-- When `remove_listener` leaves no listener on a channel and `psubscribe` on it comes before the entry
-- is taken out, `psubscribe` finds the channel, asks the server for nothing and succeeds, and its
-- listeners go with the entry.
pub psubscribe_between :
    (ids ls ls' : List ListenerId) (name : ChannelName) (s : Service)
    → heard punsubscribe name s ≡ some ls
    → is_empty (keep ids ls) ≡ true
    → let (joined, already) = psubscribe_begin name ls' (pruned_at punsubscribe ids name s) in
      ((prune ids name (unsub_map punsubscribe (is_keyspace name) s)).1 ≡ true)
      × (already ≡ true)
      × (heard punsubscribe name joined ≡ some ls')
      × (heard punsubscribe name (removed_at punsubscribe name joined) ≡ none)
psubscribe_between ids ls ls' name s there gone =
    let k = is_keyspace name in
    let left = pruned_at punsubscribe ids name s in
    let joined = (psubscribe_begin name ls' left).0 in
    let emptied : heard punsubscribe name left ≡ some [] =
      ap (lookup name) (unsub_map-with_self punsubscribe k _ s)
      ∙ lookup-pruned ids ls name _ there gone in
    (
      pruned-empty ids ls name _ there gone,
      begin-already name ls' left ∙ ap is_some emptied,
      ground (arith, heard-begun name ls' left name, emptied, ==-refl {A = ChannelName} name),
      ap (lookup name) (unsub_map-with_self punsubscribe k _ joined)
          ∙ lookup-remove name name (unsub_map punsubscribe k joined)
          ∙ rw (==-refl {A = ChannelName} name),
    )
