-- ===== src/Connection/ServiceManager/History.antt =====
-- What the caches of redisson-rs/src/connection/service_manager.rs hold, told from the history of
-- the calls.
use redisson_rs.Base.{
  String, Bool, false, not, ◌&&◌, ◌||◌, Option, none, some, List, [], ◌∷◌, map, any, if◌then◌else◌,
  ◌==◌, nat_eq, string_eq, arith, ◌≡◌, refl, ap, ◌∙◌,
}
use redisson_rs.Base.Assoc.{lookup, lookup-insert, lookup-remove}
use redisson_rs.Config.Client.{Server}
use redisson_rs.Connection.ServiceManager.{
  server_eq, contains_sha, CachedSlaveInfo, LruCache, IsLru, Statics, initial, on_reconnect,
  on_cluster_change, get_slave_info, set_slave_info, invalidate_slave_info, calc_sha, is_cached,
  cache_scripts,
}
use redisson_rs.Connection.ServiceManager.Shas.{
  IsRight, calc_sha-Hashed, calc_shas-Hashed, contains_sha-append, contains_sha-of, any-map,
  contains_sha-forget,
}

-- What happens to the caches.
pub data Event : Type 0 where
  hashed : (script : String) → Event
  asked : (server : Server) (script : String) → Event
  loaded : (server : Server) (scripts : List String) → Event
  informed : (server : Server) (info : CachedSlaveInfo) → Event
  invalidated : (server : Server) → Event
  reconnected : (server : Server) → Event
  cluster_changed : Event

module _ (l : LruCache) (sha1_hash : String → String) where
  abbrev pub step : Event → Statics l → Statics l
  step (hashed script) s = (calc_sha l sha1_hash script s).0
  step (asked server script) s = (is_cached l sha1_hash server script s).0
  step (loaded server scripts) s = cache_scripts l sha1_hash server scripts s
  step (informed server info) s = set_slave_info l server info s
  step (invalidated server) s = invalidate_slave_info l server s
  step (reconnected server) s = on_reconnect l server s
  step cluster_changed s = on_cluster_change l s

  -- After the events of a history, the latest of them first.
  abbrev pub after : List Event → Statics l
  after [] = initial l
  after (e ∷ h) = step e (after h)

  -- The node has loaded a script with that hash since it last reconnected and since the cluster
  -- last changed.
  abbrev pub has_loaded : List Event → Server → String → Bool
  has_loaded [] server sha = false
  has_loaded (loaded s scripts ∷ h) server sha =
      (s == server && any (λ x. sha1_hash x == sha) scripts) || has_loaded h server sha
  has_loaded (reconnected s ∷ h) server sha = not (s == server) && has_loaded h server sha
  has_loaded (cluster_changed ∷ h) server sha = false
  has_loaded (_ ∷ h) server sha = has_loaded h server sha

  -- What was last said of the node's slaves, if nothing has made it void.
  abbrev pub last_info : List Event → Server → Option CachedSlaveInfo
  last_info [] server = none
  last_info (informed s info ∷ h) server = if s == server then some info else last_info h server
  last_info (invalidated s ∷ h) server = if s == server then none else last_info h server
  last_info (reconnected s ∷ h) server = if s == server then none else last_info h server
  last_info (cluster_changed ∷ h) server = none
  last_info (_ ∷ h) server = last_info h server

  module _ (lru : IsLru l) where
    after-IsRight : (h : List Event) → IsRight l sha1_hash (after h).shas
    unfolding on_reconnect on_cluster_change is_cached cache_scripts
    after-IsRight [] = λ k u there. absurd (ground (arith, lru.peek-empty k))
    after-IsRight (hashed script ∷ h) =
        (calc_sha-Hashed l sha1_hash lru script (after h) (after-IsRight h)).right
    after-IsRight (asked server script ∷ h) =
        (calc_sha-Hashed l sha1_hash lru script (after h) (after-IsRight h)).right
    after-IsRight (loaded server scripts ∷ h) =
        (calc_shas-Hashed l sha1_hash lru scripts (after h) (after-IsRight h)).right
    after-IsRight (informed server info ∷ h) = after-IsRight h
    after-IsRight (invalidated server ∷ h) = after-IsRight h
    after-IsRight (reconnected server ∷ h) = after-IsRight h
    after-IsRight (cluster_changed ∷ h) = after-IsRight h

    contains_sha-after :
        (h : List Event) (server : Server) (sha : String)
        → contains_sha (after h).script_shas server sha ≡ has_loaded h server sha
    unfolding on_reconnect on_cluster_change is_cached cache_scripts
    contains_sha-after [] server sha = refl
    contains_sha-after (hashed script ∷ h) server sha =
        rw (calc_sha-Hashed l sha1_hash lru script (after h) (after-IsRight h)).scripts_kept
          (contains_sha-after h server sha)
    contains_sha-after (asked s script ∷ h) server sha =
        rw (calc_sha-Hashed l sha1_hash lru script (after h) (after-IsRight h)).scripts_kept
          (contains_sha-after h server sha)
    contains_sha-after (loaded s scripts ∷ h) server sha =
        let all = calc_shas-Hashed l sha1_hash lru scripts (after h) (after-IsRight h) in
        rw
          (
            all.scripts_kept,
            all.shas,
            contains_sha-append (after h).script_shas (map (λ x. (s, x)) (map sha1_hash scripts))
                server sha,
            contains_sha-of s server (map sha1_hash scripts) sha,
            any-map sha1_hash scripts sha,
            contains_sha-after h server sha,
          )
          (ground arith)
    contains_sha-after (informed s info ∷ h) server sha = contains_sha-after h server sha
    contains_sha-after (invalidated s ∷ h) server sha = contains_sha-after h server sha
    contains_sha-after (reconnected s ∷ h) server sha =
        contains_sha-forget l s server (after h).script_shas sha
        ∙ ap (λ b. not (s == server) && b) (contains_sha-after h server sha)
    contains_sha-after (cluster_changed ∷ h) server sha = refl

    -- After any calls, a node is said to have a script exactly when it has loaded one of that hash
    -- since it last reconnected and since the cluster last changed.
    pub is_cached-has_loaded :
        (h : List Event) (server : Server) (script : String)
        → (is_cached l sha1_hash server script (after h)).1 ≡ has_loaded h server (sha1_hash script)
    unfolding is_cached
    is_cached-has_loaded h server script =
        let one = calc_sha-Hashed l sha1_hash lru script (after h) (after-IsRight h) in
        rw (one.scripts_kept, one.sha) (contains_sha-after h server (sha1_hash script))

    -- After any calls, the hash of a script is right, whether it was remembered or not.
    pub calc_sha-sha1_hash :
        (h : List Event) (script : String)
        → (calc_sha l sha1_hash script (after h)).1 ≡ sha1_hash script
    calc_sha-sha1_hash h script =
        (calc_sha-Hashed l sha1_hash lru script (after h) (after-IsRight h)).sha

    -- After any calls, what is remembered of a node's slaves is what was last said of them, unless it
    -- has been made void since, by a call, a reconnection of the node or a change of the cluster.
    pub get_slave_info-last_info :
        (h : List Event) (server : Server) → get_slave_info l server (after h) ≡ last_info h server
    unfolding on_reconnect on_cluster_change is_cached cache_scripts lookup
    get_slave_info-last_info [] server = refl
    get_slave_info-last_info (hashed script ∷ h) server =
        rw (calc_sha-Hashed l sha1_hash lru script (after h) (after-IsRight h)).info_kept
          (get_slave_info-last_info h server)
    get_slave_info-last_info (asked s script ∷ h) server =
        rw (calc_sha-Hashed l sha1_hash lru script (after h) (after-IsRight h)).info_kept
          (get_slave_info-last_info h server)
    get_slave_info-last_info (loaded s scripts ∷ h) server =
        rw (calc_shas-Hashed l sha1_hash lru scripts (after h) (after-IsRight h)).info_kept
          (get_slave_info-last_info h server)
    get_slave_info-last_info (informed s info ∷ h) server =
        lookup-insert s server info (after h).slave_info
        ∙ ap (λ o. if s == server then some info else o) (get_slave_info-last_info h server)
    get_slave_info-last_info (invalidated s ∷ h) server =
        lookup-remove s server (after h).slave_info
        ∙ ap (λ o. if s == server then none else o) (get_slave_info-last_info h server)
    get_slave_info-last_info (reconnected s ∷ h) server =
        lookup-remove s server (after h).slave_info
        ∙ ap (λ o. if s == server then none else o) (get_slave_info-last_info h server)
    get_slave_info-last_info (cluster_changed ∷ h) server = refl
