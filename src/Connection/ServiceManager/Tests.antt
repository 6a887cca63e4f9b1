-- ===== src/Connection/ServiceManager/Tests.antt =====
-- The caches of two nodes.
use redisson_rs.Base.{
  ℕ, String, true, false, some, List, [], ◌∷◌, if◌then◌else◌, ◌==◌, nat_eq, string_eq, ◌≡◌, refl,
}
use redisson_rs.Base.Int.{pos}
use redisson_rs.Base.Assoc.{insert, remove}
use redisson_rs.Config.Client.{Server}
use redisson_rs.Connection.ServiceManager.{CachedSlaveInfo, get_slave_info, is_cached}
use redisson_rs.Connection.ServiceManager.Samples.{lists, lists-IsLru}
use redisson_rs.Connection.ServiceManager.History.{
  Event, loaded, informed, reconnected, asked, after, has_loaded, is_cached-has_loaded,
  get_slave_info-last_info,
}
use redisson_rs.Connection.ServiceManager.Caching.{
  Call, added, removed, evict_client_side_caching, is_registered, times, evict-registered,
}
use redisson_rs.Connection.ServiceManager.Caching

abbrev first : Server
first = record { host = "first"; port = 7000 }

abbrev second : Server
second = record { host = "second"; port = 7001 }

abbrev info : CachedSlaveInfo
info = record { connected_slaves = pos 2; aof_enabled = true }

abbrev hash : String → String
hash script = if script == "return 1" then "e0e1" else "0000"

-- Both nodes load a script, then the first reconnects.
abbrev events : List Event
events =
    reconnected first
    ∷ asked first "return 1"
    ∷ informed second info
    ∷ loaded second ("return 1" ∷ [])
    ∷ informed first info
    ∷ loaded first ("return 1" ∷ [])
    ∷ []

told :
    (has_loaded lists hash events first "e0e1" ≡ false)
    × (has_loaded lists hash events second "e0e1" ≡ true)
told = (refl, refl)

is_cached-has_loaded_example :
    (is_cached lists hash second "return 1" (after lists hash events)).1
    ≡ has_loaded lists hash events second "e0e1"
is_cached-has_loaded_example = is_cached-has_loaded lists hash lists-IsLru events second "return 1"

get_slave_info-last_info_example : get_slave_info lists second (after lists hash events) ≡ some info
get_slave_info-last_info_example = get_slave_info-last_info lists hash lists-IsLru events second

abbrev same : ℕ → ℕ
same i = i

-- Two instances are registered, and one of them is gone.
called_once :
    evict_client_side_caching same (Caching.after same (removed 8 ∷ added 9 ∷ added 8 ∷ []))
    ≡ 9 ∷ []
unfolding evict_client_side_caching insert remove
called_once = refl
