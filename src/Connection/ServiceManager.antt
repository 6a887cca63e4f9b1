-- ===== src/Connection/ServiceManager.antt =====
-- redisson-rs/src/connection/service_manager.rs: what the program remembers of the nodes, in three
-- static caches, and the listeners that make it forget. The hash of a script and the `LruCache` of
-- the crate `lru` are parameters.
pub mod Shas
pub mod History
pub mod Caching
mod Tests
pub mod Samples
use redisson_rs.Base.{
  ℕ, String, Bool, true, false, not, ◌&&◌, Option, none, some, List, [], ◌∷◌, ◌++◌, map, any,
  retain, Eq, ◌==◌, nat_eq, string_eq, arith, ◌≡◌, ◌↔◌, ◌⊎◌,
}
use redisson_rs.Base.Int.{ℤ}
use redisson_rs.Base.Assoc.{Assoc, lookup, insert, remove}
use redisson_rs.Config.Client.{Server}

abbrev pub same_server : Server → Server → Bool
same_server a b = a.host == b.host && a.port == b.port

pub same_server_iff : (a b : Server) → (same_server a b ≡ true) ↔ (a ≡ b)
same_server_iff a b = ground (arith, string_eq.beq_iff a.host b.host, nat_eq.beq_iff a.port b.port)

instance abbrev pub server_eq : Eq Server
server_eq = record { beq = same_server; beq_iff = same_server_iff }

-- SCRIPT_SHA_CACHE: the scripts' hashes known to each node, its sets as pairs.
abbrev pub ScriptCache : Type 0
ScriptCache = List (Server × String)

abbrev pub contains_sha : ScriptCache → Server → String → Bool
contains_sha cache server sha =
    any (λ (p : Server × String). same_server p.0 server && p.1 == sha) cache

pub record CachedSlaveInfo : Type 0 where
  pub connected_slaves : ℤ
  pub aof_enabled : Bool

-- `lru::LruCache<String, String>`, made for 500 entries.
pub record LruCache : Type 1 where
  pub Cache : Type 0
  pub empty : Cache
  pub get : String → Cache → Cache × Option String
  pub put : String → String → Cache → Cache
  pub peek : String → Cache → Option String

-- What its documentation says: `get` returns what is there and forgets nothing; `put` stores its
-- entry, and others may be evicted.
pub record IsLru (l : LruCache) : Type 0 where
  pub peek-empty : (k : String) → l.peek k l.empty ≡ none
  pub get_peek : (k : String) (c : l.Cache) → (l.get k c).1 ≡ l.peek k c
  pub peek-get : (k j : String) (c : l.Cache) → l.peek j (l.get k c).0 ≡ l.peek j c
  pub peek-put :
      (k j v u : String) (c : l.Cache)
      → l.peek j (l.put k v c) ≡ some u
      → ((k ≡ j) × (v ≡ u)) ⊎ (l.peek j c ≡ some u)

-- SCRIPT_SHA_CACHE, SHA_CACHE and SLAVE_INFO_CACHE
pub record Statics (l : LruCache) : Type 0 where
  pub script_shas : ScriptCache
  pub shas : l.Cache
  pub slave_info : Assoc Server CachedSlaveInfo

module _ (l : LruCache) where
  abbrev pub initial : Statics l
  initial = record { script_shas = []; shas = l.empty; slave_info = [] }

  abbrev pub clear_all_script_caches : Statics l → Statics l
  clear_all_script_caches s = record s { script_shas = [] }

  abbrev pub clear_all_slave_info : Statics l → Statics l
  clear_all_slave_info s = record s { slave_info = [] }

  abbrev pub forget : Server → ScriptCache → ScriptCache
  forget server cache = retain (λ (p : Server × String). not (p.0 == server)) cache

  -- The listener of `register_reconnect_listener`.
  unfoldable pub on_reconnect : Server → Statics l → Statics l
  on_reconnect server s = record s {
    script_shas = forget server s.script_shas;
    slave_info = remove server s.slave_info;
  }

  -- The listener that `FredConnectionManager::create` registers.
  unfoldable pub on_cluster_change : Statics l → Statics l
  on_cluster_change s = clear_all_slave_info (clear_all_script_caches s)

  abbrev pub get_slave_info : Server → Statics l → Option CachedSlaveInfo
  get_slave_info server s = lookup server s.slave_info

  abbrev pub set_slave_info : Server → CachedSlaveInfo → Statics l → Statics l
  set_slave_info server info s = record s { slave_info = insert server info s.slave_info }

  abbrev pub invalidate_slave_info : Server → Statics l → Statics l
  invalidate_slave_info server s = record s { slave_info = remove server s.slave_info }

  module _ (sha1_hash : String → String) where
    unfoldable pub calc_sha : String → Statics l → Statics l × String
    calc_sha script s =
        let (c, found) = l.get script s.shas in
        elim found [
          | some sha ↦ (record s { shas = c }, sha)
          | none ↦ let sha = sha1_hash script in (record s { shas = l.put script sha c }, sha)
        ]

    unfoldable pub is_cached : Server → String → Statics l → Statics l × Bool
    is_cached server script s =
        let (s', sha) = calc_sha script s in (s', contains_sha s'.script_shas server sha)

    unfoldable pub calc_shas : List String → Statics l → Statics l × List String
    calc_shas [] s = (s, [])
    calc_shas (script ∷ scripts) s =
        let (s', sha) = calc_sha script s in
        let (s'', shas) = calc_shas scripts s' in (s'', sha ∷ shas)

    unfoldable pub cache_scripts : Server → List String → Statics l → Statics l
    cache_scripts server scripts s =
        let (s', shas) = calc_shas scripts s in
        record s' { script_shas = s'.script_shas ++ map (λ sha. (server, sha)) shas }
