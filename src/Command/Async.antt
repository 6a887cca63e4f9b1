-- ===== src/Command/Async.antt =====
-- redisson-rs/src/command/command_async_service.rs: commands and scripts as the rest of the program
-- sends them. `CommandBatchService` has the same methods but for `async0`; `is_batch` tells it apart.
pub mod Bounds
pub mod Scripting
pub mod Evict
pub mod Info
pub mod Probe
pub mod Rounds
pub mod Synced
mod Tests
use mathlib.Core.Option
use package.text.Mathlib.Text.{find?}
use redisson_rs.Base.{
  ℕ, String, Bool, true, false, not, ◌&&◌, Option, none, some, List, [], ◌∷◌, map, head?, is_some,
  if◌then◌else◌, Result, ok, err,
}
use redisson_rs.Base.Assoc.{Assoc}
use redisson_rs.Config.{RedissonConfig}
use redisson_rs.Config.Client.{Server}
use redisson_rs.Connection.{Topology, MasterSlaveEntry, get_write_entry}
use redisson_rs.Connection.ServiceManager.{LruCache, Statics, calc_sha}
use redisson_rs.Connection.ServiceManager.Caching.{has_caching_instances, evict_client_side_caching}
use redisson_rs.Command.Value.{
  Fred, Key, Value, text, Request, first_key, custom, Options, FredError,
}
use redisson_rs.Command.RedisCommand.{
  RedisCommand, eval, eval_sha, eval_sha_ro, is_read_only, routing_key,
}
use redisson_rs.Command.Execute.{Answer, Pool, Net, send, no_eval_sha_ro, execute}

pub record WaitSupport : Type 0 where
  pub wait : Bool
  pub wait_aof : Bool

-- What of it does not change; `config` is the connection manager's.
pub record CommandAsyncInner : Type 0 where
  pub config : RedissonConfig
  pub retry_attempts : Option ℕ
  pub response_timeout : Option ℕ
  pub track_changes : Bool
  pub is_batch : Bool

-- The part that does: what has been sent, the static caches, and `wait_support`.
pub record Process (F : Fred) (l : LruCache) : Type 0 where
  pub net : Net F
  pub statics : Statics l
  pub wait_support : Option WaitSupport

-- Of a service, and not of a batch.
abbrev pub new_all_params :
    RedissonConfig
    → (retry_attempts response_timeout : Option ℕ) (track_changes : Bool) → CommandAsyncInner
new_all_params config retry_attempts response_timeout track_changes = record {
  config = config;
  retry_attempts = retry_attempts;
  response_timeout = response_timeout;
  track_changes = track_changes;
  is_batch = false;
}

-- `CommandAsyncInner::new`
abbrev pub new : RedissonConfig → CommandAsyncInner
new config = new_all_params config none none false

abbrev pub build_options : CommandAsyncInner → Options
build_options i = record {
  max_attempts = i.retry_attempts;
  timeout = i.response_timeout;
  cluster_node = none;
}

abbrev pub is_eval_cache_active : CommandAsyncInner → Bool
is_eval_cache_active i = if i.is_batch then false else i.config.use_script_cache

-- `e.to_string().contains(words)`
abbrev pub says : FredError → String → Bool
says e words = is_some (find? e.display words)

abbrev pub pin : Option Server → Options → Options
pin none o = o
pin (some server) o = record o { cluster_node = some server }

abbrev pub eval_options : CommandAsyncInner → (no_retry : Bool) → Options
eval_options i no_retry =
    if no_retry then record (build_options i) { max_attempts = some 1 } else build_options i

module _ {F : Fred} where
  -- EVALSHA_RO for a script that only reads, while the servers are thought to have it.
  abbrev pub by_sha :
      (read_only : Bool) → String → List Key → List (Value F) → Net F → RedisCommand F
  by_sha read_only sha keys args n =
      if read_only && n.eval_sha_ro_supported
      then eval_sha_ro sha keys args
      else eval_sha sha keys args

  abbrev pub load_request : String → Request F
  load_request script = custom "SCRIPT" first_key (text "LOAD" ∷ text script ∷ [])

-- What the service stands on: the servers, fred's key slots and routing table, its hash of a
-- script, and the `LruCache`.
pub record Around (F : Fred) : Type 1 where
  pub pool : Pool F
  pub keyslot : Key → ℕ
  pub topology : Topology
  pub sha1_hash : String → String
  pub lru : LruCache

module _ {F : Fred} (v : Around F) where
  -- The primary of the first key's slot.
  abbrev pub node_of : List Key → Option Server
  node_of keys =
      Option.map (λ (e : MasterSlaveEntry). e.primary)
        (get_write_entry v.topology (elim (head? keys) [ none ↦ 0 | some k ↦ v.keyslot k ]))

  module _ {I : Type 0} (address : I → ℕ) where
    -- `async0`, with the instances that it tells to forget a key.
    unfoldable pub async0 :
        CommandAsyncInner → Assoc ℕ I → RedisCommand F → Net F → (Net F × List (I × Key)) × Answer F
    async0 i instances cmd n =
        let (n', r) = execute v.pool (build_options i) cmd n in
        elim r [
          | err e ↦ ((n', []), err e)
          | ok value ↦ (
            (
              n',
              if not (is_read_only cmd) && has_caching_instances address instances
                  then (elim (routing_key cmd) [
                    | none ↦ []
                    | some name ↦ map (λ j. (j, name)) (evict_client_side_caching address instances)
                  ])
                  else [],
            ),
            ok value,
          )
        ]

    abbrev pub write_async :
        CommandAsyncInner → Assoc ℕ I → RedisCommand F → Net F → (Net F × List (I × Key)) × Answer F
    write_async i instances cmd n = async0 i instances cmd n

  module _ (read_only : Bool) (script : String) (keys : List Key) (args : List (Value F)) where
    -- The branch of NOSCRIPT.
    unfoldable pub reload : Options → String → Net F → Net F × Answer F
    reload o sha n =
        let (n', r) = send v.pool o (load_request script) n in
        elim r [
          | ok loaded ↦ execute v.pool o (by_sha read_only sha keys args n') n'
          | err e ↦ (n', err e)
        ]

    -- The part after `calc_sha`.
    unfoldable pub eval_cached : Options → String → Net F → Net F × Answer F
    eval_cached o sha n =
        let (n', r) = execute v.pool o (by_sha read_only sha keys args n) n in
        elim r [
          | ok value ↦ (n', ok value)
          | err e ↦
              if says e "ERR unknown command"
              then execute v.pool o (eval_sha sha keys args) (no_eval_sha_ro v.pool o n')
              else if says e "NOSCRIPT"
              then reload o sha n'
              else (n', err e)
        ]

    unfoldable pub eval_async :
        CommandAsyncInner → (no_retry : Bool) → Process F v.lru → Process F v.lru × Answer F
    eval_async i no_retry s =
        if not (is_eval_cache_active i)
        then (let (n, r) = execute v.pool (eval_options i no_retry) (eval script keys args) s.net in
            (record s { net = n }, r))
        else (let (statics, sha) = calc_sha v.lru v.sha1_hash script s.statics in
            let (n, r) = eval_cached (pin (node_of keys) (eval_options i no_retry)) sha s.net in
            (record s { net = n; statics = statics }, r))

  module _ (i : CommandAsyncInner) (script : String) (keys : List Key) (args : List (Value F)) where
    abbrev pub eval_write_async : Process F v.lru → Process F v.lru × Answer F
    eval_write_async = eval_async false script keys args i false

    abbrev pub eval_write_no_retry_async : Process F v.lru → Process F v.lru × Answer F
    eval_write_no_retry_async = eval_async false script keys args i true

    abbrev pub eval_read_async : Process F v.lru → Process F v.lru × Answer F
    eval_read_async = eval_async true script keys args i false

    abbrev pub eval_write_fallback : (retry : Bool) → Process F v.lru → Process F v.lru × Answer F
    eval_write_fallback retry s = if retry then eval_write_async s else eval_write_no_retry_async s
