-- ===== src/Command/Async/Synced.antt =====
-- `synced_eval` of redisson-rs/src/command/command_async_service.rs: when it waits for slaves, and
-- when it evaluates the script as usual.
pub mod Returns
pub mod Once
pub mod Whole
mod Tests
use redisson_rs.Base.{
  ℕ, String, Bool, true, false, not, ◌&&◌, ◌||◌, Option, none, some, List, if◌then◌else◌, ◌==◌,
  Result, ok, err,
}
use redisson_rs.Base.Int.{ℤ, pos, int_eq}
use redisson_rs.Config.{ServerMode, standalone, cluster, sentinel}
use redisson_rs.Config.Client.{Server}
use redisson_rs.Connection.ServiceManager.{CachedSlaveInfo, get_slave_info, set_slave_info}
use redisson_rs.Command.Value.{Fred, Key, Value, Options, FredError}
use redisson_rs.Command.Execute.{Answer, Net}
use redisson_rs.Command.Async.{
  WaitSupport, CommandAsyncInner, build_options, pin, Around, Process, node_of, eval_write_fallback,
}
use redisson_rs.Command.Async.Probe.{ReplicationInfo, probe_wait_support, query_replication_info}
use redisson_rs.Command.Async.Rounds.{Beyond, Outcome, returned, refused, loop}

pub data SyncMode : Type 0 where
  auto wait wait_aof : SyncMode

abbrev pub is_single : ServerMode → Bool
is_single (standalone server db) = true
is_single (cluster nodes) = false
is_single (sentinel nodes name username password db) = false

abbrev pub skips : SyncMode → WaitSupport → Bool
skips auto s = not s.wait && not s.wait_aof
skips wait s = not s.wait
skips wait_aof s = not s.wait_aof

abbrev pub may_use_aof : SyncMode → Bool
may_use_aof auto = true
may_use_aof wait = false
may_use_aof wait_aof = true

module _ {F : Fred} (v : Around F) (b : Beyond F) (i : CommandAsyncInner)
    (queued_first : Bool → Bool) (script : String) (keys : List Key) (args : List (Value F)) where
  abbrev pub outcome_of : Answer F → Outcome F
  outcome_of (ok value) = returned (ok value)
  outcome_of (err e) = returned (err (refused e))

  abbrev pub fallback : (retry : Bool) → Process F v.lru → Option (Process F v.lru × Outcome F)
  fallback retry s =
      let (s', r) = eval_write_fallback v i script keys args retry s in some (s', outcome_of r)

  abbrev pub note_support :
      Process F v.lru
      → Net F × Result FredError WaitSupport
      → Process F v.lru × Result FredError WaitSupport
  note_support s (n, err e) = (record s { net = n }, err e)
  note_support s (n, ok found) = (record s { net = n; wait_support = some found }, ok found)

  -- `wait_support`, asked for when it is not there.
  abbrev pub supports_from :
      Options
      → Process F v.lru
      → Option WaitSupport
      → Process F v.lru × Result FredError WaitSupport
  supports_from o s (some known) = (s, ok known)
  supports_from o s none = note_support s (probe_wait_support v o s.net)

  unfoldable pub supports :
      Options → Process F v.lru → Process F v.lru × Result FredError WaitSupport
  supports o s = supports_from o s s.wait_support

  abbrev pub remembered : Option Server → Process F v.lru → Option CachedSlaveInfo
  remembered none s = none
  remembered (some server) s = get_slave_info v.lru server s.statics

  abbrev pub remember : Option Server → ReplicationInfo → Process F v.lru → Process F v.lru
  remember none info s = s
  remember (some server) info s = record s {
    statics =
        set_slave_info v.lru server
          (record { connected_slaves = info.connected_slaves; aof_enabled = info.aof_enabled })
          s.statics;
  }

  abbrev pub note_info :
      Option Server
      → Process F v.lru
      → Net F × Result FredError ReplicationInfo
      → Process F v.lru × Result FredError ReplicationInfo
  note_info cluster_node s (n, err e) = (record s { net = n }, err e)
  note_info cluster_node s (n, ok info) =
      (remember cluster_node info (record s { net = n }), ok info)

  abbrev pub info_of : CachedSlaveInfo → ReplicationInfo
  info_of cached = record {
    connected_slaves = cached.connected_slaves;
    aof_enabled = cached.aof_enabled;
  }

  -- The slaves of the node, asked for when they are not remembered.
  abbrev pub replication_from :
      Option Server
      → Options
      → Process F v.lru
      → Option CachedSlaveInfo
      → Process F v.lru × Result FredError ReplicationInfo
  replication_from cluster_node o s (some cached) = (s, ok (info_of cached))
  replication_from cluster_node o s none =
      note_info cluster_node s (query_replication_info v o b.as_string s.net)

  unfoldable pub replication :
      Option Server → Options → Process F v.lru → Process F v.lru × Result FredError ReplicationInfo
  replication cluster_node o s = replication_from cluster_node o s (remembered cluster_node s)

  module _ (mode : SyncMode) (retry : Bool) where
    abbrev pub uses_aof : WaitSupport → ReplicationInfo → Bool
    uses_aof support info = support.wait_aof && (info.aof_enabled && may_use_aof mode)

    abbrev pub available_slaves : WaitSupport → ReplicationInfo → ℤ
    available_slaves support info = if support.wait then info.connected_slaves else pos 0

    -- Once the slaves are known.
    unfoldable pub with_info :
        (fuel : ℕ) (cluster_node : Option Server)
        → WaitSupport
        → Process F v.lru × Result FredError ReplicationInfo
        → Option (Process F v.lru × Outcome F)
    with_info fuel cluster_node support (s, err e) = some (s, returned (err (refused e)))
    with_info fuel cluster_node support (s, ok info) =
        if available_slaves support info == pos 0 && not (uses_aof support info)
        then fallback retry s
        else loop v b i queued_first script keys args fuel cluster_node (uses_aof support info)
            (available_slaves support info) false s

    -- Once it is known what the node supports.
    unfoldable pub with_support :
        (fuel : ℕ) (cluster_node : Option Server)
        → Options
        → Process F v.lru × Result FredError WaitSupport
        → Option (Process F v.lru × Outcome F)
    with_support fuel cluster_node o (s, err e) = some (s, returned (err (refused e)))
    with_support fuel cluster_node o (s, ok support) =
        if skips mode support
        then fallback retry s
        else with_info fuel cluster_node support (replication cluster_node o s)

    unfoldable pub synced_eval : (fuel : ℕ) → Process F v.lru → Option (Process F v.lru × Outcome F)
    synced_eval fuel s =
        let cluster_node = node_of v keys in
        let o = pin cluster_node (build_options i) in
        if is_single i.config.mode || i.is_batch
        then fallback retry s
        else with_support fuel cluster_node o (supports o s)

  abbrev pub synced_eval_with_retry :
      (fuel : ℕ) → Process F v.lru → Option (Process F v.lru × Outcome F)
  synced_eval_with_retry fuel s = synced_eval wait true fuel s

  abbrev pub synced_eval_no_retry :
      (fuel : ℕ) → Process F v.lru → Option (Process F v.lru × Outcome F)
  synced_eval_no_retry fuel s = synced_eval wait false fuel s
