-- ===== src/Command/Async/Rounds.antt =====
-- The loop of `synced_eval` (redisson-rs/src/command/command_async_service.rs): a script evaluated
-- through a batch that waits for the slaves. The task that queues the script runs beside the
-- execution of the batch; `queued_first` says which came first, with `script_loaded` as its argument.
pub mod Ends
pub mod Race
pub mod Queued
use redisson_rs.Base.{
  ℕ, zero, suc, String, Bool, true, false, not, ◌&&◌, Option, none, some, List, [], ◌∷◌,
  if◌then◌else◌, ◌==◌, nat_eq, Result, ok, err,
}
use redisson_rs.Base.Int.{ℤ, pos, int_eq, is_positive}
use redisson_rs.Config.Client.{Server}
use redisson_rs.Connection.{Topology, MasterSlaveEntry}
use redisson_rs.Connection.ServiceManager.{ScriptCache, Statics, invalidate_slave_info}
use redisson_rs.Command.Value.{Fred, Key, Value, Request, script_load_cluster, Options, FredError}
use redisson_rs.Command.RedisCommand.{eval}
use redisson_rs.Command.Execute.{Answer, send}
use redisson_rs.Command.BatchOptions.{BatchOptions, defaults, sync, sync_aof}
use redisson_rs.Command.Batch.{BatchError, BatchResult, Delivery}
use redisson_rs.Command.Batch
use redisson_rs.Command.Batch.InMemory.{World, NodeMap}
use redisson_rs.Command.Batch.RedisBased.{Link, Deadline}
use redisson_rs.Command.Batch.Service.{Session, Closed, async0, execute_async}
use redisson_rs.Command.Async.{CommandAsyncInner, Around, Process}
use redisson_rs.Command.Async.Info.{Chars}

pub data AsyncError (F : Fred) : Type 0 where
  refused : FredError → AsyncError F
  failed : BatchError F → AsyncError F
  none_synced channel_closed : AsyncError F

-- A call returns, or waits for a message that no one will send.
pub data Outcome (F : Fred) : Type 0 where
  returned : Result (AsyncError F) (Value F) → Outcome F
  waits_forever : Outcome F

-- What a batch stands on besides, and fred's conversion of a value to a string.
pub record Beyond (F : Fred) : Type 0 where
  pub topologies : ℕ → ℕ → Topology
  pub pipeline : MasterSlaveEntry → Bool → List (Request F) → List (Answer F)
  pub answer : Request F → Answer F
  pub node_order : NodeMap F → NodeMap F
  pub finish_order : NodeMap F → NodeMap F
  pub link : Link F
  pub deadline : Deadline
  pub is_noscript : BatchError F → Bool
  pub as_string : Value F → Result FredError Chars

abbrev pub batch_options : CommandAsyncInner → (use_aof : Bool) (available : ℤ) → BatchOptions
batch_options i use_aof available =
    if use_aof
    then sync_aof (pos 1) available i.config.slaves_sync_timeout defaults
    else sync available i.config.slaves_sync_timeout defaults

abbrev pub unpinned : Options
unpinned = record { max_attempts = none; timeout = none; cluster_node = none }

-- `eval_handle.await`: the first message on the script's channel. The channel of a script that was
-- in the batch is closed when the batch is done; one that came too late stays open.
unfoldable pub received : {F : Fred} → (queued : Bool) → List (Delivery F) → Outcome F
received true [] = returned (err channel_closed)
received false [] = waits_forever
received queued ((tx, ok value) ∷ sent) =
    let rest = received queued sent in if tx == 0 then returned (ok value) else rest
received queued ((tx, err e) ∷ sent) =
    let rest = received queued sent in if tx == 0 then returned (err (failed e)) else rest

module _ {F : Fred} (v : Around F) (b : Beyond F) where
  abbrev pub world : World F
  world = record {
    keyslot = v.keyslot;
    topology = b.topologies;
    pipeline = b.pipeline;
    answer = b.answer;
    sha1_hash = v.sha1_hash;
    node_order = b.node_order;
    finish_order = b.finish_order;
  }

  abbrev pub started : CommandAsyncInner → BatchOptions → Session world b.link
  started i o = record { batch = Batch.new i.config o; log = [] }

  -- The batch is executed, with the script in its queue or before it is there.
  abbrev pub run_batch :
      CommandAsyncInner
      → (script : String) (keys : List Key) (args : List (Value F)) (queued use_aof : Bool)
        (available : ℤ)
      → ScriptCache
      → Closed world b.link
  run_batch i script keys args queued use_aof available cache =
      let session = started i (batch_options i use_aof available) in
      execute_async world b.link i.config b.deadline
        (if queued then (async0 world b.link (eval script keys args) session).0 else session) cache

module _ {F : Fred} (v : Around F) (b : Beyond F) (i : CommandAsyncInner)
    (queued_first : Bool → Bool) (script : String) (keys : List Key) (args : List (Value F)) where
  abbrev pub invalidated : Option Server → Statics v.lru → Statics v.lru
  invalidated none s = s
  invalidated (some server) s = invalidate_slave_info v.lru server s

  -- How a round of the loop ends: with `continue`, or with a return.
  pub data Turn : Type 0 where
    again : Process F v.lru → Turn
    finished : Process F v.lru → Outcome F → Turn

  unfoldable pub conclude :
      (cluster_node : Option Server) (available : ℤ) (script_loaded : Bool)
      → Process F v.lru
      → List (Delivery F)
      → Result (BatchError F) (BatchResult F)
      → Turn
  conclude cluster_node available script_loaded s sent (err e) =
      if not script_loaded && b.is_noscript e
      then again s
      else finished s (returned (err (failed e)))
  conclude cluster_node available script_loaded s sent (ok r) =
      let s' =
        if r.synced_slaves == available
        then s
        else record s { statics = invalidated cluster_node s.statics } in
      if i.config.check_lock_synced_slaves && (r.synced_slaves == pos 0 && is_positive available)
      then finished s' (returned (err none_synced))
      else finished s' (received (queued_first script_loaded) sent)

  unfoldable pub attempt :
      (cluster_node : Option Server) (use_aof : Bool) (available : ℤ) (script_loaded : Bool)
      → Process F v.lru
      → Turn
  attempt cluster_node use_aof available script_loaded s =
      let closed =
        run_batch v b i script keys args (queued_first script_loaded) use_aof available
          s.statics.script_shas in
      conclude cluster_node available script_loaded
        (record s { statics = record s.statics { script_shas = closed.cache } }) closed.sent
        closed.result

  -- One round.
  unfoldable pub turn :
      (cluster_node : Option Server) (use_aof : Bool) (available : ℤ) (script_loaded : Bool)
      → Process F v.lru
      → Turn
  turn cluster_node use_aof available false s = attempt cluster_node use_aof available false s
  turn cluster_node use_aof available true s =
      let (n, r) = send v.pool unpinned (script_load_cluster script) s.net in
      elim r [
        | err e ↦ finished (record s { net = n }) (returned (err (refused e)))
        | ok value ↦ attempt cluster_node use_aof available true (record s { net = n })
      ]

  -- The loop; `none` when the fuel runs out.
  unfoldable pub loop :
      (fuel : ℕ) (cluster_node : Option Server) (use_aof : Bool) (available : ℤ)
      (script_loaded : Bool)
      → Process F v.lru
      → Option (Process F v.lru × Outcome F)
  loop zero cluster_node use_aof available script_loaded s = none
  loop (suc fuel) cluster_node use_aof available script_loaded s =
      elim (turn cluster_node use_aof available script_loaded s) [
        | again s' ↦ loop fuel cluster_node use_aof available true s'
        | finished s' out ↦ some (s', out)
      ]
