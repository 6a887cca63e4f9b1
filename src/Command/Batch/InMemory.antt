-- ===== src/Command/Batch/InMemory.antt =====
-- `execute_in_memory` of redisson-rs/src/command/command_batch_service.rs, with `resolve_entry` and
-- `load_scripts`: the queued commands are gathered by node, and each node gets one pipeline.
use redisson_rs.Base.{
  ℕ, zero, suc, ◌+◌, String, Bool, true, false, not, ◌&&◌, none, some, List, [], ◌∷◌, ◌++◌, map,
  any, is_empty, leb, ◌==◌, nat_eq, string_eq, if◌then◌else◌, Result, ok, err, ◌>>=◌, ◌>>◌,
}
use redisson_rs.Base.Int.{ℤ, pos, ◌+ℤ◌, is_positive, u32_add}
use redisson_rs.Config.{RedissonConfig, ReadMode, master, slave, master_slave}
use redisson_rs.Config.Client.{Server}
use redisson_rs.Connection.{MasterSlaveEntry, Topology, same_node, get_write_entry}
use redisson_rs.Connection.ServiceManager.{ScriptCache, contains_sha}
use redisson_rs.Command.Value.{Fred, Key, Value, text, null, Request, custom, custom_slot}
use redisson_rs.Command.RedisCommand.{RedisCommand, eval, eval_sha, routing_key, execute_on}
use redisson_rs.Command.Execute.{Answer}
use redisson_rs.Command.BatchOptions.{BatchOptions}
use redisson_rs.Command.Batch.{
  BatchCommandData, Entry, new_entry, add_command, BatchError, no_server, script_load_failed,
  Delivery, BatchResult, unwrap_or,
}
use redisson_rs.Command.Batch.Reply.{
  pop, zip, make_wait_cmd, extract_synced_slaves, value_or_null, send_all, distribute_exec_results,
  collect_exec_indexed,
}

abbrev pub NodeMap : Fred → Type 0
NodeMap F = List (MasterSlaveEntry × Entry F)

-- The world outside. fred's key slots and routing, the latter as it is for a command's index at each
-- attempt; the answers of the pipeline made for a node, to a replica or not; the answer to one
-- request; the hash of a script; the orders in which a `HashMap` yields its nodes and a `JoinSet` its
-- tasks.
pub record World (F : Fred) : Type 0 where
  pub keyslot : Key → ℕ
  pub topology : ℕ → ℕ → Topology
  pub pipeline : MasterSlaveEntry → Bool → List (Request F) → List (Answer F)
  pub answer : Request F → Answer F
  pub sha1_hash : String → String
  pub node_order : NodeMap F → NodeMap F
  pub finish_order : NodeMap F → NodeMap F

module _ {F : Fred} (w : World F) where
  abbrev pub slot_of : RedisCommand F → ℕ
  slot_of cmd = elim (routing_key cmd) [ none ↦ 0 | some key ↦ w.keyslot key ]

  -- `resolve_entry`, with the attempts that are left after this one.
  unfoldable pub resolve_from :
      (index slot attempt left : ℕ) → Result (BatchError F) MasterSlaveEntry
  resolve_from index slot attempt zero = elim (get_write_entry (w.topology index attempt) slot) [
    | some mse ↦ ok mse
    | none ↦ err (no_server slot (u32_add attempt 1))
  ]
  resolve_from index slot attempt (suc left) =
      elim (get_write_entry (w.topology index attempt) slot) [
        | some mse ↦ ok mse
        | none ↦ resolve_from index slot (attempt + 1) left
      ]

  -- `node_map.entry(mse).or_insert_with(Entry::new).add_command(data)`
  unfoldable pub push_command : MasterSlaveEntry → BatchCommandData F → NodeMap F → NodeMap F
  push_command mse d [] = (mse, add_command d new_entry) ∷ []
  push_command mse d ((m, e) ∷ rest) =
      if same_node m mse then (m, add_command d e) ∷ rest else (m, e) ∷ push_command mse d rest

  unfoldable pub gather :
      (retries : ℕ) → List (BatchCommandData F) → NodeMap F → Result (BatchError F) (NodeMap F)
  gather retries [] nodes = ok nodes
  gather retries (d ∷ ds) nodes = do
    mse ← resolve_from d.index (slot_of d.cmd) 0 retries
    gather retries ds (push_command mse d nodes)

  -- `load_scripts`: the scripts of a node that are to be loaded, each once.
  unfoldable pub add_load : ScriptCache → Server → RedisCommand F → List String → List String
  add_load cache server (eval script keys args) loads =
      if not (contains_sha cache server (w.sha1_hash script)) && not (any (λ s. s == script) loads)
      then loads ++ (script ∷ [])
      else loads
  add_load cache server _ loads = loads

  unfoldable pub to_load :
      ScriptCache → Server → List (BatchCommandData F) → List String → List String
  to_load cache server [] loads = loads
  to_load cache server (d ∷ ds) loads = to_load cache server ds (add_load cache server d.cmd loads)

  abbrev pub script_load : ℕ → String → Request F
  script_load slot script = custom "SCRIPT" (custom_slot slot) (text "LOAD" ∷ text script ∷ [])

  unfoldable pub load_all : ℕ → List String → Result (BatchError F) (Unit {0})
  load_all slot [] = ok tt
  load_all slot (script ∷ scripts) = elim (w.answer (script_load slot script)) [
    | ok v ↦ load_all slot scripts
    | err e ↦ err (script_load_failed e)
  ]

  abbrev pub by_sha : RedisCommand F → RedisCommand F
  by_sha (eval script keys args) = eval_sha (w.sha1_hash script) keys args
  by_sha cmd = cmd

  abbrev pub use_sha : BatchCommandData F → BatchCommandData F
  use_sha d = record d { cmd = by_sha d.cmd }

  unfoldable pub load_nodes :
      NodeMap F → ScriptCache → Result (BatchError F) (NodeMap F × ScriptCache)
  load_nodes [] cache = ok ([], cache)
  load_nodes ((mse, e) ∷ nodes) cache =
      let loads = to_load cache mse.primary e.commands [] in
      do
        load_all (unwrap_or mse.slot 0) loads
        (rest, cache') ←
            load_nodes nodes (cache ++ map (λ script. (mse.primary, w.sha1_hash script)) loads)
        ok ((mse, record e { commands = map use_sha e.commands }) ∷ rest, cache')

  abbrev pub load_scripts :
      RedissonConfig → NodeMap F → ScriptCache → Result (BatchError F) (NodeMap F × ScriptCache)
  load_scripts cfg nodes cache =
      if cfg.use_script_cache then load_nodes nodes cache else ok (nodes, cache)

  abbrev pub is_master : ReadMode → Bool
  is_master master = true
  is_master slave = false
  is_master master_slave = false

  abbrev pub use_replica : RedissonConfig → (is_atomic : Bool) → Entry F → Bool
  use_replica cfg is_atomic e = not is_atomic && e.read_only && not (is_master cfg.read_mode)

  abbrev pub when : Bool → Request F → List (Request F)
  when true r = r ∷ []
  when false r = []

  abbrev pub waits : BatchOptions → Bool
  waits o = is_positive o.sync_slaves

  -- What a node's pipeline holds.
  abbrev pub requests :
      BatchOptions → (is_atomic : Bool) → MasterSlaveEntry → Entry F → List (Request F)
  requests o is_atomic mse e =
      let slot = unwrap_or mse.slot 0 in
      when is_atomic (custom "MULTI" (custom_slot slot) [])
      ++ (map (λ (d : BatchCommandData F). execute_on d.cmd) e.commands
          ++ (when is_atomic (custom "EXEC" (custom_slot slot) [])
              ++ when (waits o) (make_wait_cmd slot o)))

  -- What a task leaves: what it sent to the callers, and its result.
  abbrev pub Done : Type 0
  Done = List (Delivery F) × Result (BatchError F) (ℤ × List (ℕ × Value F))

  -- That part without the answer to WAIT.
  unfoldable pub settle : BatchOptions → (is_atomic : Bool) → Entry F → ℤ → List (Answer F) → Done
  settle o is_atomic e synced results =
      let indexes = map (λ (d : BatchCommandData F). d.index) e.commands in
      let txs = map (λ (d : BatchCommandData F). d.tx) e.commands in
      if o.skip_result
      then (send_all (ok null) txs, ok (synced, []))
      else if is_atomic
      then (let exec_result = (pop results).1 in
          let (sent, distributed) = distribute_exec_results exec_result txs in
          (sent, distributed >>= λ _. ok (synced, collect_exec_indexed exec_result indexes)))
      else (
        map (λ (p : ℕ × Answer F). (p.0, ok (value_or_null p.1))) (zip txs results),
        ok (synced, map (λ (p : ℕ × Answer F). (p.0, value_or_null p.1)) (zip indexes results)),
      )

  -- The part of a task after `try_all`.
  unfoldable pub read_results : BatchOptions → (is_atomic : Bool) → Entry F → List (Answer F) → Done
  read_results o is_atomic e results =
      if waits o
      then (let (rest, last) = pop results in
          settle o is_atomic e (extract_synced_slaves last) rest)
      else settle o is_atomic e (pos 0) results

  unfoldable pub run_node :
      RedissonConfig → BatchOptions → (is_atomic : Bool) → MasterSlaveEntry × Entry F → Done
  run_node cfg o is_atomic (mse, e) =
      read_results o is_atomic e
        (w.pipeline mse (use_replica cfg is_atomic e) (requests o is_atomic mse e))

  -- The tasks in the order in which they finish, up to the first that fails; the others are aborted.
  unfoldable pub join : List Done → ℤ → List (ℕ × Value F) → Done
  join [] synced indexed = ([], ok (synced, indexed))
  join ((sent, err e) ∷ tasks) synced indexed = (sent, err e)
  join ((sent, ok (s, idx)) ∷ tasks) synced indexed =
      let (later, result) = join tasks (synced +ℤ s) (indexed ++ idx) in (sent ++ later, result)

-- `sort_by_key`, which is stable.
module _ {ℓ} {A : Type ℓ} where
  unfoldable pub insert_by_key : ℕ × A → List (ℕ × A) → List (ℕ × A)
  insert_by_key p [] = p ∷ []
  insert_by_key p (q ∷ qs) = if leb p.0 q.0 then p ∷ q ∷ qs else q ∷ insert_by_key p qs

  unfoldable pub sort_by_key : List (ℕ × A) → List (ℕ × A)
  sort_by_key [] = []
  sort_by_key (p ∷ ps) = insert_by_key p (sort_by_key ps)

module _ {F : Fred} (w : World F) where
  -- How an execution ends: what was sent to the callers, the script cache, and the result.
  pub record Ended : Type 0 where
    pub sent : List (Delivery F)
    pub cache : ScriptCache
    pub result : Result (BatchError F) (BatchResult F)

  abbrev pub finish : ℤ × List (ℕ × Value F) → BatchResult F
  finish (synced, indexed) = record {
    responses = map (λ (p : ℕ × Value F). p.1) (sort_by_key indexed);
    synced_slaves = synced;
  }

  -- The tasks are spawned and joined.
  unfoldable pub run_nodes :
      RedissonConfig → BatchOptions → (is_atomic : Bool) → NodeMap F → ScriptCache → Ended
  run_nodes cfg o is_atomic nodes cache =
      let (sent, result) =
        join w (map (run_node w cfg o is_atomic) (w.finish_order nodes)) (pos 0) [] in
      record { sent = sent; cache = cache; result = result >>= λ r. ok (finish r) }

  abbrev pub failed : BatchError F → ScriptCache → Ended
  failed e cache = record { sent = []; cache = cache; result = err e }

  unfoldable pub execute_in_memory :
      RedissonConfig
      → BatchOptions
      → (retries : ℕ) → (is_atomic : Bool) → List (BatchCommandData F)
      → ScriptCache
      → Ended
  execute_in_memory cfg o retries is_atomic commands cache =
      if is_empty commands
      then record {
        sent = [];
        cache = cache;
        result = ok (record { responses = []; synced_slaves = pos 0 });
      }
      else (elim (gather w retries commands []) [
        | err e ↦ failed e cache
        | ok nodes ↦ elim (load_scripts w cfg (w.node_order nodes) cache) [
          | err e ↦ failed e cache
          | ok (loaded, cache') ↦ run_nodes cfg o is_atomic loaded cache'
        ]
      ])
