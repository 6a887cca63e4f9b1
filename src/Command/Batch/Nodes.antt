-- ===== src/Command/Batch/Nodes.antt =====
-- Which node gets a command (`resolve_entry`), and when a pipeline may go to a replica
-- (redisson-rs/src/command/command_batch_service.rs).
use native.Mathlib.Nat.{add-zero}
use mathlib.Core.List.Permᴰ as Permᴰ
use redisson_rs.Base.{
  ℕ, zero, suc, ◌+◌, ◌%◌, ◌^◌, ◌≤◌, ◌<◌, ◌≡◌, refl, ◌∙◌, ap, Bool, true, false, ◌||◌, ◌==◌,
  string_eq, if◌then◌else◌, Bool-cases, ◌⊎◌, inl, inr, none, some, Option-cases, List, [], ◌∷◌,
  ◌++◌, map, arith, Result, ok, err, ok_inj, bind_ok, All, All-append,
}
use redisson_rs.Config.{RedissonConfig}
use redisson_rs.Connection.{MasterSlaveEntry, same_node, get_write_entry}
use redisson_rs.Command.Value.{Fred, Request, custom}
use redisson_rs.Command.RedisCommand.{
  RedisCommand, is_read_only, execute_on, eval, eval_sha, eval_sha_ro, sort, sort_ro, wait_aof,
}
use redisson_rs.Command.BatchOptions.{BatchOptions}
use redisson_rs.Command.Batch.Reply.{make_wait_cmd}
use redisson_rs.Base.Int.{is_positive}
use redisson_rs.Command.Batch.{
  BatchCommandData, Entry, new_entry, add_command, BatchError, no_server, unwrap_or,
}
use redisson_rs.Command.Batch.Responses.{IsFair}
use redisson_rs.Command.Batch.Order.{All-Perm}
use redisson_rs.Connection.ServiceManager.{ScriptCache}
use redisson_rs.Command.Batch.InMemory.{
  NodeMap, World, resolve_from, slot_of, push_command, gather, by_sha, use_sha, use_replica,
  requests, to_load, load_all, load_nodes, load_scripts,
}

module _ {F : Fred} (w : World F) where
  -- The node that attempt `k` finds, and none before it.
  abbrev pub IsFirst : (index slot start k : ℕ) → MasterSlaveEntry → Type 0
  IsFirst index slot start k mse =
      (get_write_entry (w.topology index (start + k)) slot ≡ some mse)
      × ((j : ℕ) → j < k → get_write_entry (w.topology index (start + j)) slot ≡ none)

  abbrev Misses : (index slot k : ℕ) → Type 0
  Misses index slot k = get_write_entry (w.topology index k) slot ≡ none

  shift :
      (index slot start bound : ℕ)
      → Misses index slot start
      → ((j : ℕ) → j < bound → Misses index slot (start + 1 + j))
      → (j : ℕ) → j < suc bound
      → Misses index slot (start + j)
  shift index slot start bound first later zero less = rw (add-zero start) first
  shift index slot start bound first later (suc j) less =
      ap (λ k. get_write_entry (w.topology index k) slot) (omega arith) ∙ later j (omega arith)

  -- Node resolution that begins with attempt `start` and has `left` retries tries at most one time more
  -- than that. It gives the node of the first attempt that finds one; when none does, it fails with
  -- the slot and the number of attempts, those before `start` included, which wraps at 2 ^ 32.
  pub resolve_from-IsFirst :
      (index slot start left : ℕ)
      → ((k : ℕ) × (mse : MasterSlaveEntry) × (k ≤ left)
          × IsFirst index slot start k mse
          × (resolve_from w index slot start left ≡ ok mse))
        ⊎ (((j : ℕ) → j < suc left → get_write_entry (w.topology index (start + j)) slot ≡ none)
            × (resolve_from w index slot start left
                ≡ err (no_server slot ((start + left + 1) % 2 ^ 32))))
  unfolding resolve_from
  resolve_from-IsFirst index slot start zero =
      elim (Option-cases (get_write_entry (w.topology index start) slot)) [
        | inr (mse, is) ↦ inl (
          0,
          mse,
          omega arith,
          (rw (add-zero start) is, λ j less. absurd (omega arith)),
          rw (resolve_from, is) refl,
        )
        | inl is ↦ inr (
          shift index slot start 0 is (λ j less. absurd (omega arith)),
          rw (resolve_from, is) (ap (λ k. err (no_server slot k)) (omega arith)),
        )
      ]
  resolve_from-IsFirst index slot start (suc left) =
      elim (Option-cases (get_write_entry (w.topology index start) slot)) [
        | inr (mse, is) ↦ inl (
          0,
          mse,
          omega arith,
          (rw (add-zero start) is, λ j less. absurd (omega arith)),
          rw (resolve_from, is) refl,
        )
        | inl is ↦ elim (resolve_from-IsFirst index slot (start + 1) left) [
          | inl (k, mse, le, (found, before), result) ↦ inl (
            suc k,
            mse,
            omega arith,
            (
              ap (λ k. get_write_entry (w.topology index k) slot) (omega arith) ∙ found,
              shift index slot start k is before,
            ),
            rw (resolve_from, is) result,
          )
          | inr (none_found, result) ↦ inr (
            shift index slot start (suc left) is none_found,
            rw (resolve_from, is) (result ∙ ap (λ k. err (no_server slot k)) (omega arith)),
          )
        ]
      ]

  -- The flag of an entry is the truth about its commands.
  abbrev pub IsFlagged : MasterSlaveEntry × Entry F → Type 0
  IsFlagged (m, e) =
      e.read_only ≡ true → All (λ (d : BatchCommandData F). is_read_only d.cmd ≡ true) e.commands

  add_command-IsFlagged :
      (m : MasterSlaveEntry) (d : BatchCommandData F) (e : Entry F)
      → IsFlagged (m, e)
      → IsFlagged (m, add_command d e)
  add_command-IsFlagged m d e flagged reads =
      All-append (λ (d : BatchCommandData F). is_read_only d.cmd ≡ true) e.commands (d ∷ [])
        (flagged (ground arith)) (ground arith, tt)

  push_command-IsFlagged :
      (mse : MasterSlaveEntry) (d : BatchCommandData F) (nodes : NodeMap F)
      → All IsFlagged nodes
      → All IsFlagged (push_command w mse d nodes)
  unfolding push_command
  push_command-IsFlagged mse d [] flagged =
      (add_command-IsFlagged mse d new_entry (λ reads. tt), tt)
  push_command-IsFlagged mse d ((m, e) ∷ nodes) flagged = elim (Bool-cases (same_node m mse)) [
    | inl same ↦ rw same (add_command-IsFlagged m d e flagged.0, flagged.1)
    | inr other ↦ rw other (flagged.0, push_command-IsFlagged mse d nodes flagged.1)
  ]

  gather-IsFlagged :
      (retries : ℕ) (ds : List (BatchCommandData F)) (nodes nodes' : NodeMap F)
      → All IsFlagged nodes
      → gather w retries ds nodes ≡ ok nodes'
      → All IsFlagged nodes'
  unfolding gather
  gather-IsFlagged retries [] nodes nodes' flagged done = rw⁻¹ (ok_inj done) flagged
  gather-IsFlagged retries (d ∷ ds) nodes nodes' flagged done =
      let (mse, is, rest) = bind_ok (resolve_from w d.index (slot_of w d.cmd) 0 retries) _ done in
      gather-IsFlagged retries ds (push_command w mse d nodes) nodes'
        (push_command-IsFlagged mse d nodes flagged) rest

  by_sha-reads :
      (cmd : RedisCommand F) → is_read_only cmd ≡ true → is_read_only (by_sha w cmd) ≡ true
  unfolding is_read_only
  by_sha-reads (eval script keys args) reads = absurd (ground arith)
  by_sha-reads _ reads = reads

  use_sha-reads :
      (ds : List (BatchCommandData F))
      → All (λ (d : BatchCommandData F). is_read_only d.cmd ≡ true) ds
      → All (λ (d : BatchCommandData F). is_read_only d.cmd ≡ true) (map (use_sha w) ds)
  use_sha-reads [] reads = tt
  use_sha-reads (d ∷ ds) reads = (by_sha-reads d.cmd reads.0, use_sha-reads ds reads.1)

  load_nodes-IsFlagged :
      (nodes loaded : NodeMap F) (cache cache' : ScriptCache)
      → All IsFlagged nodes
      → load_nodes w nodes cache ≡ ok (loaded, cache')
      → All IsFlagged loaded
  unfolding load_nodes
  load_nodes-IsFlagged [] loaded cache cache' flagged done =
      rw⁻¹ (ap (λ (p : NodeMap F × ScriptCache). p.0) (ok_inj done)) tt
  load_nodes-IsFlagged ((m, e) ∷ nodes) loaded cache cache' flagged done =
      let loads = to_load w cache m.primary e.commands [] in
      let (u, answered, next) = bind_ok (load_all w (unwrap_or m.slot 0) loads) _ done in
      let ((rest, later), is, last) =
        bind_ok
          (load_nodes w nodes (cache ++ map (λ script. (m.primary, w.sha1_hash script)) loads)) _
          next in
      rw⁻¹ (ap (λ (p : NodeMap F × ScriptCache). p.0) (ok_inj last)) (
        λ reads. use_sha-reads e.commands (flagged.0 reads),
        load_nodes-IsFlagged nodes rest _ later flagged.1 is,
      )

  load_scripts-IsFlagged :
      (cfg : RedissonConfig) (nodes loaded : NodeMap F) (cache cache' : ScriptCache)
      → All IsFlagged nodes
      → load_scripts w cfg nodes cache ≡ ok (loaded, cache')
      → All IsFlagged loaded
  load_scripts-IsFlagged cfg nodes loaded cache cache' flagged done =
      elim (Bool-cases cfg.use_script_cache) [
        | inl cached ↦ load_nodes-IsFlagged nodes loaded cache cache' flagged (rw cached at done)
        | inr plain ↦
            let same : ◌≡◌ {A = Result (BatchError F) (NodeMap F × ScriptCache)} (ok (nodes, cache))
                (ok (loaded, cache')) =
              rw plain at done in
            rw⁻¹ (ap (λ (p : NodeMap F × ScriptCache). p.0) (ok_inj same)) flagged
      ]

  -- The requests of commands that only read, as a pipeline makes them.
  abbrev pub reads : Request F → Bool
  reads (Request.get key) = true
  reads (Request.exists keys) = true
  reads (Request.ttl key) = true
  reads (Request.pttl key) = true
  reads (Request.hget key field) = true
  reads (Request.hgetall key) = true
  reads (Request.hexists key field) = true
  reads (Request.hlen key) = true
  reads (Request.smembers key) = true
  reads (Request.sismember key member) = true
  reads (Request.scard key) = true
  reads (Request.zscore key member) = true
  reads (Request.zcard key) = true
  reads (custom name hash args) = name == "EVALSHA" || name == "SORT"
  reads r = false

  execute_on-reads :
      (cmd : RedisCommand F) → is_read_only cmd ≡ true → reads (execute_on cmd) ≡ true
  unfolding is_read_only execute_on
  execute_on-reads (eval_sha_ro sha keys args) is = refl
  execute_on-reads (sort_ro key) is = refl
  execute_on-reads (eval script keys args) is = absurd (ground arith)
  execute_on-reads (eval_sha sha keys args) is = absurd (ground arith)
  execute_on-reads (sort key) is = absurd (ground arith)
  execute_on-reads (wait_aof numlocal numreplicas timeout) is = absurd (ground arith)
  execute_on-reads _ is = is

  all-reads :
      (ds : List (BatchCommandData F))
      → All (λ (d : BatchCommandData F). is_read_only d.cmd ≡ true) ds
      → All
          (λ (d : BatchCommandData F).
            (is_read_only d.cmd ≡ true) × (reads (execute_on d.cmd) ≡ true))
          ds
  all-reads [] h = tt
  all-reads (d ∷ ds) h = ((h.0, execute_on-reads d.cmd h.0), all-reads ds h.1)

  -- The whole of a pipeline that goes to a replica: requests of reading commands, and then WAIT or
  -- WAITAOF when slaves are to be synchronised.
  abbrev pub OnlyReads : RedissonConfig → BatchOptions → Bool → MasterSlaveEntry × Entry F → Type 0
  OnlyReads cfg o is_atomic (m, e) =
      use_replica w cfg is_atomic e ≡ true
      → (requests w o is_atomic m e
          ≡ map (λ (d : BatchCommandData F). execute_on d.cmd) e.commands
            ++ (if is_positive o.sync_slaves
                then make_wait_cmd (unwrap_or m.slot 0) o ∷ []
                else []))
        × All
            (λ (d : BatchCommandData F).
              (is_read_only d.cmd ≡ true) × (reads (execute_on d.cmd) ≡ true))
            e.commands

  replica-requests :
      (cfg : RedissonConfig) (o : BatchOptions) (is_atomic : Bool) (m : MasterSlaveEntry)
      (e : Entry F)
      → use_replica w cfg is_atomic e ≡ true
      → requests w o is_atomic m e
        ≡ map (λ (d : BatchCommandData F). execute_on d.cmd) e.commands
          ++ (if is_positive o.sync_slaves then make_wait_cmd (unwrap_or m.slot 0) o ∷ [] else [])
  replica-requests cfg o true m e replica = absurd (ground arith)
  replica-requests cfg o false m e replica = elim (Bool-cases (is_positive o.sync_slaves)) [
    | inl e' ↦ rw e' refl
    | inr e' ↦ rw e' refl
  ]

  IsFlagged-OnlyReads :
      (cfg : RedissonConfig) (o : BatchOptions) (is_atomic : Bool) (nodes : NodeMap F)
      → All IsFlagged nodes
      → All (OnlyReads cfg o is_atomic) nodes
  IsFlagged-OnlyReads cfg o is_atomic [] flagged = tt
  IsFlagged-OnlyReads cfg o is_atomic ((m, e) ∷ nodes) flagged = (
    λ replica. (
      replica-requests cfg o is_atomic m e replica,
      all-reads e.commands (flagged.0 (ground arith)),
    ),
    IsFlagged-OnlyReads cfg o is_atomic nodes flagged.1,
  )

  -- Whatever the commands and their nodes, and after their scripts have been loaded: a pipeline of an
  -- in-memory batch that goes to a replica holds the requests of commands classed as reading, in
  -- order, and nothing else but WAIT or WAITAOF behind them when slaves are to be synchronised. Each
  -- such request is one of the reading methods, or EVALSHA or SORT, which stand there for EVALSHA_RO
  -- and SORT_RO.
  pub replica-OnlyReads :
      (cfg : RedissonConfig) (o : BatchOptions) (retries : ℕ) (is_atomic : Bool)
      (commands : List (BatchCommandData F)) (nodes loaded : NodeMap F) (cache cache' : ScriptCache)
      → IsFair w
      → gather w retries commands [] ≡ ok nodes
      → load_scripts w cfg (w.node_order nodes) cache ≡ ok (loaded, cache')
      → All (OnlyReads cfg o is_atomic) (w.finish_order loaded)
  replica-OnlyReads cfg o retries is_atomic commands nodes loaded cache cache' fair gathered loads =
      IsFlagged-OnlyReads cfg o is_atomic (w.finish_order loaded) (
        All-Perm IsFlagged (Permᴰ.symm (fair.tasks_kept loaded)) (
          load_scripts-IsFlagged cfg (w.node_order nodes) loaded cache cache'
            (All-Perm IsFlagged (Permᴰ.symm (fair.nodes_kept nodes))
              (gather-IsFlagged retries commands [] nodes tt gathered))
            loads))
