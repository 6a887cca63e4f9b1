-- ===== src/Command/Async/Rounds/Queued.antt =====
-- The loop of `synced_eval` (redisson-rs/src/command/command_async_service.rs) when the script is in
-- the batch before the batch is executed.
use mathlib.Core.List.{Permᴰ}
use redisson_rs.Base.{
  ℕ, suc, ◌≤◌, String, Bool, true, false, ◌&&◌, Bool-cases, inl, inr, Option, none, some, List, [],
  ◌∷◌, length, ok, err, if◌then◌else◌, ◌==◌, ◌≡◌, refl, ap, sym, ◌∙◌, All, arith, subst,
}
use redisson_rs.Base.Int.{ℤ, pos, int_eq, is_positive}
use redisson_rs.Config.Client.{Server}
use redisson_rs.Connection.{MasterSlaveEntry}
use redisson_rs.Base.Assoc.{Assoc, remove}
use redisson_rs.Connection.ServiceManager.{ScriptCache, CachedSlaveInfo, Statics, server_eq}
use redisson_rs.Command.Value.{Fred, Key, Value}
use redisson_rs.Command.RedisCommand.{RedisCommand, eval}
use redisson_rs.Command.Execute.{Answer}
use redisson_rs.Command.BatchOptions.{BatchOptions, ExecutionMode, sync, sync_aof}
use redisson_rs.Command.Batch.{BatchResult, new}
use redisson_rs.Command.Batch.Reply.{value_or_null}
use redisson_rs.Command.Batch.InMemory.{NodeMap, gather, load_scripts}
use redisson_rs.Command.Batch.Responses.{IsFair, IsAnswered, total}
use redisson_rs.Command.Batch.Queue.{numbered, queue}
use redisson_rs.Command.Batch.Whole.{execute_async-queued}
use redisson_rs.Command.Async.{CommandAsyncInner, Around, Process}
use redisson_rs.Command.Async.Rounds.{
  Beyond, returned, none_synced, received, invalidated, world, batch_options, run_batch, loop,
}
use redisson_rs.Command.Async.Rounds.Ends.{loop-finished}
use redisson_rs.Command.Async.Rounds.Race.{settled, with_cache, turn_ok}

-- A permutation of one element at most is the same list.
short-Perm : {A : Type 0} {l l' : List A} → Permᴰ l l' → length l' ≤ 1 → l ≡ l'
short-Perm Permᴰ.nil short = refl
short-Perm (Permᴰ.cons {b = y} {l₁ = l} same p) short =
    ap (λ x. x ∷ l) same ∙ ap (◌∷◌ y) (short-Perm p (omega (arith, short)))
short-Perm (Permᴰ.swap a b) short = absurd (omega (arith, short))
short-Perm (Permᴰ.trans {l₂ = m} p q) short =
    let last = short-Perm q short in
    short-Perm p (subst (λ l. length l ≤ 1) (sym last) short) ∙ last

options_mode :
    (i : CommandAsyncInner) (available : ℤ) (aof : Bool)
    → (batch_options i aof available).execution_mode ≡ ExecutionMode.in_memory
unfolding sync sync_aof
options_mode i available true = refl
options_mode i available false = refl

options_skip :
    (i : CommandAsyncInner) (available : ℤ) (aof : Bool)
    → (batch_options i aof available).skip_result ≡ false
unfolding sync sync_aof
options_skip i available true = refl
options_skip i available false = refl

-- What is remembered of the slaves of a node, if there is one, is dropped.
abbrev pub forgotten : Option Server → Assoc Server CachedSlaveInfo → Assoc Server CachedSlaveInfo
forgotten none m = m
forgotten (some server) m = remove server m

module _ {F : Fred} (v : Around F) (b : Beyond F) (i : CommandAsyncInner)
    (queued_first : Bool → Bool) (script : String) (keys : List Key) (args : List (Value F)) where
  invalidated_info :
      (cluster_node : Option Server) (st : Statics v.lru)
      → (invalidated v b i queued_first script keys args cluster_node st).slave_info
        ≡ forgotten cluster_node st.slave_info
  invalidated_info none st = refl
  invalidated_info (some server) st = refl

  settled_info :
      (cluster_node : Option Server) (use_aof : Bool) (available : ℤ) (r : BatchResult F)
      (s : Process F v.lru)
      → (settled v b i queued_first script keys args cluster_node use_aof available r
          s).statics.slave_info
        ≡ (if r.synced_slaves == available
            then s.statics.slave_info
            else forgotten cluster_node s.statics.slave_info)
  settled_info cluster_node use_aof available r s =
      elim (Bool-cases (r.synced_slaves == available)) [
        | inl same ↦ simp same refl
        | inr other ↦ simp other (invalidated_info cluster_node s.statics)
      ]

module _ {F : Fred} (v : Around F) (b : Beyond F) (i : CommandAsyncInner) (script : String)
    (keys : List Key) (args : List (Value F)) (use_aof : Bool) (available : ℤ) (answer : Answer F)
    (a : MasterSlaveEntry → Answer F) (nodes loaded : NodeMap F) (s : Process F v.lru)
    (cache' : ScriptCache) where
  abbrev pub options : BatchOptions
  options = batch_options i use_aof available

  abbrev pub commands : List (RedisCommand F)
  commands = eval script keys args ∷ []

  -- How many slaves were synchronised.
  abbrev pub synced : ℤ
  synced = total (world v b) i.config options (λ k. answer) a (b.finish_order loaded) (pos 0)

  abbrev pub done : BatchResult F
  done = record { responses = value_or_null answer ∷ []; synced_slaves = synced }

  module _ (fair : IsFair (world v b))
      (gathered : gather
          (world v b)
          (new {F = F} i.config options).batch_retry_attempts
          (numbered (world v b) b.link 0 commands)
          []
        ≡ ok nodes)
      (loads : load_scripts (world v b) i.config (b.node_order nodes) s.statics.script_shas
        ≡ ok (loaded, cache'))
      (answered : All
        (IsAnswered (world v b) i.config options (λ k. answer) a)
        (b.finish_order loaded)) where
    batch-done :
        let batch = run_batch v b i script keys args true use_aof available s.statics.script_shas in
        (batch.result ≡ ok done) × (batch.sent ≡ (0, ok (value_or_null answer)) ∷ [])
    unfolding queue
    batch-done =
        let (result, sent) =
          execute_async-queued (world v b) fair b.link i.config options (λ k. answer) a commands
            nodes loaded s.statics.script_shas cache' b.deadline (options_mode i available use_aof)
            (options_skip i available use_aof) refl (omega arith) gathered loads answered in
        (result, short-Perm sent (omega arith))

    -- If the script is in its queue first, finds its node, loads, and is answered, the call ends in
    -- the first round. It fails if that is checked, there are slaves and none was synchronised, and
    -- otherwise returns the script's value, or null if the script failed. What is remembered of the
    -- node's slaves is kept when as many were synchronised as were expected, and dropped otherwise.
    pub loop-queued :
        (queued_first : Bool → Bool) (cluster_node : Option Server) (fuel : ℕ)
        → queued_first false ≡ true
        → (s' : Process F v.lru) × (loop v b i queued_first script keys args
              (suc fuel)
              cluster_node
              use_aof
              available
              false
              s
            ≡ some (
              s',
              if i.config.check_lock_synced_slaves && (synced == pos 0 && is_positive available)
                  then returned (err none_synced)
                  else returned (ok (value_or_null answer)),
            ))
          × (s'.statics.slave_info ≡ (
              if synced == available
              then s.statics.slave_info
              else (forgotten cluster_node s.statics.slave_info)))
    unfolding received
    loop-queued queued_first cluster_node fuel first =
        let (result, sent) = batch-done in
        let ended =
          turn_ok v b i queued_first script keys args cluster_node use_aof available s true
            ((0, ok (value_or_null answer)) ∷ []) done first sent result in
        (
          _,
          loop-finished v b i queued_first script keys args cluster_node use_aof available false s
              fuel _ _ ended,
          settled_info v b i queued_first script keys args cluster_node use_aof available done (
              with_cache v b i queued_first script keys args cluster_node use_aof available true s),
        )
