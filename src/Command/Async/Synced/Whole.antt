-- ===== src/Command/Async/Synced/Whole.antt =====
-- `synced_eval` of redisson-rs/src/command/command_async_service.rs from the call to its end, on a
-- node with slaves to wait for.
use redisson_rs.Base.{
  ℕ, suc, String, Bool, true, false, not, ◌&&◌, ◌||◌, some, List, [], ok, err, if◌then◌else◌, ◌==◌,
  ◌≡◌, ap, ◌∙◌, All,
}
use redisson_rs.Base.Int.{ℤ, pos, int_eq, is_positive}
use redisson_rs.Connection.{MasterSlaveEntry}
use redisson_rs.Connection.ServiceManager.{ScriptCache}
use redisson_rs.Command.Value.{Fred, Key, Value, Options}
use redisson_rs.Command.Execute.{Answer}
use redisson_rs.Command.Batch.{new}
use redisson_rs.Command.Batch.Reply.{value_or_null}
use redisson_rs.Command.Batch.InMemory.{NodeMap, gather, load_scripts}
use redisson_rs.Command.Batch.Responses.{IsFair, IsAnswered}
use redisson_rs.Command.Batch.Queue.{numbered}
use redisson_rs.Command.Async.{
  WaitSupport, CommandAsyncInner, build_options, pin, Around, Process, node_of,
}
use redisson_rs.Command.Async.Probe.{ReplicationInfo}
use redisson_rs.Command.Async.Rounds.{Beyond, returned, none_synced, world, batch_options, loop}
use redisson_rs.Command.Async.Rounds.Race.{overtaken, loop-overtaken}
use redisson_rs.Command.Async.Rounds.Queued.{commands, synced, forgotten, loop-queued}
use redisson_rs.Command.Async.Synced.{
  SyncMode, skips, is_single, fallback, supports, replication, uses_aof, available_slaves,
  with_info, with_support, synced_eval,
}

module _ {F : Fred} (v : Around F) (b : Beyond F) (i : CommandAsyncInner)
    (queued_first : Bool → Bool) (script : String) (keys : List Key) (args : List (Value F))
    (mode : SyncMode) (retry : Bool) where
  abbrev pub node_options : Options
  node_options = pin (node_of v keys) (build_options i)

  abbrev pub with_aof : WaitSupport → ReplicationInfo → Bool
  with_aof support info = uses_aof v b i queued_first script keys args mode retry support info

  abbrev pub slaves : WaitSupport → ReplicationInfo → ℤ
  slaves support info = available_slaves v b i queued_first script keys args mode retry support info

  -- The call from `s` comes to its loop in the state `s'`: it is made on several servers and outside
  -- a batch; what the node supports and its slaves are known or found; the mode asks for what is
  -- supported, and there is something to wait for.
  pub record Waits (s : Process F v.lru) (support : WaitSupport) (info : ReplicationInfo)
      (s' : Process F v.lru) : Type 0 where
    pub many : is_single i.config.mode || i.is_batch ≡ false
    pub asked : Process F v.lru
    pub supported :
        supports v b i queued_first script keys args node_options s ≡ (asked, ok support)
    pub wanted : skips mode support ≡ false
    pub told :
        replication v b i queued_first script keys args (node_of v keys) node_options asked
        ≡ (s', ok info)
    pub some_slaves : (slaves support info == pos 0 && not (with_aof support info)) ≡ false

  module _ {s s' : Process F v.lru} {support : WaitSupport} {info : ReplicationInfo}
      (waits : Waits s support info s') where
    looped :
        (fuel : ℕ)
        → synced_eval v b i queued_first script keys args mode retry fuel s
          ≡ loop v b i queued_first script keys args fuel
              (node_of v keys)
              (with_aof support info)
              (slaves support info)
              false
              s'
    unfolding synced_eval with_support with_info
    looped fuel =
        let usual = fallback v b i queued_first script keys args retry in
        let go = with_info v b i queued_first script keys args mode retry fuel (node_of v keys) in
        ap
          (λ c.
            if c
            then usual s
            else with_support v b i queued_first script keys args mode retry fuel (node_of v keys)
                node_options (supports v b i queued_first script keys args node_options s))
          waits.many
        ∙ ap
            (with_support v b i queued_first script keys args mode retry fuel (node_of v keys)
              node_options)
            waits.supported
        ∙ ap
            (λ c.
              if c
              then usual waits.asked
              else go support (
                  replication v b i queued_first script keys args (node_of v keys) node_options
                    waits.asked))
            waits.wanted
        ∙ ap (go support) waits.told
        ∙ ap
            (λ c.
              if c
              then usual s'
              else loop v b i queued_first script keys args fuel (node_of v keys)
                  (with_aof support info) (slaves support info) false s')
            waits.some_slaves

    -- When a call comes to its loop and the batch is executed before the script is in its queue, the
    -- call fails as if no slave had been reached, if that is checked and there are slaves, and
    -- otherwise waits for ever; on the way it sends nothing more but the batch, which is empty.
    pub synced_eval-overtaken :
        (fuel : ℕ)
        → queued_first false ≡ false
        → (end : Process F v.lru) × (synced_eval v b i queued_first script keys args mode retry
              (suc fuel)
              s
            ≡ some (
              end,
              overtaken v b i queued_first script keys args
                  (node_of v keys)
                  (with_aof support info)
                  (slaves support info),
            ))
          × (end.net ≡ s'.net)
    synced_eval-overtaken fuel late =
        let (end, ends, same) =
          loop-overtaken v b i queued_first script keys args (node_of v keys)
            (with_aof support info) (slaves support info) s' fuel late in
        (end, looped (suc fuel) ∙ ends, same)

    module _ (answer : Answer F) (a : MasterSlaveEntry → Answer F) (nodes loaded : NodeMap F)
        (cache' : ScriptCache) where
      -- How many slaves were synchronised.
      abbrev pub reached : ℤ
      reached =
          synced v b i script keys args (with_aof support info) (slaves support info) answer a nodes
            loaded s' cache'

      -- When a call comes to its loop, the script is in the queue before the batch is executed, and
      -- it finds its node, loads and is answered, the call ends in the first round. It fails if that
      -- is checked, there are slaves and none was synchronised, and otherwise returns the script's
      -- value, or null if the script failed. What is remembered of the node's slaves is kept when as
      -- many were synchronised as were expected, and dropped otherwise.
      pub synced_eval-queued :
          (fuel : ℕ)
          → queued_first false ≡ true
          → IsFair (world v b)
          → gather
              (world v b)
              (new {F = F} i.config (
                batch_options i (with_aof support info) (slaves support info))).batch_retry_attempts
              (numbered (world v b) b.link 0 (
                commands v b i script keys args
                  (with_aof support info)
                  (slaves support info)
                  answer
                  a
                  nodes
                  loaded
                  s'
                  cache'))
              []
            ≡ ok nodes
          → load_scripts (world v b) i.config (b.node_order nodes) s'.statics.script_shas
            ≡ ok (loaded, cache')
          → All
              (IsAnswered
                (world v b)
                i.config
                (batch_options i (with_aof support info) (slaves support info))
                (λ k. answer)
                a)
              (b.finish_order loaded)
          → (end : Process F v.lru) × (synced_eval v b i queued_first script keys args mode retry
                (suc fuel)
                s
              ≡ some (
                end,
                if i.config.check_lock_synced_slaves
                      && (reached == pos 0 && is_positive (slaves support info))
                    then returned (err none_synced)
                    else returned (ok (value_or_null answer)),
              ))
            × (end.statics.slave_info ≡ (
                if reached == slaves support info
                then s'.statics.slave_info
                else forgotten (node_of v keys) s'.statics.slave_info))
      synced_eval-queued fuel first fair gathered loads answered =
          let (end, ends, kept) =
            loop-queued v b i script keys args (with_aof support info) (slaves support info) answer
              a nodes loaded s' cache' fair gathered loads answered queued_first (node_of v keys)
              fuel first in
          (end, looped (suc fuel) ∙ ends, kept)
