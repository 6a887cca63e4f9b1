-- ===== src/Command/Batch/Whole.antt =====
-- A batch from its first command to its responses
-- (redisson-rs/src/command/command_batch_service.rs), queued in memory and without a transaction.
use mathlib.Core.List.{Permᴰ}
use redisson_rs.Base.{
  ℕ, ◌+◌, ◌<◌, arith, ◌≡◌, ◌∙◌, ap, false, List, [], map, length, is_empty, ok, All,
}
use redisson_rs.Base.Int.{pos, usize_mod}
use redisson_rs.Config.{RedissonConfig}
use redisson_rs.Connection.{MasterSlaveEntry}
use redisson_rs.Command.Value.{Fred}
use redisson_rs.Command.RedisCommand.{RedisCommand}
use redisson_rs.Command.Execute.{Answer}
use redisson_rs.Command.BatchOptions.{BatchOptions, ExecutionMode}
use redisson_rs.Command.Batch.{BatchCommandData, new}
use redisson_rs.Command.Batch.Reply.{value_or_null}
use redisson_rs.Connection.ServiceManager.{ScriptCache}
use redisson_rs.Command.Batch.InMemory.{NodeMap, World, gather, load_scripts}
use redisson_rs.Command.Batch.RedisBased.{Link, Deadline}
use redisson_rs.Command.Batch.Service.{Closed, execute_async}
use redisson_rs.Command.Batch.Responses.{IsFair, IsAnswered, total, execute_in_memory-responses}
use redisson_rs.Command.Batch.Queue.{
  queue, numbered, numbered-IsAscending, numbered-is_empty, fresh, fresh-waiting, queue-waiting,
  waiting, execute-waiting,
}

module _ {F : Fred} (w : World F) (fair : IsFair w) (link : Link F) (cfg : RedissonConfig)
    (o : BatchOptions) (g : ℕ → Answer F) (a : MasterSlaveEntry → Answer F)
    (cmds : List (RedisCommand F)) (nodes loaded : NodeMap F) (cache cache' : ScriptCache)
    (deadline : Deadline) where
  abbrev pub closed : Closed w link
  closed = execute_async w link cfg deadline (queue w link cmds (fresh w link cfg o)) cache

  -- Commands are queued, fewer than 2 ^ 64 and at least one, on a new batch with options for memory,
  -- no transaction and no `skip_result`; each finds its node, their scripts load, and the pipelines
  -- answer the `i`-th with `g i`, in whatever order the nodes are visited and their tasks finish.
  -- Then executing the batch returns the value of `g i` in place `i`, null if `g i` is an error, and
  -- sends each caller the value of its own command, once and nothing more.
  pub execute_async-queued :
      o.execution_mode ≡ ExecutionMode.in_memory
      → o.skip_result ≡ false
      → is_empty cmds ≡ false
      → length cmds < usize_mod
      → gather w (new {F = F} cfg o).batch_retry_attempts (numbered w link 0 cmds) [] ≡ ok nodes
      → load_scripts w cfg (w.node_order nodes) cache ≡ ok (loaded, cache')
      → All (IsAnswered w cfg o g a) (w.finish_order loaded)
      → (closed.result
          ≡ ok (record {
            responses =
                map
                  (λ (d : BatchCommandData F). value_or_null (g d.index))
                  (numbered w link 0 cmds);
            synced_slaves = total w cfg o g a (w.finish_order loaded) (pos 0);
          }))
        × Permᴰ closed.sent (
            map
              (λ (d : BatchCommandData F). (d.tx, ok (value_or_null (g d.index))))
              (numbered w link 0 cmds))
  execute_async-queued mode all some_command room gathered loads answered =
      let ds = numbered w link 0 cmds in
      let queued : queue w link cmds (fresh w link cfg o)
          ≡ waiting w link (fresh w link cfg o) (0 + length cmds) ds =
        ap (queue w link cmds) (fresh-waiting w link cfg o mode)
        ∙ queue-waiting w link cmds (fresh w link cfg o) 0 [] (omega arith) in
      let ran = execute-waiting w link cfg o mode deadline (0 + length cmds) ds cache in
      let whole =
        execute_in_memory-responses w cfg o g a fair (new {F = F} cfg o).batch_retry_attempts ds
          nodes loaded cache cache' gathered loads (numbered-is_empty w link 0 cmds ∙ some_command)
          all (numbered-IsAscending w link 0 cmds) answered in
      rw (queued, ran.0, ran.1) whole
