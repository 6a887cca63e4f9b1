-- ===== src/Command/Batch/Service.antt =====
-- The operations of `CommandBatchService` (redisson-rs/src/command/command_batch_service.rs) as its
-- users call them: `async0`, `discard_async`, `execute_async`.
use redisson_rs.Base.{Bool, true, false, List, [], ◌∷◌, ◌++◌, if◌then◌else◌, Result, ok, err}
use redisson_rs.Base.Int.{usize_add}
use redisson_rs.Config.{RedissonConfig}
use redisson_rs.Command.Value.{Fred}
use redisson_rs.Command.RedisCommand.{RedisCommand}
use redisson_rs.Command.BatchOptions.{
  ExecutionMode, in_memory_atomic, redis_read_atomic, redis_write_atomic,
}
use redisson_rs.Command.Batch.{
  Batch, BatchState, in_memory, redis_based, emptied, channels, BatchError, already_executed,
  discarded, unexpected_state, Delivery, BatchResult,
}
use redisson_rs.Command.Batch.Reply.{send_all}
use redisson_rs.Connection.ServiceManager.{ScriptCache}
use redisson_rs.Command.Batch.InMemory.{World, Ended, execute_in_memory}
use redisson_rs.Command.Batch.RedisBased.{
  Wire, Link, Deadline, queue_command, Executed, execute_redis_based_queue,
}

module _ {F : Fred} (w : World F) (link : Link F) where
  -- The batch, with what has been sent for it outside pipelines.
  pub record Session : Type 0 where
    pub batch : Batch F
    pub log : List (Wire F)

  -- `async0` up to where it waits. A new channel has the number of the command.
  unfoldable pub async0 : RedisCommand F → Session → Session × Result (BatchError F) (Unit {0})
  async0 cmd s =
      let index = s.batch.next_index in
      let counted = record s.batch { next_index = usize_add index 1 } in
      elim s.batch.state [
        | in_memory commands ↦ (
          record {
            batch = record counted {
              state =
                  in_memory (commands ++ (record { cmd = cmd; tx = index; index = index } ∷ []));
            };
            log = s.log;
          },
          ok tt,
        )
        | redis_based slot entries ↦
            let q =
              queue_command link s.batch.options w.keyslot cmd index index slot entries s.log in
            (
              record {
                batch = record counted { state = redis_based q.slot q.entries };
                log = q.log;
              },
              q.result,
            )
      ]

  -- What a call that ends the batch leaves.
  pub record Closed : Type 0 where
    pub session : Session
    pub cache : ScriptCache
    pub sent : List (Delivery F)
    pub result : Result (BatchError F) (BatchResult F)

  abbrev pub refused : BatchError F → Session → ScriptCache → Closed
  refused e s cache = record { session = s; cache = cache; sent = []; result = err e }

  -- The compare-and-exchange that goes before: the batch, taken.
  abbrev pub taken : Session → Session
  taken s = record s { batch = record s.batch { executed = true; state = emptied s.batch.state } }

  -- `discard_async`; it gives no `BatchResult`, which the empty one stands for.
  unfoldable pub discard_async : BatchResult F → Session → ScriptCache → Closed
  discard_async nothing s cache =
      if s.batch.executed then refused already_executed s cache else record {
        session = taken s;
        cache = cache;
        sent = send_all (err discarded) (channels s.batch.state);
        result = ok nothing;
      }

  abbrev pub closing : Session → Ended w → Closed
  closing s e = record { session = taken s; cache = e.cache; sent = e.sent; result = e.result }

  abbrev pub closing_redis : Session → ScriptCache → Executed link → Closed
  closing_redis s cache e = record {
    session = record (taken s) { log = e.log };
    cache = cache;
    sent = e.sent;
    result = e.result;
  }

  -- The state is of the other kind, which only the queue's own field could make it.
  abbrev pub mismatch : Session → ScriptCache → Closed
  mismatch s cache =
      refused unexpected_state (record s { batch = record s.batch { executed = true } }) cache

  abbrev pub run_in_memory :
      RedissonConfig → (is_atomic : Bool) → Session → ScriptCache → BatchState F → Closed
  run_in_memory cfg is_atomic s cache (in_memory commands) = closing s (
      execute_in_memory w cfg s.batch.options s.batch.batch_retry_attempts is_atomic commands cache)
  run_in_memory cfg is_atomic s cache (redis_based slot entries) = mismatch s cache

  abbrev pub run_redis_based : Deadline → Session → ScriptCache → BatchState F → Closed
  run_redis_based deadline s cache (redis_based slot entries) =
      closing_redis s cache
        (execute_redis_based_queue link s.batch.options deadline slot entries s.log)
  run_redis_based deadline s cache (in_memory commands) = mismatch s cache

  unfoldable pub execute_async : RedissonConfig → Deadline → Session → ScriptCache → Closed
  execute_async cfg deadline s cache =
      if s.batch.executed
      then refused already_executed s cache
      else (elim s.batch.options.execution_mode [
        | redis_read_atomic ↦ run_redis_based deadline s cache s.batch.state
        | redis_write_atomic ↦ run_redis_based deadline s cache s.batch.state
        | in_memory_atomic ↦ run_in_memory cfg true s cache s.batch.state
        | ExecutionMode.in_memory ↦ run_in_memory cfg false s cache s.batch.state
      ])
