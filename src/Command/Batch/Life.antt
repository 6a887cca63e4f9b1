-- ===== src/Command/Batch/Life.antt =====
-- Everything that may be called on one batch (redisson-rs/src/command/command_batch_service.rs), in any
-- order: `async0` does not look at the flag that the batch has ended.
pub mod Reopened
mod Tests
use mathlib.Core.List.{append-nil, append_assoc}
use redisson_rs.Base.{
  ℕ, ◌≡◌, refl, ap, sym, ◌∙◌, Bool, true, false, not, Option, List, [], ◌∷◌, ◌++◌, map, is_empty,
  arith, Bool-cases, inl, inr, Result, ok, err, All, if◌then◌else◌,
}
use redisson_rs.Base.Int.{usize_add}
use redisson_rs.Command.Value.{Fred, Key, Value}
use redisson_rs.Command.RedisCommand.{RedisCommand, execute_on}
use redisson_rs.Command.BatchOptions.{BatchOptions}
use redisson_rs.Command.Batch.{
  Batch, BatchState, in_memory, redis_based, Delivery, already_executed,
}
use redisson_rs.Connection.ServiceManager.{ScriptCache}
use redisson_rs.Command.Batch.InMemory.{World}
use redisson_rs.Command.Batch.RedisBased.{Wire, Link, queue_command, open_transaction}
use redisson_rs.Command.Batch.Service.{Session, Closed, async0, refused}
use redisson_rs.Command.Batch.Queue.{Ending, close, close-executed, close-refused, queue}

module _ {F : Fred} (w : World F) (link : Link F) where
  pub data Call : Type 0 where
    queueing : RedisCommand F → Call
    ending : Ending w link → Call

  -- What calls come to: the batch, the script cache and what was sent to the callers.
  pub record Life : Type 0 where
    pub session : Session w link
    pub cache : ScriptCache
    pub sent : List (Delivery F)

  abbrev then_sent : List (Delivery F) → Life → Life
  then_sent before l = record l { sent = before ++ l.sent }

  pub run : List Call → Session w link → ScriptCache → Life
  run [] s cache = record { session = s; cache = cache; sent = [] }
  run (queueing cmd ∷ calls) s cache = run calls (async0 w link cmd s).0 cache
  run (ending how ∷ calls) s cache =
      let closed = close w link how s cache in
      then_sent closed.sent (run calls closed.session closed.cache)

  async0-executed :
      (cmd : RedisCommand F) (s : Session w link)
      → (async0 w link cmd s).0.batch.executed ≡ s.batch.executed
  unfolding async0
  async0-executed cmd s = ground arith

  pub queue-executed :
      (cmds : List (RedisCommand F)) (s : Session w link)
      → (queue w link cmds s).batch.executed ≡ s.batch.executed
  unfolding queue
  queue-executed [] s = refl
  queue-executed (cmd ∷ cmds) s =
      queue-executed cmds (async0 w link cmd s).0 ∙ async0-executed cmd s

  -- A batch that has ended answers no one any more.
  run-ended :
      (calls : List Call) (s : Session w link) (cache : ScriptCache)
      → s.batch.executed ≡ true
      → (run calls s cache).sent ≡ []
  unfolding run
  run-ended [] s cache over = refl
  run-ended (queueing cmd ∷ calls) s cache over =
      run-ended calls (async0 w link cmd s).0 cache (async0-executed cmd s ∙ over)
  run-ended (ending how ∷ calls) s cache over =
      rw (close-refused w link how s cache over) (run-ended calls s cache over)

  pub run-queueing :
      (cmds : List (RedisCommand F)) (calls : List Call) (s : Session w link) (cache : ScriptCache)
      → run (map queueing cmds ++ calls) s cache ≡ run calls (queue w link cmds s) cache
  unfolding run queue
  run-queueing [] calls s cache = refl
  run-queueing (cmd ∷ cmds) calls s cache = run-queueing cmds calls (async0 w link cmd s).0 cache

  -- Whatever is called on a batch, in whatever order, the callers that wait receive what the first
  -- call that ends it sends, with the commands in it that were queued before, and nothing more:
  -- nothing is sent to the channel of a command that is queued later.
  pub sent-first_end :
      (cmds : List (RedisCommand F)) (how : Ending w link) (calls : List Call) (s : Session w link)
      (cache : ScriptCache)
      → (run (map queueing cmds ++ (ending how ∷ calls)) s cache).sent
        ≡ (close w link how (queue w link cmds s) cache).sent
  unfolding run
  sent-first_end cmds how calls s cache =
      let closed = close w link how (queue w link cmds s) cache in
      ap (λ (l : Life). l.sent) (run-queueing cmds (ending how ∷ calls) s cache)
      ∙ ap (λ ds. closed.sent ++ ds)
          (run-ended calls closed.session closed.cache
            (close-executed w link how (queue w link cmds s) cache))
      ∙ append-nil closed.sent
