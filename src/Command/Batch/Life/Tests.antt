-- ===== src/Command/Batch/Life/Tests.antt =====
-- Batches that are used after they ended, and the theorems at them.
use redisson_rs.Base.{◌≡◌, refl, true, some, List, [], ◌∷◌, ◌++◌, map, length, ok, err}
use redisson_rs.Base.Int.{pos}
use redisson_rs.Command.Value.{null}
use redisson_rs.Command.RedisCommand.{get, execute_on}
use redisson_rs.Command.Samples.{plain_fred, cfg}
use redisson_rs.Command.BatchOptions.{ExecutionMode}
use redisson_rs.Command.Batch.{Batch, BatchResult, discarded, new}
use redisson_rs.Command.Batch.RedisBased.{Link, in_time}
use redisson_rs.Command.Batch.Service.{async0, discard_async, execute_async}
use redisson_rs.Command.Batch.Queue.{discarding, executing, close, queue, fresh}
use redisson_rs.Command.Batch.Transaction.{send_on, multi_for}
use redisson_rs.Command.Batch.Samples.{options, w, link}
use redisson_rs.Command.Batch.Life.{Call, queueing, ending, run, sent-first_end}
use redisson_rs.Command.Batch.Life.Reopened.{queued, reopened}

abbrev nothing : BatchResult plain_fred
nothing = record { responses = []; synced_slaves = pos 0 }

-- "a" is queued before the batch is discarded, "b" after it.
abbrev late : List (Call w link)
late = queueing (get "b") ∷ ending (executing cfg in_time) ∷ []

discarded_alone :
    (run w link
      (queueing (get "a") ∷ ending (discarding nothing) ∷ late)
      (fresh w link cfg options)
      []).sent
    ≡ (0, err discarded) ∷ []
unfolding run close new async0 discard_async execute_async
discarded_alone = refl

sent-first_end_example :
    (run w link
      (map queueing (get "a" ∷ []) ++ (ending (discarding nothing) ∷ late))
      (fresh w link cfg options)
      []).sent
    ≡ (close w link
        (discarding nothing)
        (queue w link (get "a" ∷ []) (fresh w link cfg options))
        []).sent
sent-first_end_example =
    sent-first_end w link (get "a" ∷ []) (discarding nothing) late (fresh w link cfg options) []

abbrev granting : Link plain_fred
granting = record { next = length; answer = λ log s. ok null }

-- A batch queued in Redis that has ended.
abbrev over : Batch plain_fred
over = record (new cfg (record options { execution_mode = ExecutionMode.redis_write_atomic })) {
  executed = true;
}

reopened_example :
    (run w granting
      (map queueing (get "a" ∷ get "b" ∷ []) ++ map ending (executing cfg in_time ∷ []))
      (queued w granting over 2 (some 1) [] [])
      []).session.log
    ≡ send_on granting over.options w.keyslot
        (multi_for granting over.options w.keyslot (get "a") (some 1)
          ∷ map execute_on (get "a" ∷ get "b" ∷ []))
        []
unfolding new
reopened_example =
    reopened w granting over (λ log s. null) (λ log s. refl) (get "a") (get "b" ∷ [])
      (executing cfg in_time ∷ []) 2 (some 1) [] [] refl refl (refl, tt)
