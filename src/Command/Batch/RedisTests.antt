-- ===== src/Command/Batch/RedisTests.antt =====
-- Batches of two commands queued in Redis, and the theorems at them.
use redisson_rs.Base.{
  ◌≡◌, refl, none, [], ◌∷◌, ◌++◌, map, length, string_eq, nat_eq, if◌then◌else◌, ok, err,
}
use redisson_rs.Base.Int.{is_positive}
use redisson_rs.Command.Value.{Value, Values, nil, cons, text, null, custom, custom_slot}
use redisson_rs.Command.RedisCommand.{get, execute_on}
use redisson_rs.Command.Samples.{plain_fred, down}
use redisson_rs.Command.BatchOptions.{BatchOptions, ExecutionMode}
use redisson_rs.Command.Batch.{command_failed, multi_failed}
use redisson_rs.Command.Batch.Reply.{make_wait_cmd}
use redisson_rs.Command.Batch.RedisBased.{
  Link, queue_command, open_transaction, execute_redis_based_queue, in_time,
}
use redisson_rs.Command.Batch.Transaction.{
  send_on, slot_for, queue_all, execute-log, attempt, multi_for, multi_again,
}
use redisson_rs.Command.Batch.Samples.{options, w}

-- Servers that refuse nothing, for a batch queued in Redis.
abbrev writing : BatchOptions
writing = record options { execution_mode = ExecutionMode.redis_write_atomic }

abbrev granting : Link plain_fred
granting = record { next = length; answer = λ log s. ok null }

execute-log_example :
    let q = queue_all granting writing w.keyslot 0 (get "a" ∷ get "b" ∷ []) none [] [] in
    (execute_redis_based_queue granting writing in_time q.slot q.entries q.log).log
    ≡ send_on granting writing w.keyslot
        (custom "MULTI" (custom_slot (slot_for granting writing w.keyslot (get "a"))) []
          ∷ (map execute_on (get "a" ∷ get "b" ∷ [])
              ++ (custom "EXEC" (custom_slot (slot_for granting writing w.keyslot (get "a"))) []
                  ∷ (if is_positive writing.sync_slaves
                      then make_wait_cmd (slot_for granting writing w.keyslot (get "a")) writing
                        ∷ []
                      else []))))
        []
execute-log_example =
    execute-log granting writing w.keyslot (λ log s. null) (λ log s. refl) (get "a") (get "b" ∷ [])
      refl (refl, tt)

-- Servers that accept the first MULTI and nothing else.
abbrev unwilling : Link plain_fred
unwilling = record {
  next = length;
  answer = λ log s. elim log [ [] ↦ ok null | r ∷ rest ↦ err down ];
}

multi_again_example :
    let q = attempt unwilling writing w.keyslot (get "a") (get "b") refl refl in
    let later = queue_command unwilling writing w.keyslot (get "b") 1 1 q.slot q.entries q.log in
    (q.result ≡ err (command_failed down))
    × (q.log
        ≡ send_on unwilling writing w.keyslot
            (multi_for unwilling writing w.keyslot (get "a") none ∷ execute_on (get "a") ∷ [])
            [])
    × (later.log
        ≡ send_on unwilling writing w.keyslot
            (multi_for unwilling writing w.keyslot (get "b") q.slot ∷ [])
            q.log)
    × (later.result ≡ err (multi_failed down))
unfolding queue_command open_transaction
multi_again_example =
    multi_again unwilling writing w.keyslot (get "a") (get "b") refl refl null down down refl refl
      refl

-- Two commands wait, and EXEC has two values.
abbrev two_values : Values plain_fred
two_values = cons (text "a") (cons (text "b") nil)
