-- ===== src/Command/Batch/RedisBased.antt =====
-- The batches that are queued in Redis (redisson-rs/src/command/command_batch_service.rs): `async0` for
-- them, which sends each command at once inside MULTI, and `execute_redis_based_queue`.
use redisson_rs.Base.{
  ℕ, Bool, true, false, Option, none, some, List, [], ◌∷◌, ◌++◌, map, is_empty, if◌then◌else◌,
  Result, ok, err, ◌>>=◌,
}
use redisson_rs.Base.Int.{ℤ, pos, is_positive}
use redisson_rs.Command.Value.{Fred, Key, Value, null, Request, custom, custom_slot}
use redisson_rs.Command.RedisCommand.{RedisCommand, routing_key, execute_on}
use redisson_rs.Command.Execute.{Answer}
use redisson_rs.Command.BatchOptions.{BatchOptions, redis_read_atomic}
use redisson_rs.Command.Batch.{
  BatchError, timed_out, multi_failed, command_failed, wait_not_supported, Delivery, BatchResult,
  unwrap_or, is_wait_command,
}
use redisson_rs.Command.Batch.Reply.{
  make_wait_cmd, extract_synced_slaves, send_all, distribute_exec_results, collect_exec_indexed,
}
use redisson_rs.Command.Batch.InMemory.{sort_by_key}

-- A request, the client of the pool that it goes through, and whether it goes through the replicas of
-- that client (`pool.replicas()`) or through the client itself (`pool.next()`).
pub record Wire (F : Fred) : Type 0 where
  pub client : ℕ
  pub to_replica : Bool
  pub request : Request F

-- The pool and the servers behind it: which client fred picks next, and what is answered to a request,
-- after the requests before it.
pub record Link (F : Fred) : Type 0 where
  pub next : List (Wire F) → ℕ
  pub answer : List (Wire F) → Wire F → Answer F

-- When the time for the execution ends: after it, or while EXEC or WAIT is awaited.
pub data Deadline : Type 0 where
  in_time during_exec during_wait : Deadline

abbrev pub is_read : BatchOptions → Bool
is_read o = elim o.execution_mode [ redis_read_atomic ↦ true | _ ↦ false ]

module _ {F : Fred} (link : Link F) where
  abbrev pub transmit : Bool → Request F → List (Wire F) → List (Wire F) × Answer F
  transmit replica r log =
      let wire : Wire F = record { client = link.next log; to_replica = replica; request = r } in
      (log ++ (wire ∷ []), link.answer log wire)

  -- The slot that the first command decides.
  abbrev pub choose_slot : (Key → ℕ) → RedisCommand F → Option ℕ → List (ℕ × ℕ) → Option ℕ
  choose_slot keyslot cmd slot entries =
      if is_empty entries
      then (elim (routing_key cmd) [ none ↦ slot | some key ↦ some (keyslot key) ])
      else slot

  -- MULTI before the first command.
  unfoldable pub open_transaction :
      Bool → ℕ → List (ℕ × ℕ) → List (Wire F) → List (Wire F) × Result (BatchError F) (Unit {0})
  open_transaction replica slot entries log =
      if is_empty entries
      then (let (log', answer) = transmit replica (custom "MULTI" (custom_slot slot) []) log in
          (log', elim answer [ ok v ↦ ok tt | err e ↦ err (multi_failed e) ]))
      else (log, ok tt)

  -- A call to `async0`: the state that it leaves, what it has sent, and whether it waits.
  pub record Queued : Type 0 where
    pub slot : Option ℕ
    pub entries : List (ℕ × ℕ)
    pub log : List (Wire F)
    pub result : Result (BatchError F) (Unit {0})

  unfoldable pub queue_command :
      BatchOptions
      → (Key → ℕ)
      → RedisCommand F
      → (tx index : ℕ) → Option ℕ
      → List (ℕ × ℕ)
      → List (Wire F)
      → Queued
  queue_command o keyslot cmd tx index slot entries log =
      if is_wait_command cmd
      then record { slot = slot; entries = entries; log = log; result = err wait_not_supported }
      else (let slot' = choose_slot keyslot cmd slot entries in
          let (opened, multi) = open_transaction (is_read o) (unwrap_or slot' 0) entries log in
          elim multi [
            | err e ↦ record { slot = slot'; entries = entries; log = opened; result = err e }
            | ok u ↦
                let (sent, answer) = transmit (is_read o) (execute_on cmd) opened in
                elim answer [
                  | err e ↦ record {
                    slot = slot';
                    entries = entries;
                    log = sent;
                    result = err (command_failed e);
                  }
                  | ok v ↦ record {
                    slot = slot';
                    entries = entries ++ ((tx, index) ∷ []);
                    log = sent;
                    result = ok tt;
                  }
                ]
          ])

  pub record Executed : Type 0 where
    pub sent : List (Delivery F)
    pub log : List (Wire F)
    pub result : Result (BatchError F) (BatchResult F)

  -- What follows the requests: the callers' values and the responses.
  unfoldable pub hand_out : BatchOptions → List (ℕ × ℕ) → List (Wire F) → ℤ → Answer F → Executed
  hand_out o entries log synced exec =
      let txs = map (λ (p : ℕ × ℕ). p.0) entries in
      let indexes = map (λ (p : ℕ × ℕ). p.1) entries in
      if o.skip_result
      then record {
        sent = send_all (ok null) txs;
        log = log;
        result = ok (record { responses = []; synced_slaves = synced });
      }
      else (let (sent, distributed) = distribute_exec_results (some exec) txs in
          record {
            sent = sent;
            log = log;
            result = distributed >>= λ _. ok (record {
              responses =
                  map (λ (p : ℕ × Value F). p.1)
                    (sort_by_key (collect_exec_indexed (some exec) indexes));
              synced_slaves = synced;
            });
          })

  abbrev pub late : List (Wire F) → Executed
  late log = record { sent = []; log = log; result = err timed_out }

  abbrev pub await_wait :
      BatchOptions → Deadline → ℕ → List (ℕ × ℕ) → List (Wire F) → Answer F → Executed
  await_wait o in_time slot entries log exec =
      let (waited, answer) = transmit (is_read o) (make_wait_cmd slot o) log in
      hand_out o entries waited (extract_synced_slaves (some answer)) exec
  await_wait o _ slot entries log exec = late (transmit (is_read o) (make_wait_cmd slot o) log).0

  -- `execute_redis_based_queue`
  unfoldable pub execute_redis_based_queue :
      BatchOptions → Deadline → Option ℕ → List (ℕ × ℕ) → List (Wire F) → Executed
  execute_redis_based_queue o deadline slot entries log =
      if is_empty entries
      then record {
        sent = [];
        log = log;
        result = ok (record { responses = []; synced_slaves = pos 0 });
      }
      else (let (executed, exec) =
            transmit (is_read o) (custom "EXEC" (custom_slot (unwrap_or slot 0)) []) log in
          elim deadline [
            | during_exec ↦ late executed
            | rest ↦
                if is_positive o.sync_slaves
                then await_wait o rest (unwrap_or slot 0) entries executed exec
                else hand_out o entries executed (pos 0) exec
          ])
