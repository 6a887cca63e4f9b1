-- ===== src/Command/Batch/Transaction.antt =====
-- What a batch that is queued in Redis sends (redisson-rs/src/command/command_batch_service.rs).
use mathlib.Core.List.{append_assoc, append-nil}
use redisson_rs.Base.{
  ℕ, suc, ◌≡◌, refl, sym, ◌∙◌, ap, false, Bool-cases, inl, inr, Option, none, some, List, [], ◌∷◌,
  ◌++◌, map, is_empty, is_empty-snoc, if◌then◌else◌, ok, err, All,
}
use redisson_rs.Base.Int.{ℤ, is_positive}
use redisson_rs.Command.Value.{Fred, Key, Value, Request, custom, custom_slot, FredError}
use redisson_rs.Command.RedisCommand.{RedisCommand, routing_key, execute_on}
use redisson_rs.Command.Execute.{Answer}
use redisson_rs.Command.BatchOptions.{BatchOptions}
use redisson_rs.Command.Batch.{multi_failed, command_failed, unwrap_or, is_wait_command}
use redisson_rs.Command.Batch.Reply.{make_wait_cmd}
use redisson_rs.Command.Batch.RedisBased.{
  Link, Wire, Deadline, is_read, choose_slot, open_transaction, Queued, queue_command, hand_out,
  execute_redis_based_queue,
}

module _ {F : Fred} (link : Link F) (o : BatchOptions) (keyslot : Key → ℕ) where
  -- A request behind those of the log, through the client whose turn it is then.
  abbrev pub wire : List (Wire F) → Request F → Wire F
  wire log r = record { client = link.next log; to_replica = is_read o; request = r }

  abbrev pub send_on : List (Request F) → List (Wire F) → List (Wire F)
  send_on [] log = log
  send_on (r ∷ rs) log = send_on rs (log ++ (wire log r ∷ []))

  send_on-append :
      (rs rs' : List (Request F)) (log : List (Wire F))
      → send_on (rs ++ rs') log ≡ send_on rs' (send_on rs log)
  send_on-append [] rs' log = refl
  send_on-append (r ∷ rs) rs' log = send_on-append rs rs' (log ++ (wire log r ∷ []))

  abbrev pub slot_for : RedisCommand F → ℕ
  slot_for cmd = elim (routing_key cmd) [ none ↦ 0 | some key ↦ keyslot key ]

  -- The commands are queued one after the other, numbered from `n` on.
  abbrev pub queue_all :
      ℕ → List (RedisCommand F) → Option ℕ → List (ℕ × ℕ) → List (Wire F) → Queued link
  queue_all n [] slot entries log = record {
    slot = slot;
    entries = entries;
    log = log;
    result = ok tt;
  }
  queue_all n (cmd ∷ cmds) slot entries log =
      let q = queue_command link o keyslot cmd n n slot entries log in
      queue_all (suc n) cmds q.slot q.entries q.log

  abbrev pub plain : List (RedisCommand F) → List (Request F)
  plain cmds = map execute_on cmds

  abbrev pub entries_from : ℕ → List (RedisCommand F) → List (ℕ × ℕ)
  entries_from n [] = []
  entries_from n (cmd ∷ cmds) = (n, n) ∷ entries_from (suc n) cmds

  abbrev pub CanQueue : RedisCommand F → Type 0
  CanQueue cmd = is_wait_command cmd ≡ false

  hand_out-log :
      (entries : List (ℕ × ℕ)) (log : List (Wire F)) (synced : ℤ) (exec : Answer F)
      → (hand_out link o entries log synced exec).log ≡ log
  unfolding hand_out
  hand_out-log entries log synced exec = elim (Bool-cases o.skip_result) [
    | inl e ↦ simp e
    | inr e ↦ simp e
  ]

  -- EXEC, and WAIT behind it.
  abbrev pub ending : ℕ → List (Request F)
  ending slot =
      custom "EXEC" (custom_slot slot) []
      ∷ (if is_positive o.sync_slaves then make_wait_cmd slot o ∷ [] else [])

  execute_redis_based_queue-log :
      (slot : Option ℕ) (entries : List (ℕ × ℕ)) (log : List (Wire F))
      → is_empty entries ≡ false
      → (execute_redis_based_queue link o Deadline.in_time slot entries log).log
        ≡ send_on (ending (unwrap_or slot 0)) log
  unfolding execute_redis_based_queue
  execute_redis_based_queue-log slot entries log some_entry =
      elim (Bool-cases (is_positive o.sync_slaves)) [
        | inl e ↦ simp (some_entry, e) (hand_out-log entries _ _ _)
        | inr e ↦ simp (some_entry, e) (hand_out-log entries _ _ _)
      ]

  module _ (value : List (Wire F) → Wire F → Value F)
      (willing : (log : List (Wire F)) (s : Wire F) → link.answer log s ≡ ok (value log s)) where
    queue_command-later :
        (n : ℕ) (cmd : RedisCommand F) (slot : Option ℕ) (entries : List (ℕ × ℕ))
        (log : List (Wire F))
        → is_empty entries ≡ false
        → CanQueue cmd
        → queue_command link o keyslot cmd n n slot entries log ≡ record {
          slot = slot;
          entries = entries ++ ((n, n) ∷ []);
          log = send_on (plain (cmd ∷ [])) log;
          result = ok tt;
        }
    unfolding queue_command open_transaction
    queue_command-later n cmd slot entries log some_entry can = simp (can, some_entry, willing)

    queue_all-later :
        (n : ℕ) (cmds : List (RedisCommand F)) (slot : Option ℕ) (entries : List (ℕ × ℕ))
        (log : List (Wire F))
        → is_empty entries ≡ false
        → All CanQueue cmds
        → queue_all n cmds slot entries log ≡ record {
          slot = slot;
          entries = entries ++ entries_from n cmds;
          log = send_on (plain cmds) log;
          result = ok tt;
        }
    queue_all-later n [] slot entries log some_entry can = rw (append-nil entries) refl
    queue_all-later n (cmd ∷ cmds) slot entries log some_entry can =
        rw
          (
            queue_command-later n cmd slot entries log some_entry can.0,
            queue_all-later (suc n) cmds slot (entries ++ ((n, n) ∷ []))
                (send_on (plain (cmd ∷ [])) log) (is_empty-snoc entries (n, n)) can.1,
            append_assoc entries ((n, n) ∷ []) (entries_from (suc n) cmds),
          )
          refl

    unwrap-slot :
        (key : Option Key)
        → unwrap_or (elim key [ none ↦ none | some k ↦ some (keyslot k) ]) 0
          ≡ (elim key [ none ↦ 0 | some k ↦ keyslot k ])
    unwrap-slot none = refl
    unwrap-slot (some k) = refl

    unwrap-choose :
        (cmd : RedisCommand F) → unwrap_or (choose_slot link keyslot cmd none []) 0 ≡ slot_for cmd
    unwrap-choose cmd = unwrap-slot (routing_key cmd)

    queue_command-first :
        (n : ℕ) (cmd : RedisCommand F) (log : List (Wire F))
        → CanQueue cmd
        → queue_command link o keyslot cmd n n none [] log ≡ record {
          slot = choose_slot link keyslot cmd none [];
          entries = (n, n) ∷ [];
          log = send_on (custom "MULTI" (custom_slot (slot_for cmd)) [] ∷ plain (cmd ∷ [])) log;
          result = ok tt;
        }
    unfolding queue_command open_transaction
    queue_command-first n cmd log can =
        simp (can, willing)
          (ap
            (λ k. record {
              slot = choose_slot link keyslot cmd none [];
              entries = (n, n) ∷ [];
              log = send_on (custom "MULTI" (custom_slot k) [] ∷ plain (cmd ∷ [])) log;
              result = ok tt;
            })
            (unwrap-choose cmd))

    -- When the servers refuse nothing and no command is WAIT or WAITAOF, queueing commands on a new
    -- batch of this kind sends MULTI, once, for the slot of the first command (0 if it has no key),
    -- and then each command in turn as it is, without that slot; executing it in time sends EXEC for
    -- the slot, and WAIT or WAITAOF behind it exactly when slaves are to be synchronised. All go to
    -- the same side, primary or replicas, but each through the client that the pool picks next at
    -- that moment, which may be another one each time.
    pub execute-log :
        (cmd : RedisCommand F) (cmds : List (RedisCommand F))
        → CanQueue cmd
        → All CanQueue cmds
        → let q = queue_all 0 (cmd ∷ cmds) none [] [] in
          (execute_redis_based_queue link o Deadline.in_time q.slot q.entries q.log).log
          ≡ send_on
              (custom "MULTI" (custom_slot (slot_for cmd)) []
                ∷ (map execute_on (cmd ∷ cmds)
                    ++ (custom "EXEC" (custom_slot (slot_for cmd)) []
                        ∷ (if is_positive o.sync_slaves
                            then make_wait_cmd (slot_for cmd) o ∷ []
                            else []))))
              []
    execute-log cmd cmds first rest =
        let slot = choose_slot link keyslot cmd none [] in
        ap
          (λ (q : Queued link).
            (execute_redis_based_queue link o Deadline.in_time q.slot q.entries q.log).log)
          (ap (λ (q : Queued link). queue_all 1 cmds q.slot q.entries q.log)
              (queue_command-first 0 cmd [] first)
            ∙ queue_all-later 1 cmds slot ((0, 0) ∷ []) _ refl rest)
        ∙ execute_redis_based_queue-log slot ((0, 0) ∷ entries_from 1 cmds) _ refl
        ∙ rw (unwrap-choose cmd) (
            sym (
              send_on-append (custom "MULTI" (custom_slot (slot_for cmd)) [] ∷ plain (cmd ∷ cmds))
                (ending (slot_for cmd)) []))

  abbrev pub multi_for : RedisCommand F → Option ℕ → Request F
  multi_for cmd slot =
      custom "MULTI" (custom_slot (unwrap_or (choose_slot link keyslot cmd slot []) 0)) []

  refused_multi :
      (n : ℕ) (cmd : RedisCommand F) (slot : Option ℕ) (log : List (Wire F)) (e : FredError)
      → CanQueue cmd
      → link.answer log (wire log (multi_for cmd slot)) ≡ err e
      → queue_command link o keyslot cmd n n slot [] log ≡ record {
        slot = choose_slot link keyslot cmd slot [];
        entries = [];
        log = send_on (multi_for cmd slot ∷ []) log;
        result = err (multi_failed e);
      }
  unfolding queue_command open_transaction
  refused_multi n cmd slot log e can refused = simp (can, refused)

  refused_first :
      (cmd : RedisCommand F) (v : Value F) (e : FredError)
      → CanQueue cmd
      → link.answer [] (wire [] (multi_for cmd none)) ≡ ok v
      → let opened = send_on (multi_for cmd none ∷ []) [] in
        link.answer opened (wire opened (execute_on cmd)) ≡ err e
        → queue_command link o keyslot cmd 0 0 none [] [] ≡ record {
          slot = choose_slot link keyslot cmd none [];
          entries = [];
          log = send_on (multi_for cmd none ∷ execute_on cmd ∷ []) [];
          result = err (command_failed e);
        }
  unfolding queue_command open_transaction
  refused_first cmd v e can accepts refuses = simp (can, accepts, refuses)

  module _ (cmd next : RedisCommand F) (can : CanQueue cmd) (can' : CanQueue next) where
    abbrev pub attempt : Queued link
    attempt = queue_command link o keyslot cmd 0 0 none [] []

    -- When the server accepts MULTI but refuses the first command of the batch, that command's call
    -- fails; the next command then sends MULTI a second time, with no EXEC or DISCARD between, and if
    -- the server refuses that, as Redis does inside a transaction, it fails too and is not sent.
    pub multi_again :
        (v : Value F) (e e' : FredError)
        → link.answer [] (wire [] (multi_for cmd none)) ≡ ok v
        → let opened = send_on (multi_for cmd none ∷ []) [] in
          link.answer opened (wire opened (execute_on cmd)) ≡ err e
          → link.answer attempt.log (wire attempt.log (multi_for next attempt.slot)) ≡ err e'
          → let later =
              queue_command link o keyslot next 1 1 attempt.slot attempt.entries attempt.log in
            (attempt.result ≡ err (command_failed e))
            × (attempt.log ≡ send_on (multi_for cmd none ∷ execute_on cmd ∷ []) [])
            × (later.log ≡ send_on (multi_for next attempt.slot ∷ []) attempt.log)
            × (later.result ≡ err (multi_failed e'))
    multi_again v e e' accepts refuses nested =
        let first = refused_first cmd v e can accepts refuses in
        let second =
          ap
            (λ (es : List (ℕ × ℕ)).
              queue_command link o keyslot next 1 1 attempt.slot es attempt.log)
            (ap (λ (q : Queued link). q.entries) first)
          ∙ refused_multi 1 next attempt.slot attempt.log e' can' nested in
        (
          ap (λ (q : Queued link). q.result) first,
          ap (λ (q : Queued link). q.log) first,
          ap (λ (q : Queued link). q.log) second,
          ap (λ (q : Queued link). q.result) second,
        )
