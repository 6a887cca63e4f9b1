-- ===== src/Command/Batch/Life/Reopened.antt =====
-- A batch queued in Redis (redisson-rs/src/command/command_batch_service.rs) that is used after it ended.
use redisson_rs.Base.{
  ℕ, ◌≡◌, refl, ap, ◌∙◌, true, false, Option, List, [], ◌∷◌, ◌++◌, map, is_empty, is_empty-snoc, ok,
  All,
}
use redisson_rs.Base.Int.{usize_add}
use redisson_rs.Command.Value.{Fred, Value, Request}
use redisson_rs.Command.RedisCommand.{RedisCommand, execute_on}
use redisson_rs.Command.Batch.{Batch, redis_based}
use redisson_rs.Connection.ServiceManager.{ScriptCache}
use redisson_rs.Command.Batch.InMemory.{World}
use redisson_rs.Command.Batch.RedisBased.{Wire, Link, choose_slot, queue_command, open_transaction}
use redisson_rs.Command.Batch.Service.{Session, async0}
use redisson_rs.Command.Batch.Queue.{Ending, close-refused, queue}
use redisson_rs.Command.Batch.Transaction.{CanQueue, send_on, multi_for}
use redisson_rs.Command.Batch.Life.{Life, queueing, ending, run, run-queueing, queue-executed}

module _ {F : Fred} (w : World F) (link : Link F) (b : Batch F) where
  -- The batch with these commands queued in Redis, `n` having been numbered.
  abbrev pub queued : ℕ → Option ℕ → List (ℕ × ℕ) → List (Wire F) → Session w link
  queued n slot entries log = record {
    batch = record b { next_index = n; state = redis_based slot entries };
    log = log;
  }

  abbrev pub sends : List (Request F) → List (Wire F) → List (Wire F)
  sends = send_on link b.options w.keyslot

  run-endings :
      (hows : List (Ending w link)) (s : Session w link) (cache : ScriptCache)
      → s.batch.executed ≡ true
      → (run w link (map ending hows) s cache).session ≡ s
  unfolding run
  run-endings [] s cache over = refl
  run-endings (how ∷ hows) s cache over =
      rw (close-refused w link how s cache over) (run-endings hows s cache over)

  module _ (value : List (Wire F) → Wire F → Value F)
      (willing : (log : List (Wire F)) (s : Wire F) → link.answer log s ≡ ok (value log s)) where
    async0-later :
        (cmd : RedisCommand F) (n : ℕ) (slot : Option ℕ) (entries : List (ℕ × ℕ))
        (log : List (Wire F))
        → is_empty entries ≡ false
        → CanQueue link b.options w.keyslot cmd
        → (async0 w link cmd (queued n slot entries log)).0
          ≡ queued (usize_add n 1) slot (entries ++ ((n, n) ∷ [])) (sends (execute_on cmd ∷ []) log)
    unfolding async0 queue_command open_transaction
    async0-later cmd n slot entries log some_entry can = simp (can, some_entry, willing)

    async0-first :
        (cmd : RedisCommand F) (n : ℕ) (slot : Option ℕ) (log : List (Wire F))
        → CanQueue link b.options w.keyslot cmd
        → (async0 w link cmd (queued n slot [] log)).0
          ≡ queued
              (usize_add n 1)
              (choose_slot link w.keyslot cmd slot [])
              ((n, n) ∷ [])
              (sends (multi_for link b.options w.keyslot cmd slot ∷ execute_on cmd ∷ []) log)
    unfolding async0 queue_command open_transaction
    async0-first cmd n slot log can = simp (can, willing)

    queue-later :
        (cmds : List (RedisCommand F)) (n : ℕ) (slot : Option ℕ) (entries : List (ℕ × ℕ))
        (log : List (Wire F))
        → is_empty entries ≡ false
        → All (CanQueue link b.options w.keyslot) cmds
        → (queue w link cmds (queued n slot entries log)).log ≡ sends (map execute_on cmds) log
    unfolding queue
    queue-later [] n slot entries log some_entry can = refl
    queue-later (cmd ∷ cmds) n slot entries log some_entry can =
        ap (λ s. (queue w link cmds s).log) (async0-later cmd n slot entries log some_entry can.0)
        ∙ queue-later cmds (usize_add n 1) slot (entries ++ ((n, n) ∷ []))
            (sends (execute_on cmd ∷ []) log) (is_empty-snoc entries (n, n)) can.1

    -- When commands that may be queued in Redis are queued on a batch of that kind that has ended, and
    -- the servers refuse nothing, MULTI is sent once more, and then each command; whatever calls to end
    -- the batch follow, nothing else is sent: the transaction stays open.
    pub reopened :
        (cmd : RedisCommand F) (cmds : List (RedisCommand F)) (hows : List (Ending w link)) (n : ℕ)
        (slot : Option ℕ) (log : List (Wire F)) (cache : ScriptCache)
        → b.executed ≡ true
        → CanQueue link b.options w.keyslot cmd
        → All (CanQueue link b.options w.keyslot) cmds
        → (run w link
            (map queueing (cmd ∷ cmds) ++ map ending hows)
            (queued n slot [] log)
            cache).session.log
          ≡ sends (multi_for link b.options w.keyslot cmd slot ∷ map execute_on (cmd ∷ cmds)) log
    unfolding queue
    reopened cmd cmds hows n slot log cache over can rest =
        let start = queued n slot [] log in
        let slot' = choose_slot link w.keyslot cmd slot [] in
        let opened =
          sends (multi_for link b.options w.keyslot cmd slot ∷ execute_on cmd ∷ []) log in
        ap (λ (l : Life w link). l.session.log)
          (run-queueing w link (cmd ∷ cmds) (map ending hows) start cache)
        ∙ ap (λ (s : Session w link). s.log)
            (run-endings hows (queue w link (cmd ∷ cmds) start) cache
              (queue-executed w link (cmd ∷ cmds) start ∙ over))
        ∙ ap (λ s. (queue w link cmds s).log) (async0-first cmd n slot log can)
        ∙ queue-later cmds (usize_add n 1) slot' ((n, n) ∷ []) opened refl rest
