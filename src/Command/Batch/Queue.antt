-- ===== src/Command/Batch/Queue.antt =====
-- The life of a batch (redisson-rs/src/command/command_batch_service.rs): what queueing leaves, and
-- that it ends once.
use mathlib.Core.List.{append_assoc, append-nil}
use native.Mathlib.Nat.{add-zero}
use redisson_rs.Base.{
  ℕ, suc, ◌+◌, ◌<◌, ◌≡◌, refl, ap, true, false, List, [], ◌∷◌, ◌++◌, map, length, is_empty, arith,
}
use redisson_rs.Base.Int.{usize_mod, usize_add}
use redisson_rs.Config.{RedissonConfig}
use redisson_rs.Command.Value.{Fred}
use redisson_rs.Command.RedisCommand.{RedisCommand}
use redisson_rs.Command.BatchOptions.{BatchOptions, ExecutionMode}
use redisson_rs.Command.Batch.{BatchCommandData, in_memory, new, already_executed, BatchResult}
use redisson_rs.Connection.ServiceManager.{ScriptCache}
use redisson_rs.Command.Batch.InMemory.{World, execute_in_memory}
use redisson_rs.Command.Batch.RedisBased.{Link, Deadline}
use redisson_rs.Command.Batch.Service.{
  Session, Closed, refused, async0, discard_async, execute_async,
}
use redisson_rs.Command.Batch.Order.{IsAscending}
use redisson_rs.Command.Batch.Tickets.{ticket}

module _ {F : Fred} (w : World F) (link : Link F) where
  -- One of the two calls that end a batch.
  pub data Ending : Type 0 where
    discarding : BatchResult F → Ending
    executing : RedissonConfig → Deadline → Ending

  unfoldable pub close : Ending → Session w link → ScriptCache → Closed w link
  close (discarding nothing) s cache = discard_async w link nothing s cache
  close (executing cfg deadline) s cache = execute_async w link cfg deadline s cache

  pub close-executed :
      (how : Ending) (s : Session w link) (cache : ScriptCache)
      → (close how s cache).session.batch.executed ≡ true
  unfolding close discard_async execute_async
  close-executed (discarding nothing) s cache = ground arith
  close-executed (executing cfg deadline) s cache = ground arith

  pub close-refused :
      (how : Ending) (s : Session w link) (cache : ScriptCache)
      → s.batch.executed ≡ true
      → close how s cache ≡ refused w link already_executed s cache
  unfolding close discard_async execute_async
  close-refused (discarding nothing) s cache over = simp over
  close-refused (executing cfg deadline) s cache over = simp over

  -- After a call that ended a batch, whatever came of it, another such call is refused as already
  -- executed: it sends nothing, to the servers or to the callers, and leaves the batch as it is.
  pub close-once :
      (how again : Ending) (s : Session w link) (cache cache' : ScriptCache)
      → close again (close how s cache).session cache'
        ≡ refused w link already_executed (close how s cache).session cache'
  close-once how again s cache cache' =
      close-refused again (close how s cache).session cache' (close-executed how s cache)

  -- Commands that are queued one after the other.
  unfoldable pub queue : List (RedisCommand F) → Session w link → Session w link
  queue [] s = s
  queue (cmd ∷ cmds) s = queue cmds (async0 w link cmd s).0

  -- What the commands become, from the index `n` on.
  abbrev pub numbered : ℕ → List (RedisCommand F) → List (BatchCommandData F)
  numbered n [] = []
  numbered n (cmd ∷ cmds) = record { cmd = cmd; tx = n; index = n } ∷ numbered (suc n) cmds

  -- The session in which the commands `ds` wait, `n` having been numbered.
  abbrev pub waiting : Session w link → ℕ → List (BatchCommandData F) → Session w link
  waiting s n ds = record s { batch = record s.batch { next_index = n; state = in_memory ds } }

  pub queue-waiting :
      (cmds : List (RedisCommand F)) (s : Session w link) (n : ℕ) (ds : List (BatchCommandData F))
      → n + length cmds < usize_mod
      → queue cmds (waiting s n ds) ≡ waiting s (n + length cmds) (ds ++ numbered n cmds)
  unfolding queue async0
  queue-waiting [] s n ds room = rw (append-nil ds, add-zero n) refl
  queue-waiting (cmd ∷ cmds) s n ds room =
      let next : usize_add n 1 ≡ suc n = omega arith in
      rw
        (
          next,
          queue-waiting cmds s (suc n) (ds ++ (record { cmd = cmd; tx = n; index = n } ∷ []))
              (omega arith),
          append_assoc ds (record { cmd = cmd; tx = n; index = n } ∷ []) (numbered (suc n) cmds),
        )
        (ap
          (λ k.
            waiting s k (ds ++ (record { cmd = cmd; tx = n; index = n } ∷ numbered (suc n) cmds)))
          (omega arith))

  pub numbered-IsAscending :
      (n : ℕ) (cmds : List (RedisCommand F)) → IsAscending n (map ticket (numbered n cmds))
  numbered-IsAscending n [] = tt
  numbered-IsAscending n (cmd ∷ cmds) = (omega arith, numbered-IsAscending (suc n) cmds)

  pub numbered-is_empty :
      (n : ℕ) (cmds : List (RedisCommand F)) → is_empty (numbered n cmds) ≡ is_empty cmds
  numbered-is_empty n [] = refl
  numbered-is_empty n (cmd ∷ cmds) = refl

  -- A new batch.
  abbrev pub fresh : RedissonConfig → BatchOptions → Session w link
  fresh cfg o = record { batch = new cfg o; log = [] }

  module _ (cfg : RedissonConfig) (o : BatchOptions)
      (mode : o.execution_mode ≡ ExecutionMode.in_memory) where
    new-state : (new {F = F} cfg o).state ≡ in_memory []
    unfolding new
    new-state = ground (arith, mode)

    pub fresh-waiting : fresh cfg o ≡ waiting (fresh cfg o) 0 []
    unfolding new
    fresh-waiting =
        ap (λ st. record { batch = record (new cfg o) { state = st }; log = [] }) new-state

    pub execute-waiting :
        (deadline : Deadline) (n : ℕ) (ds : List (BatchCommandData F)) (cache : ScriptCache)
        → let ran = execute_async w link cfg deadline (waiting (fresh cfg o) n ds) cache in
          let ended =
            execute_in_memory w cfg o (new {F = F} cfg o).batch_retry_attempts false ds cache in
          (ran.result ≡ ended.result) × (ran.sent ≡ ended.sent)
    unfolding new execute_async
    execute-waiting deadline n ds cache = simp mode (refl, refl)
