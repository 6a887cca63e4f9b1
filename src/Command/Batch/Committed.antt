-- ===== src/Command/Batch/Committed.antt =====
-- What a batch that is queued in Redis (redisson-rs/src/command/command_batch_service.rs) returns when
-- its transaction is committed.
use redisson_rs.Base.{ℕ, some, List, [], ◌∷◌, ◌++◌, if◌then◌else◌}
use redisson_rs.Base.Int.{ℤ, pos, is_positive}
use redisson_rs.Command.Value.{Fred, Value, Request, custom, custom_slot}
use redisson_rs.Command.BatchOptions.{BatchOptions}
use redisson_rs.Command.Batch.Reply.{make_wait_cmd, extract_synced_slaves}
use redisson_rs.Command.Batch.RedisBased.{Link, Wire, is_read}

-- The index before the channel.
abbrev pub turned : ℕ × ℕ → ℕ × ℕ
turned p = (p.1, p.0)

module _ {F : Fred} (link : Link F) (o : BatchOptions) where
  abbrev pub through : List (Wire F) → Request F → Wire F
  through log r = record { client = link.next log; to_replica = is_read o; request = r }

  abbrev pub exec_wire : ℕ → List (Wire F) → Wire F
  exec_wire slot log = through log (custom "EXEC" (custom_slot slot) [])

  -- The number of slaves that the answer to WAIT or WAITAOF gives, if one is sent.
  abbrev pub synced_after : ℕ → List (Wire F) → ℤ
  synced_after slot log =
      if is_positive o.sync_slaves
      then (let executed = log ++ (exec_wire slot log ∷ []) in
          extract_synced_slaves
            (some (link.answer executed (through executed (make_wait_cmd slot o)))))
      else pos 0
