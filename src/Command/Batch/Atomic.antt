-- ===== src/Command/Batch/Atomic.antt =====
-- The transactions of an in-memory batch (redisson-rs/src/command/command_batch_service.rs): what the
-- callers of one node's commands receive.
use redisson_rs.Base.{
  ℕ, ◌≡◌, Bool, true, false, some, List, [], map, length, if◌then◌else◌, ok, err,
}
use redisson_rs.Base.Int.{ℤ, pos}
use redisson_rs.Config.{RedissonConfig}
use redisson_rs.Command.Value.{Fred, Value, Values, array, null, to_list, FredError}
use redisson_rs.Command.Execute.{Answer}
use redisson_rs.Command.BatchOptions.{BatchOptions}
use redisson_rs.Command.Batch.{BatchCommandData, Entry, exec_nil, exec_failed, unexpected_exec}
use redisson_rs.Command.Batch.Reply.{zip, send_all, extract_synced_slaves}
use redisson_rs.Command.Batch.InMemory.{World, waits, Done}

module _ {F : Fred} (w : World F) (cfg : RedissonConfig) (o : BatchOptions) where
  abbrev pub txs_of : Entry F → List ℕ
  txs_of e = map (λ (d : BatchCommandData F). d.tx) e.commands

  abbrev pub indexes_of : Entry F → List ℕ
  indexes_of e = map (λ (d : BatchCommandData F). d.index) e.commands

  abbrev pub is_exec_reply : Value F → Bool
  is_exec_reply (array vs) = true
  is_exec_reply null = true
  is_exec_reply v = false

  -- What a transaction comes to for the callers of its commands, by the answer to EXEC and the number
  -- of slaves that were synchronised.
  pub data Outcome (e : Entry F) (exec : Answer F) (synced : ℤ) (done : Done w) : Type 0 where
    -- each receives its own value of the array, and the values are returned under the indices
    committed :
        (vs : Values F)
        → exec ≡ ok (array vs)
        → length (to_list vs) ≡ length e.commands
        → done ≡ (
          map (λ (p : ℕ × Value F). (p.0, ok p.1)) (zip (txs_of e) (to_list vs)),
          ok (synced, zip (indexes_of e) (to_list vs)),
        )
        → Outcome e exec synced done
    -- all receive that the transaction was aborted, and nothing is returned for them
    aborted :
        exec ≡ ok null
        → done ≡ (send_all (err exec_nil) (txs_of e), ok (synced, []))
        → Outcome e exec synced done
    -- all receive the server's error, and nothing is returned for them
    refused :
        (why : FredError)
        → exec ≡ err why
        → done ≡ (send_all (err (exec_failed why)) (txs_of e), ok (synced, []))
        → Outcome e exec synced done
    -- the answer is none of an EXEC: the batch fails and none of them receives anything
    failed :
        (v : Value F)
        → exec ≡ ok v
        → is_exec_reply v ≡ false
        → done ≡ ([], err (unexpected_exec v))
        → Outcome e exec synced done

  -- The number that the answer `a` to WAIT gives, if WAIT is sent.
  abbrev pub synced_by : Answer F → ℤ
  synced_by a = if waits w o then extract_synced_slaves (some a) else pos 0
