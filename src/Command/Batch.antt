-- ===== src/Command/Batch.antt =====
-- redisson-rs/src/command/command_batch_service.rs: the batch and its queue. A caller of a command
-- waits on a channel; `tx` is the number of that channel, and what is sent on it is a `Delivery`.
pub mod Reply
pub mod InMemory
pub mod RedisBased
pub mod Service
pub mod Order
pub mod Tickets
pub mod Responses
pub mod Atomic
pub mod Queue
pub mod Whole
pub mod Committed
pub mod Scripts
pub mod Transaction
pub mod Nodes
pub mod Life
pub mod Samples
mod RedisTests
mod Tests
use redisson_rs.Base.{
  ℕ, String, Bool, true, false, not, Option, none, some, List, [], ◌∷◌, ◌++◌, map, if◌then◌else◌,
  Result, ok, err,
}
use redisson_rs.Base.Int.{ℤ, pos, negsuc}
use redisson_rs.Config.{RedissonConfig}
use redisson_rs.Command.Value.{Fred, Value, Request, FredError}
use redisson_rs.Command.RedisCommand.{RedisCommand, wait, wait_aof, is_read_only}
use redisson_rs.Command.Execute.{Answer}
use redisson_rs.Command.BatchOptions.{BatchOptions, is_redis_based_queue}

pub record BatchCommandData (F : Fred) : Type 0 where
  pub cmd : RedisCommand F
  pub tx : ℕ
  pub index : ℕ

pub record Entry (F : Fred) : Type 0 where
  pub commands : List (BatchCommandData F)
  pub read_only : Bool

-- `Entry::new`
abbrev pub new_entry : {F : Fred} → Entry F
new_entry = record { commands = []; read_only = true }

abbrev pub add_command : {F : Fred} → BatchCommandData F → Entry F → Entry F
add_command d e = record {
  read_only = if is_read_only d.cmd then e.read_only else false;
  commands = e.commands ++ (d ∷ []);
}

pub data BatchState (F : Fred) : Type 0 where
  in_memory : (commands : List (BatchCommandData F)) → BatchState F
  redis_based : (slot : Option ℕ) (entries : List (ℕ × ℕ)) → BatchState F

pub data BatchError (F : Fred) : Type 0 where
  already_executed discarded unexpected_state timed_out : BatchError F
  no_server : (slot attempts : ℕ) → BatchError F
  script_load_failed multi_failed command_failed exec_failed : FredError → BatchError F
  exec_missing exec_nil wait_not_supported : BatchError F
  unexpected_exec : Value F → BatchError F

abbrev pub Delivery : Fred → Type 0
Delivery F = ℕ × Result (BatchError F) (Value F)

-- redisson-rs/src/api/batch_result.rs
pub record BatchResult (F : Fred) : Type 0 where
  pub responses : List (Value F)
  pub synced_slaves : ℤ

-- `retry_attempts` and `response_timeout` are those of the service within.
pub record Batch (F : Fred) : Type 0 where
  pub retry_attempts : Option ℕ
  pub response_timeout : Option ℕ
  pub options : BatchOptions
  pub batch_retry_attempts : ℕ
  pub batch_retry_delay : ℕ
  pub executed : Bool
  pub next_index : ℕ
  pub state : BatchState F

-- `attempts as u32`, when it is not negative.
abbrev pub own_attempts : ℤ → Option ℕ
own_attempts (pos n) = some n
own_attempts (negsuc n) = none

abbrev pub unwrap_or : Option ℕ → ℕ → ℕ
unwrap_or none d = d
unwrap_or (some n) d = n

unfoldable pub new : {F : Fred} → RedissonConfig → BatchOptions → Batch F
new cfg options = record {
  retry_attempts = own_attempts options.retry_attempts;
  response_timeout = options.response_timeout;
  options = options;
  batch_retry_attempts = unwrap_or (own_attempts options.retry_attempts) cfg.retry_attempts;
  batch_retry_delay = unwrap_or options.retry_delay cfg.retry_delay;
  executed = false;
  next_index = 0;
  state = if is_redis_based_queue options then redis_based none [] else in_memory [];
}

-- What `mem::take` leaves of the state.
abbrev pub emptied : {F : Fred} → BatchState F → BatchState F
emptied (in_memory commands) = in_memory []
emptied (redis_based slot entries) = redis_based slot []

-- The channels of the commands that are queued, in order.
abbrev pub channels : {F : Fred} → BatchState F → List ℕ
channels (in_memory commands) = map (λ (d : BatchCommandData _). d.tx) commands
channels (redis_based slot entries) = map (λ (p : ℕ × ℕ). p.0) entries

-- `is_wait_command`
abbrev pub is_wait_command : {F : Fred} → RedisCommand F → Bool
is_wait_command (wait numreplicas timeout) = true
is_wait_command (wait_aof numlocal numreplicas timeout) = true
is_wait_command _ = false
