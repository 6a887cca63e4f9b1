-- ===== src/Command/BatchOptions.antt =====
-- redisson-rs/src/api/batch_options.rs: how a batch is executed. A `Duration` is its number of
-- milliseconds, the unit that the batch reads; a finer part is not modelled.
use redisson_rs.Base.{ℕ, Bool, true, false, Option, none, some}
use redisson_rs.Base.Int.{ℤ, pos, negsuc}

pub data ExecutionMode : Type 0 where
  in_memory in_memory_atomic redis_read_atomic redis_write_atomic : ExecutionMode

pub record BatchOptions : Type 0 where
  pub execution_mode : ExecutionMode
  pub response_timeout : Option ℕ
  pub retry_attempts : ℤ
  pub retry_delay : Option ℕ
  pub sync_slaves : ℤ
  pub sync_locals : ℤ
  pub sync_timeout : ℕ
  pub sync_aof : Bool
  pub skip_result : Bool

abbrev pub defaults : BatchOptions
defaults = record {
  execution_mode = in_memory;
  response_timeout = none;
  retry_attempts = negsuc 0;
  retry_delay = none;
  sync_slaves = pos 0;
  sync_locals = pos 0;
  sync_timeout = 0;
  sync_aof = false;
  skip_result = false;
}

-- The builder. Each method is named after the field that it is chiefly about.
unfoldable pub sync : (slaves : ℤ) (timeout : ℕ) → BatchOptions → BatchOptions
sync slaves timeout o = record o { sync_slaves = slaves; sync_timeout = timeout; sync_aof = false }

unfoldable pub sync_aof : (local_num slaves : ℤ) (timeout : ℕ) → BatchOptions → BatchOptions
sync_aof local_num slaves timeout o = record o {
  sync_locals = local_num;
  sync_slaves = slaves;
  sync_timeout = timeout;
  sync_aof = true;
}

unfoldable pub execution_mode : ExecutionMode → BatchOptions → BatchOptions
execution_mode mode o = record o { execution_mode = mode }

unfoldable pub skip_result : BatchOptions → BatchOptions
skip_result o = record o { skip_result = true }

unfoldable pub response_timeout : ℕ → BatchOptions → BatchOptions
response_timeout timeout o = record o { response_timeout = some timeout }

unfoldable pub retry_attempts : ℤ → BatchOptions → BatchOptions
retry_attempts attempts o = record o { retry_attempts = attempts }

unfoldable pub retry_delay : ℕ → BatchOptions → BatchOptions
retry_delay delay o = record o { retry_delay = some delay }

abbrev pub is_redis_based_queue : BatchOptions → Bool
is_redis_based_queue o = elim o.execution_mode [
  | redis_read_atomic ↦ true
  | redis_write_atomic ↦ true
  | _ ↦ false
]
