-- ===== src/Command.antt =====
-- The commands (redisson-rs/src/client/protocol/redis_command.rs) and the services that run them
-- (redisson-rs/src/command).
pub mod Value
pub mod Samples
pub mod RedisCommand
pub mod Execute
pub mod Async
pub mod BatchOptions
pub mod Batch
