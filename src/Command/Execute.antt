-- ===== src/Command/Execute.antt =====
-- `RedisCommand::execute` of redisson-rs/src/client/protocol/redis_command.rs: a command sent through
-- the pool. The flags SORT_RO_SUPPORTED and EVAL_SHA_RO_SUPPORTED
-- (redisson-rs/src/command/command_async_service.rs) and what has been sent are passed along.
pub mod Answers
mod Tests
use package.text.Mathlib.Text.{find?}
use redisson_rs.Base.{
  String, Bool, true, false, List, [], ◌∷◌, ◌++◌, if◌then◌else◌, is_some, Result, ok, err,
}
use redisson_rs.Command.Value.{
  Fred, Key, Value, text, integer, Request, first_key, custom, script_args, Options, FredError,
}
use redisson_rs.Command.Value
use redisson_rs.Command.RedisCommand.{
  RedisCommand, get, set, del, exists, expire, pexpire, ttl, pttl, persist, hget, hset, hgetall,
  hdel, hexists, hlen, hincrby, sadd, srem, smembers, sismember, scard, zadd, zrem, zscore, zcard,
  eval, eval_sha, eval_sha_ro, sort, sort_ro, wait, wait_aof,
}

-- A request and the options that it is sent under.
pub record Sent (F : Fred) : Type 0 where
  pub options : Options
  pub request : Request F

abbrev pub Answer : Fred → Type 0
Answer F = Result FredError (Value F)

-- The servers behind the pool: what they answer to a request, after those that came before.
abbrev pub Pool : Fred → Type 0
Pool F = List (Sent F) → Sent F → Answer F

pub record Net (F : Fred) : Type 0 where
  pub sort_ro_supported : Bool
  pub eval_sha_ro_supported : Bool
  pub log : List (Sent F)

-- `e.details().contains("ERR unknown command")`
abbrev pub is_unknown_command : FredError → Bool
is_unknown_command e = is_some (find? e.details "ERR unknown command")

module _ {F : Fred} (pool : Pool F) (options : Options) where
  -- `pool.with_options(options)` and one method of it.
  unfoldable pub send : Request F → Net F → Net F × Answer F
  send r n =
      let s : Sent F = record { options = options; request = r } in
      (record n { log = n.log ++ (s ∷ []) }, pool n.log s)

  -- `EVAL_SHA_RO_SUPPORTED.store(false)` and `SORT_RO_SUPPORTED.store(false)`
  abbrev pub no_eval_sha_ro : Net F → Net F
  no_eval_sha_ro n = record n { eval_sha_ro_supported = false }

  abbrev pub no_sort_ro : Net F → Net F
  no_sort_ro n = record n { sort_ro_supported = false }

  -- What follows the answer to the read-only form: `plain` again, with the flag off, when the server
  -- does not know the command.
  unfoldable pub fall_back :
      (Net F → Net F) → (plain : Request F) → Net F × Answer F → Net F × Answer F
  fall_back unsupported plain (n, ok v) = (n, ok v)
  fall_back unsupported plain (n, err e) =
      if is_unknown_command e then send plain (unsupported n) else (n, err e)

  unfoldable pub execute : RedisCommand F → Net F → Net F × Answer F
  execute (get key) n = send (Request.get key) n
  execute (set key value expiry options) n = send (Request.set key value expiry options) n
  execute (del keys) n = send (Request.del keys) n
  execute (exists keys) n = send (Request.exists keys) n
  execute (expire key seconds) n = send (Request.expire key seconds) n
  execute (pexpire key milliseconds) n = send (Request.pexpire key milliseconds) n
  execute (ttl key) n = send (Request.ttl key) n
  execute (pttl key) n = send (Request.pttl key) n
  execute (persist key) n = send (Request.persist key) n
  execute (hget key field) n = send (Request.hget key field) n
  execute (hset key field value) n = send (Request.hset key field value) n
  execute (hgetall key) n = send (Request.hgetall key) n
  execute (hdel key fields) n = send (Request.hdel key fields) n
  execute (hexists key field) n = send (Request.hexists key field) n
  execute (hlen key) n = send (Request.hlen key) n
  execute (hincrby key field delta) n = send (Request.hincrby key field delta) n
  execute (sadd key members) n = send (Request.sadd key members) n
  execute (srem key members) n = send (Request.srem key members) n
  execute (smembers key) n = send (Request.smembers key) n
  execute (sismember key member) n = send (Request.sismember key member) n
  execute (scard key) n = send (Request.scard key) n
  execute (zadd key score member options) n = send (Request.zadd key options score member) n
  execute (zrem key members) n = send (Request.zrem key members) n
  execute (zscore key member) n = send (Request.zscore key member) n
  execute (zcard key) n = send (Request.zcard key) n
  execute (eval script keys args) n = send (Request.eval script keys args) n
  execute (eval_sha sha keys args) n = send (Request.evalsha sha keys args) n
  execute (sort key) n = send (custom "SORT" first_key (text key ∷ [])) n
  execute (wait numreplicas timeout) n = send (Request.wait numreplicas timeout) n
  execute (wait_aof numlocal numreplicas timeout) n =
      send
        (custom "WAITAOF" first_key (integer numlocal ∷ integer numreplicas ∷ integer timeout ∷ []))
        n
  execute (eval_sha_ro sha keys args) n =
      if n.eval_sha_ro_supported
      then fall_back no_eval_sha_ro (Request.evalsha sha keys args)
          (send (custom "EVALSHA_RO" first_key (script_args sha keys args)) n)
      else send (Request.evalsha sha keys args) n
  execute (sort_ro key) n =
      if n.sort_ro_supported
      then fall_back no_sort_ro (custom "SORT" first_key (text key ∷ []))
          (send (custom "SORT_RO" first_key (text key ∷ [])) n)
      else send (custom "SORT" first_key (text key ∷ [])) n
