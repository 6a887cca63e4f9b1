-- ===== src/Command/RedisCommand.antt =====
-- `RedisCommand` of redisson-rs/src/client/protocol/redis_command.rs: the commands, which of them
-- only read, the key that decides the node, and the request that a pipeline makes of each.
use redisson_rs.Base.{String, Bool, true, false, Option, none, some, List, [], ◌∷◌, head?}
use redisson_rs.Base.Int.{ℤ}
use redisson_rs.Command.Value.{
  Fred, Key, Value, text, integer, Request, first_key, custom, script_args,
}

pub data RedisCommand (F : Fred) : Type 0 where
  get : (key : Key) → RedisCommand F
  set :
      (key : Key) (value : Value F) (expiry : Option F.Expiration) (options : Option F.SetOptions)
      → RedisCommand F
  del : (keys : List Key) → RedisCommand F
  exists : (keys : List Key) → RedisCommand F
  expire : (key : Key) (seconds : ℤ) → RedisCommand F
  pexpire : (key : Key) (milliseconds : ℤ) → RedisCommand F
  ttl : (key : Key) → RedisCommand F
  pttl : (key : Key) → RedisCommand F
  persist : (key : Key) → RedisCommand F
  hget : (key field : Key) → RedisCommand F
  hset : (key field : Key) (value : Value F) → RedisCommand F
  hgetall : (key : Key) → RedisCommand F
  hdel : (key : Key) (fields : List Key) → RedisCommand F
  hexists : (key field : Key) → RedisCommand F
  hlen : (key : Key) → RedisCommand F
  hincrby : (key field : Key) (delta : ℤ) → RedisCommand F
  sadd : (key : Key) (members : List (Value F)) → RedisCommand F
  srem : (key : Key) (members : List (Value F)) → RedisCommand F
  smembers : (key : Key) → RedisCommand F
  sismember : (key : Key) (member : Value F) → RedisCommand F
  scard : (key : Key) → RedisCommand F
  zadd :
      (key : Key) (score : F.Score) (member : Value F) (options : Option F.SetOptions)
      → RedisCommand F
  zrem : (key : Key) (members : List (Value F)) → RedisCommand F
  zscore : (key : Key) (member : Value F) → RedisCommand F
  zcard : (key : Key) → RedisCommand F
  eval : (script : String) (keys : List Key) (args : List (Value F)) → RedisCommand F
  eval_sha : (sha : String) (keys : List Key) (args : List (Value F)) → RedisCommand F
  eval_sha_ro : (sha : String) (keys : List Key) (args : List (Value F)) → RedisCommand F
  sort : (key : Key) → RedisCommand F
  sort_ro : (key : Key) → RedisCommand F
  wait : (numreplicas timeout : ℤ) → RedisCommand F
  wait_aof : (numlocal numreplicas timeout : ℤ) → RedisCommand F

unfoldable pub is_read_only : {F : Fred} → RedisCommand F → Bool
is_read_only (get key) = true
is_read_only (exists keys) = true
is_read_only (ttl key) = true
is_read_only (pttl key) = true
is_read_only (hget key field) = true
is_read_only (hgetall key) = true
is_read_only (hexists key field) = true
is_read_only (hlen key) = true
is_read_only (smembers key) = true
is_read_only (sismember key member) = true
is_read_only (scard key) = true
is_read_only (zscore key member) = true
is_read_only (zcard key) = true
is_read_only (eval_sha_ro sha keys args) = true
is_read_only (sort_ro key) = true
is_read_only _ = false

unfoldable pub routing_key : {F : Fred} → RedisCommand F → Option Key
routing_key (get key) = some key
routing_key (set key value expiry options) = some key
routing_key (del keys) = head? keys
routing_key (exists keys) = head? keys
routing_key (expire key seconds) = some key
routing_key (pexpire key milliseconds) = some key
routing_key (ttl key) = some key
routing_key (pttl key) = some key
routing_key (persist key) = some key
routing_key (hget key field) = some key
routing_key (hset key field value) = some key
routing_key (hgetall key) = some key
routing_key (hdel key fields) = some key
routing_key (hexists key field) = some key
routing_key (hlen key) = some key
routing_key (hincrby key field delta) = some key
routing_key (sadd key members) = some key
routing_key (srem key members) = some key
routing_key (smembers key) = some key
routing_key (sismember key member) = some key
routing_key (scard key) = some key
routing_key (zadd key score member options) = some key
routing_key (zrem key members) = some key
routing_key (zscore key member) = some key
routing_key (zcard key) = some key
routing_key (eval_sha sha keys args) = head? keys
routing_key (eval_sha_ro sha keys args) = head? keys
routing_key (eval script keys args) = head? keys
routing_key (sort key) = some key
routing_key (sort_ro key) = some key
routing_key (wait numreplicas timeout) = none
routing_key (wait_aof numlocal numreplicas timeout) = none

-- `execute_on`: the one request that it makes of the pipeline.
unfoldable pub execute_on : {F : Fred} → RedisCommand F → Request F
execute_on (get key) = Request.get key
execute_on (set key value expiry options) = Request.set key value expiry options
execute_on (del keys) = Request.del keys
execute_on (exists keys) = Request.exists keys
execute_on (expire key seconds) = Request.expire key seconds
execute_on (pexpire key milliseconds) = Request.pexpire key milliseconds
execute_on (ttl key) = Request.ttl key
execute_on (pttl key) = Request.pttl key
execute_on (persist key) = Request.persist key
execute_on (hget key field) = Request.hget key field
execute_on (hset key field value) = Request.hset key field value
execute_on (hgetall key) = Request.hgetall key
execute_on (hdel key fields) = Request.hdel key fields
execute_on (hexists key field) = Request.hexists key field
execute_on (hlen key) = Request.hlen key
execute_on (hincrby key field delta) = Request.hincrby key field delta
execute_on (sadd key members) = Request.sadd key members
execute_on (srem key members) = Request.srem key members
execute_on (smembers key) = Request.smembers key
execute_on (sismember key member) = Request.sismember key member
execute_on (scard key) = Request.scard key
execute_on (zadd key score member options) = Request.zadd key options score member
execute_on (zrem key members) = Request.zrem key members
execute_on (zscore key member) = Request.zscore key member
execute_on (zcard key) = Request.zcard key
execute_on (eval script keys args) = custom "EVAL" first_key (script_args script keys args)
execute_on (eval_sha sha keys args) = custom "EVALSHA" first_key (script_args sha keys args)
execute_on (eval_sha_ro sha keys args) = custom "EVALSHA" first_key (script_args sha keys args)
execute_on (sort key) = custom "SORT" first_key (text key ∷ [])
execute_on (sort_ro key) = custom "SORT" first_key (text key ∷ [])
execute_on (wait numreplicas timeout) = Request.wait numreplicas timeout
execute_on (wait_aof numlocal numreplicas timeout) =
    custom "WAITAOF" first_key (integer numlocal ∷ integer numreplicas ∷ integer timeout ∷ [])
