-- ===== src/Command/Value.antt =====
-- What the program sees of the fred client: values, the requests that it makes, and their results.
use redisson_rs.Base.{ℕ, String, Option, List, [], ◌∷◌, map, ◌++◌, length}
use redisson_rs.Base.Int.{ℤ, pos}
use redisson_rs.Config.Client.{Server}

-- fred's types that the program passes on unread.
pub record Fred : Type 1 where
  pub Expiration : Type 0
  pub SetOptions : Type 0
  pub Score : Type 0
  pub Other : Type 0

abbrev pub Key : Type 0
Key = String

mutual
  -- fred's `Value`; `other` stands for the variants that the program does not tell apart.
  pub data Value (F : Fred) : Type 0 where
    null : Value F
    integer : ℤ → Value F
    text : String → Value F
    array : Values F → Value F
    other : F.Other → Value F

  pub data Values (F : Fred) : Type 0 where
    nil : Values F
    cons : Value F → Values F → Values F

abbrev pub to_list : {F : Fred} → Values F → List (Value F)
to_list nil = []
to_list (cons v vs) = v ∷ to_list vs

-- fred's `ClusterHash`
pub data ClusterHash : Type 0 where
  first_key : ClusterHash
  custom_slot : ℕ → ClusterHash

-- fred's `Options`, the fields that the program sets.
pub record Options : Type 0 where
  pub max_attempts : Option ℕ
  pub timeout : Option ℕ
  pub cluster_node : Option Server

-- The method of a fred client that is called, with its arguments.
pub data Request (F : Fred) : Type 0 where
  get : Key → Request F
  set : Key → Value F → Option F.Expiration → Option F.SetOptions → Request F
  del exists : List Key → Request F
  expire pexpire : Key → ℤ → Request F
  ttl pttl persist : Key → Request F
  hget : Key → Key → Request F
  hset : Key → Key → Value F → Request F
  hgetall : Key → Request F
  hdel : Key → List Key → Request F
  hexists : Key → Key → Request F
  hlen : Key → Request F
  hincrby : Key → Key → ℤ → Request F
  sadd srem : Key → List (Value F) → Request F
  smembers : Key → Request F
  sismember : Key → Value F → Request F
  scard : Key → Request F
  zadd : Key → Option F.SetOptions → F.Score → Value F → Request F
  zrem : Key → List (Value F) → Request F
  zscore : Key → Value F → Request F
  zcard : Key → Request F
  eval evalsha : String → List Key → List (Value F) → Request F
  wait : ℤ → ℤ → Request F
  custom : String → ClusterHash → List (Value F) → Request F
  info_all : Request F
  script_load_cluster : String → Request F

-- The arguments of EVAL and EVALSHA as the code lists them: the script or its hash, the number of
-- keys, the keys, the arguments.
abbrev pub script_args : {F : Fred} → String → List Key → List (Value F) → List (Value F)
script_args s keys args = text s ∷ integer (pos (length keys)) ∷ (map text keys ++ args)

-- fred's error: what `details` gives, and what its `Display` prints.
pub record FredError : Type 0 where
  pub details : String
  pub display : String
