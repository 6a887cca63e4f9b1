-- ===== src/Config/Accept.antt =====
-- Which settings `RedissonConfig::try_from` (redisson-rs/src/config/mod.rs) accepts.
use redisson_rs.Base.{◌≡◌, ◌≢◌, ◌↔◌, ◌⊎◌, String, List, [], arith, string_eq, is_err, false}
use redisson_rs.Config.{
  RedisNode, RedisConfig, server_mode, subscription_mode, reading_mode, try_from,
}

-- The documented words, in lower case; a cluster or a sentinel mode needs a node.
abbrev pub IsMode : String → List RedisNode → Type 0
IsMode mode nodes =
    (mode ≡ "standalone") ⊎ (((mode ≡ "cluster") ⊎ (mode ≡ "sentinel")) × (nodes ≢ []))

abbrev pub IsSubscriptionMode : String → Type 0
IsSubscriptionMode mode = (mode ≡ "auto") ⊎ (mode ≡ "on") ⊎ (mode ≡ "off")

abbrev pub IsReadMode : String → Type 0
IsReadMode mode = (mode ≡ "slave") ⊎ (mode ≡ "master") ⊎ (mode ≡ "master_slave")

server_mode_accepts :
    (mode : String) (c : RedisConfig) → (is_err (server_mode mode c) ≡ false) ↔ IsMode mode c.nodes
unfolding server_mode
server_mode_accepts mode c = ground (
  arith,
  string_eq.beq_iff mode "standalone",
  string_eq.beq_iff mode "cluster",
  string_eq.beq_iff mode "sentinel",
)

subscription_mode_accepts :
    (mode : String) → (is_err (subscription_mode mode) ≡ false) ↔ IsSubscriptionMode mode
unfolding subscription_mode
subscription_mode_accepts mode = ground (
  arith,
  string_eq.beq_iff mode "auto",
  string_eq.beq_iff mode "on",
  string_eq.beq_iff mode "off",
)

reading_mode_accepts : (mode : String) → (is_err (reading_mode mode) ≡ false) ↔ IsReadMode mode
unfolding reading_mode
reading_mode_accepts mode = ground (
  arith,
  string_eq.beq_iff mode "slave",
  string_eq.beq_iff mode "master",
  string_eq.beq_iff mode "master_slave",
)

-- The conversion succeeds exactly when each of the three words, in lower case, is one of its
-- documented ones and a cluster or sentinel mode names at least one node.
pub try_from_accepts :
    (to_lowercase : String → String) (c : RedisConfig)
    → (is_err (try_from to_lowercase c) ≡ false) ↔ (
        IsMode (to_lowercase c.mode) c.nodes
        × IsSubscriptionMode (to_lowercase c.sharded_subscription_mode)
        × IsReadMode (to_lowercase c.read_mode))
unfolding try_from
try_from_accepts to_lowercase c = ground (
  arith,
  server_mode_accepts (to_lowercase c.mode) c,
  subscription_mode_accepts (to_lowercase c.sharded_subscription_mode),
  reading_mode_accepts (to_lowercase c.read_mode),
)
