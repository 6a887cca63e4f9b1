-- ===== src/Connection.antt =====
-- redisson-rs/src/connection: the nodes as the batch sees them (master_slave_entry.rs), and the node
-- of a slot (fred_connection_manager.rs).
pub mod ReadEntry
pub mod ServiceManager
mod Tests
use mathlib.Core.Option
use redisson_rs.Base.{
  String, map, [], ◌∷◌, true, false, is_empty, length, get_elem?, if◌then◌else◌, ◌%◌, ℕ, Bool, ◌&&◌,
  Option, none, some, List, head?, ◌==◌, nat_eq, string_eq,
}
use redisson_rs.Config.{
  ReadMode, master, slave, master_slave, ServerMode, standalone, cluster, sentinel,
  ShardedSubscriptionMode, auto, on, off,
}
use redisson_rs.Config.Client.{Server}

pub record MasterSlaveEntry : Type 0 where
  pub primary : Server
  pub slot : Option ℕ

abbrev pub from_slot : ℕ → Server → MasterSlaveEntry
from_slot s server = record { primary = server; slot = some s }

abbrev pub from_server : Server → MasterSlaveEntry
from_server server = record { primary = server; slot = none }

-- `PartialEq for MasterSlaveEntry`: the slot is left out.
abbrev pub same_node : MasterSlaveEntry → MasterSlaveEntry → Bool
same_node a b = a.primary.host == b.primary.host && a.primary.port == b.primary.port

-- fred's routing table of a cluster: the primary of a slot, a primary's replicas, all primaries.
pub record Routing : Type 0 where
  pub get_server : ℕ → Option Server
  pub replicas : Server → List Server
  pub unique_primary_nodes : List Server

-- What fred knows of the deployment: its cached routing table, in a cluster, and the hosts of its
-- configuration.
pub record Topology : Type 0 where
  pub routing : Option Routing
  pub hosts : List Server

unfoldable pub get_write_entry : Topology → ℕ → Option MasterSlaveEntry
get_write_entry t slot = elim t.routing [
  | some routing ↦ Option.map (from_slot slot) (routing.get_server slot)
  | none ↦ Option.map from_server (head? t.hosts)
]

abbrev pub is_master : ReadMode → Bool
is_master master = true
is_master slave = false
is_master master_slave = false

-- `replicas[idx]`, where `none` stands for the panic of an index out of range.
abbrev pub pick_replica : ℕ → List Server → Option MasterSlaveEntry
pick_replica slot replicas =
    Option.map (from_slot slot) (get_elem? replicas (slot % length replicas))

abbrev pub read_from : Routing → ℕ → Server → Option MasterSlaveEntry
read_from routing slot primary =
    let replicas = routing.replicas primary in
    if is_empty replicas then some (from_slot slot primary) else pick_replica slot replicas

unfoldable pub get_read_entry : ReadMode → Topology → ℕ → Option MasterSlaveEntry
get_read_entry read_mode t slot =
    if is_master read_mode then get_write_entry t slot else (elim t.routing [
      | some routing ↦ elim (routing.get_server slot) [
        | some primary ↦ read_from routing slot primary
        | none ↦ get_write_entry t slot
      ]
      | none ↦ get_write_entry t slot
    ])

abbrev pub to_list : Option Server → List MasterSlaveEntry
to_list none = []
to_list (some server) = from_server server ∷ []

unfoldable pub get_entry_set : Topology → List MasterSlaveEntry
get_entry_set t = elim t.routing [
  | some routing ↦ map from_server routing.unique_primary_nodes
  | none ↦ to_list (head? t.hosts)
]

-- `check_sharding_support`, which asks the servers only in automatic mode.
abbrev pub publish_command :
    ServerMode → ShardedSubscriptionMode → (shardnumsub_answered : Bool) → String
publish_command (cluster nodes) off answered = "publish"
publish_command (cluster nodes) on answered = "spublish"
publish_command (cluster nodes) auto answered = if answered then "spublish" else "publish"
publish_command (standalone server db) mode answered = "publish"
publish_command (sentinel nodes name username password db) mode answered = "publish"
