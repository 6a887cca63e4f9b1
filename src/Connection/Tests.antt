-- ===== src/Connection/Tests.antt =====
-- A cluster with one primary and two replicas.
use redisson_rs.Base.{ℕ, ◌≡◌, refl, some, [], ◌∷◌}
use redisson_rs.Config.{master, slave}
use redisson_rs.Config.Client.{Server}
use redisson_rs.Connection.{Topology, from_slot, get_write_entry, get_read_entry}
use redisson_rs.Connection.ReadEntry.{ReadsFrom, get_read_entry-ReadsFrom}

abbrev node : ℕ → Server
node port = record { host = "node"; port = port }

abbrev one_primary : Topology
one_primary = record {
  routing = some (record {
    get_server = λ slot. some (node 1);
    replicas = λ primary. node 2 ∷ node 3 ∷ [];
    unique_primary_nodes = node 1 ∷ [];
  });
  hosts = [];
}

odd_slot : get_read_entry slave one_primary 5 ≡ some (from_slot 5 (node 3))
unfolding get_read_entry
odd_slot = refl

from_master : get_read_entry master one_primary 5 ≡ some (from_slot 5 (node 1))
unfolding get_read_entry get_write_entry
from_master = refl

get_read_entry-ReadsFrom_example : ReadsFrom slave one_primary 5
get_read_entry-ReadsFrom_example = get_read_entry-ReadsFrom slave one_primary 5
