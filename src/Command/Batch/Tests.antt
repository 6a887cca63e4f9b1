-- ===== src/Command/Batch/Tests.antt =====
-- Batches of a few commands on two nodes, and the theorems at them.
use mathlib.Core.List.{Permᴰ}
use mathlib.Core.List.Permᴰ as Permᴰ
use native.Mathlib.Omega.{arith}
use redisson_rs.Base.{
  ◌%◌, ◌^◌, ℕ, zero, suc, ◌+◌, ◌≤◌, ◌<◌, ◌≡◌, ◌⊎◌, refl, true, false, none, List, [], ◌∷◌, ◌++◌,
  map, string_eq, nat_eq, ok, err, All,
}
use redisson_rs.Base.Int.{pos}
use redisson_rs.Connection.{MasterSlaveEntry, from_slot, get_write_entry}
use redisson_rs.Command.Value.{Value, text, integer, null, custom, custom_slot}
use redisson_rs.Command.RedisCommand.{
  RedisCommand, get, eval, eval_sha, routing_key, is_read_only, execute_on,
}
use redisson_rs.Command.Samples.{plain_fred, cfg, first, second, down}
use redisson_rs.Command.Execute.{Answer}
use redisson_rs.Command.Batch.{BatchCommandData, Entry, no_server, new}
use redisson_rs.Command.Batch.Reply.{value_or_null}
use redisson_rs.Connection.ServiceManager.{ScriptCache}
use redisson_rs.Command.Batch.InMemory.{
  NodeMap, gather, push_command, resolve_from, load_scripts, load_nodes, to_load, add_load,
  load_all,
}
use redisson_rs.Command.Batch.RedisBased.{in_time}
use redisson_rs.Command.Batch.Service.{Closed}
use redisson_rs.Command.Batch.Responses.{IsFair, IsAnswered, total}
use redisson_rs.Command.Batch.Queue.{numbered}
use redisson_rs.Command.Batch.Whole.{closed, execute_async-queued}
use redisson_rs.Command.Batch.Nodes.{IsFirst, resolve_from-IsFirst, OnlyReads, replica-OnlyReads}
use redisson_rs.Command.Batch.Scripts.{AllKnown, by_hash, load_nodes-AllKnown}
use redisson_rs.Command.Batch.Samples.{options, w, link, answer_to}

fair : IsFair w
fair = record { nodes_kept = λ nodes. Permᴰ.refl nodes; tasks_kept = λ nodes. Permᴰ.refl nodes }

abbrev cmds : List (RedisCommand plain_fred)
cmds = get "a" ∷ get "b" ∷ eval "return 1" ("a" ∷ []) [] ∷ []

abbrev nodes : NodeMap plain_fred
nodes =
    (
      from_slot 1 first,
      record {
        read_only = false;
        commands =
            record { cmd = get "a"; tx = 0; index = 0 }
            ∷ record { cmd = eval "return 1" ("a" ∷ []) []; tx = 2; index = 2 }
            ∷ [];
      },
    )
    ∷ (
      from_slot 2 second,
      record { read_only = true; commands = record { cmd = get "b"; tx = 1; index = 1 } ∷ [] },
    )
    ∷ []

abbrev loaded : NodeMap plain_fred
loaded =
    (
      from_slot 1 first,
      record {
        read_only = false;
        commands =
            record { cmd = get "a"; tx = 0; index = 0 }
            ∷ record { cmd = eval_sha "return 1" ("a" ∷ []) []; tx = 2; index = 2 }
            ∷ [];
      },
    )
    ∷ (
      from_slot 2 second,
      record { read_only = true; commands = record { cmd = get "b"; tx = 1; index = 1 } ∷ [] },
    )
    ∷ []

abbrev cache' : ScriptCache
cache' = (first, "return 1") ∷ []

gathered : gather w 4 (numbered w link 0 cmds) [] ≡ ok nodes
unfolding gather resolve_from push_command get_write_entry routing_key is_read_only
gathered = refl

loads : load_scripts w cfg nodes [] ≡ ok (loaded, cache')
unfolding load_nodes to_load add_load load_all
loads = refl

-- The answers by index, and to WAIT.
abbrev g : ℕ → Answer plain_fred
g zero = ok (text "a")
g (suc zero) = ok (text "b")
g _ = err down

abbrev a : MasterSlaveEntry → Answer plain_fred
a m = ok (integer (pos 1))

answered : All (IsAnswered w cfg options g a) loaded
unfolding execute_on
answered = (refl, (refl, tt))

abbrev done : Closed w link
done = closed w fair link cfg options g a cmds nodes loaded [] cache' in_time

execute_async-queued_example :
    (done.result
      ≡ ok (record {
        responses =
            map
              (λ (d : BatchCommandData plain_fred). value_or_null (g d.index))
              (numbered w link 0 cmds);
        synced_slaves = total w cfg options g a loaded (pos 0);
      }))
    × Permᴰ done.sent (
        map
          (λ (d : BatchCommandData plain_fred). (d.tx, ok (value_or_null (g d.index))))
          (numbered w link 0 cmds))
unfolding new
execute_async-queued_example =
    execute_async-queued w fair link cfg options g a cmds nodes loaded [] cache' in_time refl refl
      refl (omega arith) gathered loads answered

replica-OnlyReads_example : All (OnlyReads w cfg options false) loaded
replica-OnlyReads_example =
    replica-OnlyReads w cfg options 4 false (numbered w link 0 cmds) nodes loaded [] cache' fair
      gathered loads

resolve_from-IsFirst_example :
    ((k : ℕ) × (mse : MasterSlaveEntry) × (k ≤ 4)
      × IsFirst w 0 1 0 k mse
      × (resolve_from w 0 1 0 4 ≡ ok mse))
    ⊎ (((j : ℕ) → j < 5 → get_write_entry (w.topology 0 (0 + j)) 1 ≡ none)
        × (resolve_from w 0 1 0 4 ≡ err (no_server 1 ((0 + 4 + 1) % 2 ^ 32))))
resolve_from-IsFirst_example = resolve_from-IsFirst w 0 1 0 4

loaded_nodes : load_nodes w nodes [] ≡ ok (loaded, cache')
unfolding load_nodes to_load add_load load_all
loaded_nodes = refl

load_nodes-AllKnown_example :
    (loaded ≡ map (by_hash w) nodes)
    × All (AllKnown w cache') nodes
    × ((more : ScriptCache) × (cache' ≡ [] ++ more))
load_nodes-AllKnown_example = load_nodes-AllKnown w nodes loaded [] cache' loaded_nodes

-- A transaction of two commands on the first node.
abbrev pair : Entry plain_fred
pair = record {
  read_only = true;
  commands =
      record { cmd = get "a"; tx = 0; index = 0 }
      ∷ record { cmd = get "ab"; tx = 1; index = 1 }
      ∷ [];
}

abbrev front : List (Answer plain_fred)
front = ok null ∷ ok (text "a") ∷ ok (text "ab") ∷ []

abbrev exec : Answer plain_fred
exec = answer_to (custom "EXEC" (custom_slot 1) [])
