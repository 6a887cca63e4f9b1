-- ===== src/Command/Async/Synced/Tests.antt =====
-- A script evaluated on a cluster with a slave, with the task that queues it first and last.
use mathlib.Core.List.Permᴰ as Permᴰ
use redisson_rs.Base.{
  String, true, false, ◌&&◌, none, some, [], ◌∷◌, length, map, if◌then◌else◌, ◌==◌, nat_eq,
  string_eq, ok, err, All, Result, ◌≡◌, refl,
}
use redisson_rs.Base.Int.{pos, int_eq, is_positive}
use redisson_rs.Connection.{from_slot, get_write_entry}
use redisson_rs.Connection.ServiceManager.{initial, ScriptCache}
use redisson_rs.Connection.ServiceManager.Samples.{lists}
use redisson_rs.Command.Value.{Value, Request, text, integer, null, custom}
use redisson_rs.Command.Samples.{plain_fred, first, second, clustered}
use redisson_rs.Command.RedisCommand.{
  RedisCommand, eval, eval_sha, routing_key, is_read_only, execute_on,
}
use redisson_rs.Command.Execute.{Answer}
use redisson_rs.Command.BatchOptions.{sync}
use redisson_rs.Command.Batch.{Entry}
use redisson_rs.Command.Batch
use redisson_rs.Command.Batch.InMemory.{
  NodeMap, gather, push_command, resolve_from, load_scripts, load_nodes, to_load, add_load,
  load_all,
}
use redisson_rs.Command.Batch.RedisBased.{in_time}
use redisson_rs.Command.Batch.Responses.{IsFair, IsAnswered}
use redisson_rs.Command.Batch.Queue.{numbered}
use redisson_rs.Command.Batch.Reply.{value_or_null}
use redisson_rs.Command.Async.{CommandAsyncInner, new, Around, Process}
use redisson_rs.Command.Async.Rounds.{
  AsyncError, Beyond, returned, none_synced, world, batch_options,
}
use redisson_rs.Command.Async.Rounds.Queued.{forgotten}
use redisson_rs.Base.{ℕ, Bool, Option, suc}
use redisson_rs.Command.Async.Rounds.{Outcome}
use redisson_rs.Base.Assoc.{lookup, insert}
use redisson_rs.Glob.{chars}
use redisson_rs.Command.Value.{Options}
use redisson_rs.Command.Execute.{send}
use redisson_rs.Command.Async.{WaitSupport, build_options, pin, node_of}
use redisson_rs.Command.Async.Info.{split, strip_prefix, parse_digits, parse_i64}
use redisson_rs.Command.Async.Probe.{
  ReplicationInfo, probe_wait_support, probe_command, query_replication_info,
}
use redisson_rs.Command.Async.Synced.{wait, supports, replication, synced_eval}
use redisson_rs.Command.Async.Synced.Returns.{synced_eval_ends}
use redisson_rs.Command.Async.Synced.Whole.{
  Waits, reached, synced_eval-queued, synced_eval-overtaken,
}

abbrev answer_to : Request plain_fred → Answer plain_fred
answer_to (custom name hash args) =
    if name == "WAIT"
    then ok (integer (pos 1))
    else if name == "EVALSHA"
    then ok (text "done")
    else ok null
answer_to _ = ok null

abbrev around : Around plain_fred
around = record {
  pool = λ log s. answer_to s.request;
  keyslot = λ key. if key == "a" then 1 else 2;
  topology = record {
    routing = some (record {
      get_server = λ slot. some (if slot == 1 then first else second);
      replicas = λ primary. [];
      unique_primary_nodes = first ∷ second ∷ [];
    });
    hosts = [];
  };
  sha1_hash = λ script. script;
  lru = lists;
}

abbrev beyond : Beyond plain_fred
beyond = record {
  topologies = λ index attempt. around.topology;
  pipeline = λ m replica rs. map answer_to rs;
  answer = answer_to;
  node_order = λ nodes. nodes;
  finish_order = λ nodes. nodes;
  link = record { next = length; answer = λ log s. answer_to s.request };
  deadline = in_time;
  is_noscript = λ e. false;
  as_string = λ value. ok (chars "connected_slaves:1");
}

abbrev service : CommandAsyncInner
service = new clustered

abbrev fresh : Process plain_fred lists
fresh = record {
  net = record { sort_ro_supported = true; eval_sha_ro_supported = true; log = [] };
  statics = initial lists;
  wait_support = none;
}

fair : IsFair (world around beyond)
fair = record { nodes_kept = λ nodes. Permᴰ.refl nodes; tasks_kept = λ nodes. Permᴰ.refl nodes }

abbrev script : String
script = "return 1"

abbrev node_with : RedisCommand plain_fred → NodeMap plain_fred
node_with cmd =
    (
      from_slot 1 first,
      record { read_only = false; commands = record { cmd = cmd; tx = 0; index = 0 } ∷ [] },
    )
    ∷ []

abbrev nodes : NodeMap plain_fred
nodes = node_with (eval script ("a" ∷ []) [])

abbrev loaded : NodeMap plain_fred
loaded = node_with (eval_sha script ("a" ∷ []) [])

abbrev cache' : ScriptCache
cache' = (first, script) ∷ []

abbrev done : Answer plain_fred
done = ok (text "done")

abbrev one : Answer plain_fred
one = ok (integer (pos 1))

gathered :
    gather
      (world around beyond)
      (Batch.new {F = plain_fred} service.config
        (batch_options service false (pos 1))).batch_retry_attempts
      (numbered (world around beyond) beyond.link 0 (eval script ("a" ∷ []) [] ∷ []))
      []
    ≡ ok nodes
unfolding gather resolve_from push_command get_write_entry routing_key is_read_only Batch.new sync
gathered = refl

loads :
    load_scripts (world around beyond) service.config nodes fresh.statics.script_shas
    ≡ ok (loaded, cache')
unfolding load_nodes to_load add_load load_all
loads = refl

answered :
    All
      (IsAnswered
        (world around beyond)
        service.config
        (batch_options service false (pos 1))
        (λ k. done)
        (λ m. one))
      loaded
unfolding execute_on sync
answered = (refl, tt)

abbrev call : (Bool → Bool) → ℕ → Option (Process plain_fred lists × Outcome plain_fred)
call order fuel = synced_eval around beyond service order script ("a" ∷ []) [] wait true fuel fresh

abbrev support : WaitSupport
support = record { wait = true; wait_aof = true }

abbrev info : ReplicationInfo
info = record { connected_slaves = pos 1; aof_enabled = false }

abbrev options : Options
options = pin (some first) (build_options service)

-- After WAIT and WAITAOF have been tried, and after INFO.
abbrev asked : Process plain_fred lists
asked = (supports around beyond service (λ b. true) script ("a" ∷ []) [] options fresh).0

abbrev told : Process plain_fred lists
told =
    (replication around beyond service (λ b. true) script ("a" ∷ []) [] (some first) options
      asked).0

waits :
    (order : Bool → Bool)
    → Waits around beyond service order script ("a" ∷ []) [] wait true fresh support info told
unfolding supports replication probe_wait_support probe_command query_replication_info send split
    strip_prefix parse_digits parse_i64 get_write_entry lookup insert
waits order = record {
  many = refl;
  asked = asked;
  supported = refl;
  wanted = refl;
  told = refl;
  some_slaves = refl;
}

synced_eval-queued_example :
    (end : Process plain_fred lists) × (call (λ b. true) 1
      ≡ some (
        end,
        if service.config.check_lock_synced_slaves
              && (reached around beyond service
                      (λ b. true)
                      script
                      ("a" ∷ [])
                      []
                      wait
                      true
                      (waits (λ b. true))
                      done
                      (λ m. one)
                      nodes
                      loaded
                      cache'
                    == pos 0
                  && is_positive (pos 1))
            then returned (err none_synced)
            else returned (ok (value_or_null done)),
      ))
    × (end.statics.slave_info ≡ (
        if reached around beyond service
            (λ b. true)
            script
            ("a" ∷ [])
            []
            wait
            true
            (waits (λ b. true))
            done
            (λ m. one)
            nodes
            loaded
            cache'
          == pos 1
        then told.statics.slave_info
        else forgotten (node_of around ("a" ∷ [])) told.statics.slave_info))
unfolding replication lookup supports probe_wait_support probe_command send query_replication_info
synced_eval-queued_example =
    synced_eval-queued around beyond service (λ b. true) script ("a" ∷ []) [] wait true
      (waits (λ b. true)) done (λ m. one) nodes loaded cache' 0 refl fair gathered loads answered

synced_eval-overtaken_example :
    (end : Process plain_fred lists) × (call (λ b. false) 1
      ≡ some (end, returned (err none_synced)))
    × (end.net ≡ told.net)
synced_eval-overtaken_example =
    synced_eval-overtaken around beyond service (λ b. false) script ("a" ∷ []) [] wait true
      (waits (λ b. false)) 0 refl

synced_eval_ends_example :
    (end : Process plain_fred lists × Result (AsyncError plain_fred) (Value plain_fred))
    × ((fuel : ℕ) → call (λ b. true) (suc (suc fuel)) ≡ some (end.0, returned end.1))
synced_eval_ends_example =
    synced_eval_ends around beyond service (λ b. true) script ("a" ∷ []) [] wait true
      (λ loaded. refl) fresh
