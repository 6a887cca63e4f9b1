-- ===== src/Command/Batch/Samples.antt =====
-- Two nodes and their answers, for the tests of batches.
use redisson_rs.Base.{
  String, Bool, some, [], ◌∷◌, map, length, ◌==◌, string_eq, nat_eq, if◌then◌else◌, ok, err,
}
use redisson_rs.Base.Int.{pos}
use redisson_rs.Command.Value.{nil, cons, text, integer, array, null, Request, custom}
use redisson_rs.Command.Samples.{plain_fred, first, second, down}
use redisson_rs.Command.Execute.{Answer}
use redisson_rs.Command.BatchOptions.{BatchOptions, defaults}
use redisson_rs.Command.Batch.InMemory.{World}
use redisson_rs.Command.Batch.RedisBased.{Link}

-- One slave is to be synchronised.
abbrev pub options : BatchOptions
options = record defaults { sync_slaves = pos 1; sync_timeout = 100 }

abbrev is_exec : String → Bool
is_exec name = name == "EXEC"

-- A value is its key; a script's hash has no answer; EXEC gives two values.
abbrev pub answer_to : Request plain_fred → Answer plain_fred
answer_to (Request.get key) = ok (text key)
answer_to (custom name hash args) =
    if name == "WAIT"
    then ok (integer (pos 1))
    else if is_exec name
    then ok (array (cons (text "a") (cons (text "b") nil)))
    else if name == "EVALSHA"
    then err down
    else ok null
answer_to _ = ok null

-- Key "a" has slot 1, on the first node, the others slot 2, on the second.
abbrev pub w : World plain_fred
w = record {
  keyslot = λ key. if key == "a" then 1 else 2;
  topology = λ index attempt. record {
    routing = some (record {
      get_server = λ slot. some (if slot == 1 then first else second);
      replicas = λ primary. [];
      unique_primary_nodes = first ∷ second ∷ [];
    });
    hosts = [];
  };
  pipeline = λ m replica rs. map answer_to rs;
  answer = answer_to;
  sha1_hash = λ script. script;
  node_order = λ nodes. nodes;
  finish_order = λ nodes. nodes;
}

abbrev pub link : Link plain_fred
link = record { next = length; answer = λ log s. answer_to s.request }
