-- ===== src/Command/Async/Tests.antt =====
-- Scripts on servers that know nothing of EVALSHA_RO, and the theorems there.
use redisson_rs.Base.{
  ℕ, String, Bool, true, false, not, ◌&&◌, ◌||◌, none, some, List, [], ◌∷◌, ◌++◌, any, length,
  if◌then◌else◌, ◌==◌, ==-refl, nat_eq, string_eq, ok, err, is_err, arith, ◌≡◌, refl, ap,
}
use mathlib.Core.Bool.{false≢true}
use redisson_rs.Connection.{get_write_entry}
use redisson_rs.Base.Assoc.{lookup, insert}
use redisson_rs.Connection.ServiceManager.{initial, calc_sha}
use redisson_rs.Connection.ServiceManager.Samples.{lists, lists-IsLru}
use redisson_rs.Connection.ServiceManager.Caching.{Call, added, after, is_registered}
use redisson_rs.Connection.ServiceManager.Caching
use redisson_rs.Command.Value.{Request, text, null, eval, evalsha, custom, FredError}
use redisson_rs.Command.Samples.{plain_fred, cfg, first, second}
use redisson_rs.Command.RedisCommand.{RedisCommand, set, is_read_only, routing_key}
use redisson_rs.Command.Execute.{Sent, Answer, execute, send, fall_back}
use redisson_rs.Command.Async.{
  CommandAsyncInner, new, build_options, load_request, pin, Around, Process, node_of, async0,
  eval_options, eval_async, eval_cached, reload,
}
use redisson_rs.Command.Async.Bounds.{Extends, eval_async-Extends}
use redisson_rs.Command.Async.Scripting.{Running, IsScripting, ro_request, Ended, eval_async-Ended}
use redisson_rs.Command.Async.Evict.{told, is_key_of, async0-told}

abbrev noscript : FredError
noscript = record {
  details = "NOSCRIPT No matching script.";
  display = "Unknown: NOSCRIPT No matching script.";
}

abbrev unknown : FredError
unknown = record {
  details = "ERR unknown command";
  display = "Invalid Command: ERR unknown command";
}

-- The hash of a script is the script.
abbrev loads : Request plain_fred → String → Bool
loads (custom name hash (l ∷ text script ∷ [])) h = script == h
loads _ h = false

abbrev known : List (Sent plain_fred) → String → Bool
known log h = any (λ (s : Sent plain_fred). loads s.request h) log

abbrev answer_to : List (Sent plain_fred) → Request plain_fred → Answer plain_fred
answer_to log (eval script keys args) = ok (text script)
answer_to log (evalsha h keys args) = if known log h then ok (text h) else err noscript
answer_to log (custom name hash args) = if name == "EVALSHA_RO" then err unknown else ok null
answer_to log _ = ok null

abbrev around : Around plain_fred
around = record {
  pool = λ log s. answer_to log s.request;
  keyslot = λ key. if key == "a" then 1 else 2;
  topology = record {
    routing = some (record {
      get_server = λ slot. some (if slot == 1 then first else second);
      replicas = λ primary. [];
      unique_primary_nodes = first ∷ second ∷ [];
    });
    hosts = [];
  };
  sha1_hash = λ script. script;
  lru = lists;
}

known-append :
    (log : List (Sent plain_fred)) (s : Sent plain_fred) (h : String)
    → known (log ++ (s ∷ [])) h ≡ (known log h || loads s.request h)
known-append [] s h = ground arith
known-append (x ∷ log) s h = ground (arith, known-append log s h)

abbrev outcome : Running plain_fred
outcome log o ro h keys args = ok (text h)

scripting : IsScripting around.pool around.sha1_hash outcome
scripting = record {
  has_ro = λ o. false;
  knows = λ log o h. known log h;
  learns = λ log o server script reply pinned loaded. ground (
    arith,
    known-append log (record { options = o; request = load_request script }) script,
    ==-refl script,
  );
  on_eval = λ log o script keys args. refl;
  on_known = λ log o h keys args there. rw there refl;
  on_unknown = λ log o h keys args missing. (noscript, rw missing refl, refl, refl);
  ro_known = λ log o h keys args has there. absurd (ground arith);
  ro_unknown = λ log o h keys args has missing. absurd (ground arith);
  ro_missing = λ log o h keys args has. (unknown, refl, refl);
  ro_keeps = λ log o h keys args has there.
      ground (arith, known-append log (record { options = o; request = ro_request h keys args }) h);
}

abbrev service : CommandAsyncInner
service = new cfg

abbrev fresh : Process plain_fred lists
fresh = record {
  net = record { sort_ro_supported = true; eval_sha_ro_supported = true; log = [] };
  statics = initial lists;
  wait_support = none;
}

abbrev script : String
script = "return 1"

-- EVALSHA_RO, EVALSHA, SCRIPT LOAD, EVALSHA.
four_requests :
    length (eval_async around true script ("a" ∷ []) [] service false fresh).0.net.log ≡ 4
unfolding eval_async eval_cached reload execute send fall_back calc_sha lookup
four_requests = refl

eval_async-Extends_example :
    Extends
      (pin (node_of around ("a" ∷ [])) (eval_options service true))
      1
      4
      fresh.net
      (eval_async around true script ("a" ∷ []) [] service true fresh).0.net
eval_async-Extends_example = eval_async-Extends around true script ("a" ∷ []) [] service true fresh

eval_async-Ended_example :
    let ended = eval_async around true script ("a" ∷ []) [] service false fresh in
    Ended around outcome true script
      ("a" ∷ [])
      []
      (pin (node_of around ("a" ∷ [])) (eval_options service false))
      true
      (ended.0.net, ended.1)
unfolding lookup get_write_entry
eval_async-Ended_example =
    eval_async-Ended around outcome scripting lists-IsLru true script ("a" ∷ []) [] first service
      false fresh (λ log o ro e refused. absurd (false≢true (ap is_err refused))) refl
      (λ k u there. absurd (ground arith))

abbrev same : ℕ → ℕ
same i = i

abbrev calls : List (Call same)
calls = added 9 ∷ added 8 ∷ []

abbrev write : RedisCommand plain_fred
write = set "a" null none none

async0-told_example :
    let out = async0 around same service (after same calls) write fresh.net in
    let plain = execute around.pool (build_options service) write fresh.net in
    (told same 9 "a" out.0.1 ≡ (
      if not (is_err plain.1)
        && (not (is_read_only write) && (is_key_of same "a" write && is_registered same 9 calls))
      then 1
      else 0))
    × ((out.0.0, out.1) ≡ plain)
async0-told_example = async0-told same around service 9 "a" calls write fresh.net

-- A write tells each of the two instances.
told_both :
    (async0 around same service (after same calls) write fresh.net).0.1 ≡ (8, "a") ∷ (9, "a") ∷ []
unfolding async0 execute send insert is_read_only routing_key Caching.evict_client_side_caching
told_both = refl
