-- ===== src/Command/Async/Scripting.antt =====
-- `eval_async` of redisson-rs/src/command/command_async_service.rs against servers that keep scripts
-- by their hashes: the script runs in the end, or SCRIPT LOAD fails.
use redisson_rs.Base.{
  String, Bool, true, false, ◌&&◌, Bool-cases, inl, inr, some, List, [], ◌∷◌, ◌++◌, ok, err,
  Result-cases, arith, if◌then◌else◌, ◌≡◌, refl, sym, ◌∙◌,
}
use redisson_rs.Config.Client.{Server}
use redisson_rs.Connection.ServiceManager.{IsLru}
use redisson_rs.Connection.ServiceManager.Shas.{IsRight, calc_sha-Hashed}
use redisson_rs.Command.Value.{
  Fred, Key, Value, Request, eval, evalsha, custom, first_key, script_args, Options, FredError,
}
use redisson_rs.Command.Execute.{
  Sent, Answer, Pool, Net, is_unknown_command, send, fall_back, no_eval_sha_ro, execute,
}
use redisson_rs.Command.Async.{
  CommandAsyncInner, is_eval_cache_active, says, pin, Around, Process, node_of, by_sha,
  load_request, reload, eval_cached, eval_options, eval_async,
}

abbrev pub ro_request : {F : Fred} → String → List Key → List (Value F) → Request F
ro_request h keys args = custom "EVALSHA_RO" first_key (script_args h keys args)

-- What running a script, by its hash, answers after the requests before it: a value or an error. The
-- Boolean says whether it runs through EVALSHA_RO.
abbrev pub Running : Fred → Type 0
Running F = List (Sent F) → Options → Bool → String → List Key → List (Value F) → Answer F

-- What Redis documents of EVAL, EVALSHA, EVALSHA_RO and SCRIPT LOAD, for a node whose scripts no one
-- else flushes between two of the requests. `knows` says whether the node that a request under the
-- options reaches has the script of a hash, `has_ro` whether it has EVALSHA_RO (Redis 7).
pub record IsScripting {F : Fred} (pool : Pool F) (hash : String → String) (outcome : Running F)
    : Type 0 where
  pub has_ro : Options → Bool
  pub knows : List (Sent F) → Options → String → Bool
  -- SCRIPT LOAD on one node, when it succeeds, makes the script known there.
  pub learns :
      (log : List (Sent F)) (o : Options) (server : Server) (script : String) (reply : Value F)
      → o.cluster_node ≡ some server
      → pool log (record { options = o; request = load_request script }) ≡ ok reply
      → knows (log ++ (record { options = o; request = load_request script } ∷ [])) o (hash script)
        ≡ true
  pub on_eval :
      (log : List (Sent F)) (o : Options) (script : String) (keys : List Key)
      (args : List (Value F))
      → pool log (record { options = o; request = eval script keys args })
        ≡ outcome log o false (hash script) keys args
  -- Both forms of EVALSHA run a script that is known, and answer NOSCRIPT otherwise.
  pub on_known :
      (log : List (Sent F)) (o : Options) (h : String) (keys : List Key) (args : List (Value F))
      → knows log o h ≡ true
      → pool log (record { options = o; request = evalsha h keys args })
        ≡ outcome log o false h keys args
  pub on_unknown :
      (log : List (Sent F)) (o : Options) (h : String) (keys : List Key) (args : List (Value F))
      → knows log o h ≡ false
      → (e : FredError) × (pool log (record { options = o; request = evalsha h keys args }) ≡ err e)
        × (says e "ERR unknown command" ≡ false)
        × (says e "NOSCRIPT" ≡ true)
  pub ro_known :
      (log : List (Sent F)) (o : Options) (h : String) (keys : List Key) (args : List (Value F))
      → has_ro o ≡ true
      → knows log o h ≡ true
      → pool log (record { options = o; request = ro_request h keys args })
        ≡ outcome log o true h keys args
  pub ro_unknown :
      (log : List (Sent F)) (o : Options) (h : String) (keys : List Key) (args : List (Value F))
      → has_ro o ≡ true
      → knows log o h ≡ false
      → (e : FredError) × (pool log (record { options = o; request = ro_request h keys args })
          ≡ err e)
        × (is_unknown_command e ≡ false)
        × (says e "ERR unknown command" ≡ false)
        × (says e "NOSCRIPT" ≡ true)
  -- A node without EVALSHA_RO says so, and still knows what it knew.
  pub ro_missing :
      (log : List (Sent F)) (o : Options) (h : String) (keys : List Key) (args : List (Value F))
      → has_ro o ≡ false
      → (e : FredError) × (pool log (record { options = o; request = ro_request h keys args })
          ≡ err e)
        × (is_unknown_command e ≡ true)
  pub ro_keeps :
      (log : List (Sent F)) (o : Options) (h : String) (keys : List Key) (args : List (Value F))
      → has_ro o ≡ false
      → knows log o h ≡ true
      → knows (log ++ (record { options = o; request = ro_request h keys args } ∷ [])) o h ≡ true

-- No error of the script's own reads like an unknown script or command.
abbrev pub HasOwnErrors : {F : Fred} → Running F → String → List Key → List (Value F) → Type 0
HasOwnErrors outcome h keys args =
    (log : _) (o : Options) (ro : Bool) (e : FredError)
    → outcome log o ro h keys args ≡ err e
    → (is_unknown_command e ≡ false)
      × (says e "ERR unknown command" ≡ false)
      × (says e "NOSCRIPT" ≡ false)

module _ {F : Fred} (v : Around F) (outcome : Running F) (read_only : Bool) (script : String)
    (keys : List Key) (args : List (Value F)) (o : Options) where
  abbrev h : String
  h = v.sha1_hash script

  abbrev pub sent : Request F → Sent F
  sent r = record { options = o; request = r }

  -- The last request runs the script by its hash, and its answer is what the script answers.
  pub data Ran (p : Net F × Answer F) : Type 0 where
    by_hash :
        (before : List (Sent F))
        → p.0.log ≡ before ++ (sent (evalsha (v.sha1_hash script) keys args) ∷ [])
        → p.1 ≡ outcome before o false (v.sha1_hash script) keys args
        → Ran p
    by_hash_ro :
        (before : List (Sent F))
        → read_only ≡ true
        → p.0.log ≡ before ++ (sent (ro_request (v.sha1_hash script) keys args) ∷ [])
        → p.1 ≡ outcome before o true (v.sha1_hash script) keys args
        → Ran p

  -- How an evaluation ends: with the script's answer to EVAL when there is no cache, and when there is
  -- with its answer to EVALSHA or EVALSHA_RO, or with the error of a SCRIPT LOAD that failed.
  pub data Ended (cached : Bool) (p : Net F × Answer F) : Type 0 where
    evaluated :
        (before : List (Sent F))
        → cached ≡ false
        → p.0.log ≡ before ++ (sent (eval script keys args) ∷ [])
        → p.1 ≡ outcome before o false (v.sha1_hash script) keys args
        → Ended cached p
    executed : cached ≡ true → Ran p → Ended cached p
    not_loaded :
        (before : List (Sent F)) (e : FredError)
        → cached ≡ true
        → p.0.log ≡ before ++ (sent (load_request script) ∷ [])
        → v.pool before (sent (load_request script)) ≡ err e
        → p.1 ≡ err e
        → Ended cached p

  -- The script has run, or the node does not have it.
  data Tried (p : Net F × Answer F) : Type 0 where
    ran : Ran p → Tried p
    not_there :
        (e : FredError)
        → p.1 ≡ err e
        → says e "ERR unknown command" ≡ false
        → says e "NOSCRIPT" ≡ true
        → Tried p

  fall_back_kept :
      (unsupported : Net F → Net F) (plain : Request F) (n : Net F) (r : Answer F)
      → ((e : FredError) → r ≡ err e → is_unknown_command e ≡ false)
      → fall_back v.pool o unsupported plain (n, r) ≡ (n, r)
  unfolding fall_back
  fall_back_kept unsupported plain n (ok value) known = refl
  fall_back_kept unsupported plain n (err e) known = rw (known e refl) refl

  settled : (p : Net F × Answer F) (r : Answer F) → Ran p → p.1 ≡ r → Ended true (p.0, r)
  settled p r (by_hash before log is) same = executed refl (by_hash before log (sym same ∙ is))
  settled p r (by_hash_ro before ro log is) same =
      executed refl (by_hash_ro before ro log (sym same ∙ is))

  module _ (redis : IsScripting v.pool v.sha1_hash outcome)
      (own : HasOwnErrors outcome (v.sha1_hash script) keys args) where
    own_error :
        (p : Net F × Answer F) (e : FredError)
        → Ran p
        → p.1 ≡ err e
        → (says e "ERR unknown command" ≡ false) × (says e "NOSCRIPT" ≡ false)
    own_error p e (by_hash before log is) same =
        let (a, b, c) = own before o false e (sym is ∙ same) in (b, c)
    own_error p e (by_hash_ro before ro log is) same =
        let (a, b, c) = own before o true e (sym is ∙ same) in (b, c)

    evalsha_known :
        (n : Net F) → redis.knows n.log o h ≡ true → Ran (send v.pool o (evalsha h keys args) n)
    unfolding send
    evalsha_known n there = by_hash n.log refl (redis.on_known n.log o h keys args there)

    evalsha-Tried : (n : Net F) → Tried (send v.pool o (evalsha h keys args) n)
    unfolding send
    evalsha-Tried n = elim (Bool-cases (redis.knows n.log o h)) [
      | inl there ↦ ran (evalsha_known n there)
      | inr missing ↦
          let (e, is, known, noscript) = redis.on_unknown n.log o h keys args missing in
          not_there e is known noscript
    ]

    -- EVALSHA_RO, and EVALSHA behind it where that is not known.
    abbrev read_only_form : Net F → Net F × Answer F
    read_only_form n =
        fall_back v.pool o (no_eval_sha_ro v.pool o) (evalsha h keys args)
          (send v.pool o (ro_request h keys args) n)

    has_ro_known :
        (n : Net F)
        → read_only ≡ true
        → redis.has_ro o ≡ true
        → redis.knows n.log o h ≡ true
        → Ran (read_only_form n)
    unfolding send
    has_ro_known n reading has there =
        let is = redis.ro_known n.log o h keys args has there in
        rw
          (fall_back_kept (no_eval_sha_ro v.pool o) (evalsha h keys args)
            (send v.pool o (ro_request h keys args) n).0
            (send v.pool o (ro_request h keys args) n).1
            (λ e refused. (own n.log o true e (sym is ∙ refused)).0))
          (by_hash_ro n.log reading refl is)

    read_only_form_known :
        (n : Net F) → read_only ≡ true → redis.knows n.log o h ≡ true → Ran (read_only_form n)
    unfolding fall_back send
    read_only_form_known n reading there = elim (Bool-cases (redis.has_ro o)) [
      | inl has ↦ has_ro_known n reading has there
      | inr none ↦
          let (e, is, unknown) = redis.ro_missing n.log o h keys args none in
          simp (is, unknown)
            (evalsha_known (no_eval_sha_ro v.pool o (send v.pool o (ro_request h keys args) n).0)
              (redis.ro_keeps n.log o h keys args none there))
    ]

    read_only_form-Tried : (n : Net F) → read_only ≡ true → Tried (read_only_form n)
    unfolding fall_back send
    read_only_form-Tried n reading = elim (Bool-cases (redis.has_ro o)) [
      | inl has ↦ elim (Bool-cases (redis.knows n.log o h)) [
        | inl there ↦ ran (has_ro_known n reading has there)
        | inr missing ↦
            let (e, is, known, plain, noscript) =
              redis.ro_unknown n.log o h keys args has missing in
            simp (is, known) (not_there e refl plain noscript)
      ]
      | inr none ↦
          let (e, is, unknown) = redis.ro_missing n.log o h keys args none in
          simp (is, unknown)
            (evalsha-Tried (no_eval_sha_ro v.pool o (send v.pool o (ro_request h keys args) n).0))
    ]

    execute-Tried : (n : Net F) → Tried (execute v.pool o (by_sha read_only h keys args n) n)
    unfolding execute
    execute-Tried n = elim (Bool-cases (read_only && n.eval_sha_ro_supported)) [
      | inl ro ↦
          let on : n.eval_sha_ro_supported ≡ true = ground arith in
          rw ro (simp on (read_only_form-Tried n (ground arith)))
      | inr plain ↦ rw plain (evalsha-Tried n)
    ]

    -- A script that the node knows runs.
    execute_known :
        (n : Net F)
        → redis.knows n.log o h ≡ true
        → Ran (execute v.pool o (by_sha read_only h keys args n) n)
    unfolding execute
    execute_known n there = elim (Bool-cases (read_only && n.eval_sha_ro_supported)) [
      | inl ro ↦
          let on : n.eval_sha_ro_supported ≡ true = ground arith in
          rw ro (simp on (read_only_form_known n (ground arith) there))
      | inr plain ↦ rw plain (evalsha_known n there)
    ]

    module _ (server : Server) (pinned : o.cluster_node ≡ some server) where
      -- After a SCRIPT LOAD that succeeds it does.
      reload-Ended :
          (n : Net F) → Ended true (reload v read_only script keys args o (v.sha1_hash script) n)
      unfolding reload send
      reload-Ended n = elim (Result-cases (v.pool n.log (sent (load_request script)))) [
        | inl (reply, is) ↦
            rw (is, reload)
              (executed refl (
                execute_known (send v.pool o (load_request script) n).0
                  (redis.learns n.log o server script reply pinned is)))
        | inr (e, is) ↦ rw (is, reload) (not_loaded n.log e refl refl is refl)
      ]

      after_run :
          (n : Net F)
          → Ran (execute v.pool o (by_sha read_only h keys args n) n)
          → Ended true (eval_cached v read_only script keys args o (v.sha1_hash script) n)
      unfolding eval_cached
      after_run n done =
          let p = execute v.pool o (by_sha read_only h keys args n) n in
          elim (Result-cases p.1) [
            | inl (value, is) ↦ rw (is, eval_cached) (settled p (ok value) done is)
            | inr (e, is) ↦
                let (known, found) = own_error p e done is in
                rw (is, eval_cached, known, found) (settled p (err e) done is)
          ]

      pub eval_cached-Ended :
          (n : Net F)
          → Ended true (eval_cached v read_only script keys args o (v.sha1_hash script) n)
      unfolding eval_cached
      eval_cached-Ended n =
          let cmd = by_sha read_only (v.sha1_hash script) keys args n in
          elim (execute-Tried n) [
            | ran done ↦ after_run n done
            | not_there e is known noscript ↦
                rw (is, eval_cached, known, noscript) (reload-Ended (execute v.pool o cmd n).0)
          ]

-- When the servers keep scripts as `IsScripting` says, the keys decide a node, hashes are remembered
-- right, and the script's own errors do not read like an unknown script or command, the last request
-- of an evaluation runs the script, and the result is what the script then answers: by EVAL when there
-- is no cache, and by EVALSHA, or EVALSHA_RO if the script only reads, when there is one. Otherwise
-- there is a cache, the last request is a SCRIPT LOAD that failed, and the result is its error.
pub eval_async-Ended :
    {F : Fred} (v : Around F) (outcome : Running F)
    → IsScripting v.pool v.sha1_hash outcome
    → IsLru v.lru
    → (read_only : Bool) (script : String) (keys : List Key) (args : List (Value F))
      (server : Server) (i : CommandAsyncInner) (no_retry : Bool) (s : Process F v.lru)
    → HasOwnErrors outcome (v.sha1_hash script) keys args
    → node_of v keys ≡ some server
    → IsRight v.lru v.sha1_hash s.statics.shas
    → let options =
        if is_eval_cache_active i
        then pin (node_of v keys) (eval_options i no_retry)
        else eval_options i no_retry in
      let (s', answer) = eval_async v read_only script keys args i no_retry s in
      Ended v outcome read_only script keys args options (is_eval_cache_active i) (s'.net, answer)
unfolding eval_async execute send
eval_async-Ended v outcome redis lru read_only script keys args server i no_retry s own at right =
    elim (Bool-cases (is_eval_cache_active i)) [
      | inl active ↦
          let sha = (calc_sha-Hashed v.lru v.sha1_hash lru script s.statics right).sha in
          let o = pin (node_of v keys) (eval_options i no_retry) in
          let pinned : o.cluster_node ≡ some server = rw at refl in
          rw (active, sha)
            (eval_cached-Ended v outcome read_only script keys args o redis own server pinned s.net)
      | inr inactive ↦
          let o = eval_options i no_retry in
          rw inactive (evaluated s.net.log refl refl (redis.on_eval s.net.log o script keys args))
    ]
