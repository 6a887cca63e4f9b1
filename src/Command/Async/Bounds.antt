-- ===== src/Command/Async/Bounds.antt =====
-- `eval_async` of redisson-rs/src/command/command_async_service.rs: where its requests go, and how
-- many they are.
use mathlib.Core.List.{append_assoc, map-append}
use redisson_rs.Base.{
  ℕ, ◌+◌, ◌≤◌, String, Bool, true, false, ◌&&◌, Bool-cases, inl, inr, List, [], ◌∷◌, ◌++◌, map,
  length, length-append, if◌then◌else◌, Result-cases, arith, ◌≡◌, refl,
}
use redisson_rs.Command.Value.{
  Fred, Key, Value, Request, evalsha, custom, first_key, script_args, Options,
}
use redisson_rs.Connection.ServiceManager.{calc_sha}
use redisson_rs.Command.RedisCommand.{eval_sha}
use redisson_rs.Command.Execute.{
  Sent, Pool, Net, is_unknown_command, send, fall_back, no_eval_sha_ro, execute,
}
use redisson_rs.Command.Async.{
  CommandAsyncInner, is_eval_cache_active, says, pin, Around, Process, node_of, by_sha,
  load_request, reload, eval_cached, eval_options, eval_async,
}

-- From the one state to the other, so many requests were sent, all under these options.
pub record Extends {F : Fred} (o : Options) (least most : ℕ) (n n' : Net F) : Type 0 where
  pub requests : List (Request F)
  pub logged : n'.log ≡ n.log ++ map (λ r. record { options = o; request = r }) requests
  pub enough : least ≤ length requests
  pub few : length requests ≤ most

module _ {F : Fred} (pool : Pool F) (o : Options) where
  Extends-trans :
      {a b c d : ℕ} {n n' n'' : Net F}
      → Extends o a b n n'
      → Extends o c d n' n''
      → Extends o (a + c) (b + d) n n''
  Extends-trans {n = n} p q = record {
    requests = p.requests ++ q.requests;
    logged =
        rw
          (
            q.logged,
            p.logged,
            map-append {B = Sent F} (λ (r : Request F). record { options = o; request = r })
                p.requests q.requests,
          )
          (append_assoc n.log _ _);
    enough = omega (arith, length-append p.requests q.requests, p.enough, q.enough);
    few = omega (arith, length-append p.requests q.requests, p.few, q.few);
  }

  Extends-weaken :
      {a b c d : ℕ} {n n' : Net F} → c ≤ a → b ≤ d → Extends o a b n n' → Extends o c d n n'
  Extends-weaken low high p = record {
    requests = p.requests;
    logged = p.logged;
    enough = omega (arith, low, p.enough);
    few = omega (arith, high, p.few);
  }

  send-Extends : (r : Request F) (n : Net F) → Extends o 1 1 n (send pool o r n).0
  unfolding send
  send-Extends r n = record {
    requests = r ∷ [];
    logged = refl;
    enough = omega arith;
    few = omega arith;
  }

  -- What a read-only command takes: one request, or two, and then its flag is off.
  data Took (n : Net F) (out : Net F) : Type 0 where
    one : Extends o 1 1 n out → Took n out
    two : Extends o 2 2 n out → out.eval_sha_ro_supported ≡ false → Took n out

  send_off :
      (r : Request F) (n : Net F)
      → (send pool o r n).0.eval_sha_ro_supported ≡ n.eval_sha_ro_supported
  unfolding send
  send_off r n = refl

  no_eval_sha_ro-Extends :
      {a b : ℕ} {n n' : Net F} → Extends o a b n n' → Extends o a b n (no_eval_sha_ro pool o n')
  no_eval_sha_ro-Extends p = record {
    requests = p.requests;
    logged = p.logged;
    enough = p.enough;
    few = p.few;
  }

  fall_back-Took :
      (r r' : Request F) (n : Net F)
      → Took n (fall_back pool o (no_eval_sha_ro pool o) r' (send pool o r n)).0
  unfolding fall_back
  fall_back-Took r r' n = elim (Result-cases (send pool o r n).1) [
    | inl (value, is) ↦ rw (is, fall_back) (one (send-Extends r n))
    | inr (e, is) ↦ elim (Bool-cases (is_unknown_command e)) [
      | inl unknown ↦
          rw (is, fall_back, unknown)
            (two
              (Extends-trans (no_eval_sha_ro-Extends (send-Extends r n))
                (send-Extends r' (no_eval_sha_ro pool o (send pool o r n).0)))
              (send_off r' (no_eval_sha_ro pool o (send pool o r n).0)))
      | inr other ↦ rw (is, fall_back, other) (one (send-Extends r n))
    ]
  ]

module _ {F : Fred} (v : Around F) (script : String) (keys : List Key) (args : List (Value F))
    (o : Options) (sha : String) where
  execute-eval_sha : (n : Net F) → Extends o 1 1 n (execute v.pool o (eval_sha sha keys args) n).0
  unfolding execute
  execute-eval_sha n = send-Extends v.pool o (evalsha sha keys args) n

  execute-Took :
      (read_only : Bool) (n : Net F)
      → Took v.pool o n (execute v.pool o (by_sha read_only sha keys args n) n).0
  unfolding execute
  execute-Took read_only n = elim (Bool-cases (read_only && n.eval_sha_ro_supported)) [
    | inl ro ↦
        let on : n.eval_sha_ro_supported ≡ true = ground arith in
        rw ro (
          simp on (
            fall_back-Took v.pool o (custom "EVALSHA_RO" first_key (script_args sha keys args))
              (evalsha sha keys args) n))
    | inr plain ↦ rw plain (one (send-Extends v.pool o (evalsha sha keys args) n))
  ]

  -- With the flag off, or for a script that writes, one request is enough.
  execute-single :
      (read_only : Bool) (n : Net F)
      → read_only && n.eval_sha_ro_supported ≡ false
      → Extends o 1 1 n (execute v.pool o (by_sha read_only sha keys args n) n).0
  unfolding execute
  execute-single read_only n plain = rw plain (send-Extends v.pool o (evalsha sha keys args) n)

  execute-Extends :
      (read_only : Bool) (n : Net F)
      → Extends o 1
          (if read_only && n.eval_sha_ro_supported then 2 else 1)
          n
          (execute v.pool o (by_sha read_only sha keys args n) n).0
  execute-Extends read_only n = elim (Bool-cases (read_only && n.eval_sha_ro_supported)) [
    | inl ro ↦ elim (execute-Took read_only n) [
      | one p ↦ Extends-weaken v.pool o (omega arith) (ground arith) p
      | two p off ↦ Extends-weaken v.pool o (omega arith) (ground arith) p
    ]
    | inr plain ↦
        Extends-weaken v.pool o (omega arith) (ground arith) (execute-single read_only n plain)
  ]

  reload-Extends :
      (read_only : Bool) (n : Net F)
      → Extends o 1
          (if read_only && n.eval_sha_ro_supported then 3 else 2)
          n
          (reload v read_only script keys args o sha n).0
  unfolding reload
  reload-Extends read_only n =
      let load = load_request script in
      let sent = send-Extends v.pool o load n in
      elim (Result-cases (send v.pool o load n).1) [
        | inl (value, is) ↦
            rw (is, reload)
              (Extends-weaken v.pool o (omega arith) (ground (arith, send_off v.pool o load n))
                (Extends-trans v.pool o sent (execute-Extends read_only (send v.pool o load n).0)))
        | inr (e, is) ↦ rw (is, reload) (Extends-weaken v.pool o (omega arith) (ground arith) sent)
      ]

  eval_reloaded :
      (read_only : Bool) (n : Net F)
      → let n' = (execute v.pool o (by_sha read_only sha keys args n) n).0 in
        Extends o 1 (if read_only then 4 else 3) n (reload v read_only script keys args o sha n').0
  eval_reloaded true n =
      let n' = (execute v.pool o (by_sha true sha keys args n) n).0 in
      elim (execute-Took true n) [
        | one p ↦
            Extends-weaken v.pool o (omega arith) (ground arith)
              (Extends-trans v.pool o p (reload-Extends true n'))
        | two p off ↦
            Extends-weaken v.pool o (omega arith) (ground arith)
              (Extends-trans v.pool o p (reload-Extends true n'))
      ]
  eval_reloaded false n =
      let n' = (execute v.pool o (by_sha false sha keys args n) n).0 in
      Extends-weaken v.pool o (omega arith) (omega arith)
        (Extends-trans v.pool o (execute-single false n refl) (reload-Extends false n'))

  eval_cached-Extends :
      (read_only : Bool) (n : Net F)
      → Extends o 1
          (if read_only then 4 else 3)
          n
          (eval_cached v read_only script keys args o sha n).0
  unfolding eval_cached
  eval_cached-Extends read_only n =
      let cmd = by_sha read_only sha keys args n in
      let n' = (execute v.pool o cmd n).0 in
      elim (Result-cases (execute v.pool o cmd n).1) [
        | inl (value, is) ↦
            rw (is, eval_cached)
              (Extends-weaken v.pool o (omega arith) (ground arith) (execute-Extends read_only n))
        | inr (e, is) ↦ elim (Bool-cases (says e "ERR unknown command")) [
          | inl unknown ↦
              rw (is, eval_cached, unknown)
                (Extends-weaken v.pool o (omega arith) (ground arith) (
                  Extends-trans v.pool o
                    (no_eval_sha_ro-Extends v.pool o (execute-Extends read_only n))
                    (execute-eval_sha (no_eval_sha_ro v.pool o n'))))
          | inr known ↦ elim (Bool-cases (says e "NOSCRIPT")) [
            | inl missing ↦ rw (is, eval_cached, known, missing) (eval_reloaded read_only n)
            | inr other ↦
                rw (is, eval_cached, known, other)
                  (Extends-weaken v.pool o (omega arith) (ground arith)
                    (execute-Extends read_only n))
          ]
        ]
      ]

-- Evaluating a script sends one to three requests, to four if it only reads, all to the primary of
-- its first key's slot, each tried once only if no retry is wanted. Without the script cache it is
-- one request, which the client routes.
pub eval_async-Extends :
    {F : Fred} (v : Around F) (read_only : Bool) (script : String) (keys : List Key)
    (args : List (Value F)) (i : CommandAsyncInner) (no_retry : Bool) (s : Process F v.lru)
    → Extends
        (if is_eval_cache_active i
          then pin (node_of v keys) (eval_options i no_retry)
          else eval_options i no_retry)
        1
        (if is_eval_cache_active i then (if read_only then 4 else 3) else 1)
        s.net
        (eval_async v read_only script keys args i no_retry s).0.net
unfolding eval_async execute
eval_async-Extends v read_only script keys args i no_retry s =
    elim (Bool-cases (is_eval_cache_active i)) [
      | inl active ↦ rw active (
          eval_cached-Extends v script keys args (pin (node_of v keys) (eval_options i no_retry))
            (calc_sha v.lru v.sha1_hash script s.statics).1 read_only s.net)
      | inr inactive ↦
          rw inactive
            (send-Extends v.pool (eval_options i no_retry) (Request.eval script keys args) s.net)
    ]
