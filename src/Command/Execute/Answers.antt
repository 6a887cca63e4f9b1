-- ===== src/Command/Execute/Answers.antt =====
-- What `RedisCommand::execute` (redisson-rs/src/client/protocol/redis_command.rs) sends, and what it
-- returns.
use redisson_rs.Base.{
  Option, none, some, Bool, ◌≡◌, ◌∙◌, ap, refl, true, false, Bool-cases, inl, inr, [], ◌∷◌, ok, err,
  Result-cases, arith,
}
use redisson_rs.Command.Value.{
  Fred, text, Request, eval, evalsha, custom, first_key, script_args, Options, FredError,
}
use redisson_rs.Command.RedisCommand.{RedisCommand, execute_on, eval_sha_ro, sort_ro}
use redisson_rs.Command.Execute.{Answer, Pool, Net, is_unknown_command, send, fall_back, execute}

-- The scripts' requests in the form that a pipeline needs; the others are the same there.
abbrev pub in_pipeline : {F : Fred} → Request F → Request F
in_pipeline (eval script keys args) = custom "EVAL" first_key (script_args script keys args)
in_pipeline (evalsha sha keys args) = custom "EVALSHA" first_key (script_args sha keys args)
in_pipeline r = r

-- The read-only form of a command that has one.
abbrev pub read_only_form : {F : Fred} → RedisCommand F → Option (Request F)
read_only_form (eval_sha_ro sha keys args) =
    some (custom "EVALSHA_RO" first_key (script_args sha keys args))
read_only_form (sort_ro key) = some (custom "SORT_RO" first_key (text key ∷ []))
read_only_form _ = none

-- Whether the servers are thought to have it.
abbrev pub supported : {F : Fred} → RedisCommand F → Net F → Bool
supported (eval_sha_ro sha keys args) n = n.eval_sha_ro_supported
supported (sort_ro key) n = n.sort_ro_supported
supported _ n = false

-- The flag of the command's own form, off.
abbrev pub downgraded : {F : Fred} → RedisCommand F → Net F → Net F
downgraded (eval_sha_ro sha keys args) n = record n { eval_sha_ro_supported = false }
downgraded (sort_ro key) n = record n { sort_ro_supported = false }
downgraded _ n = n

-- How a command came to its result.
pub data Served {F : Fred} (pool : Pool F) (o : Options) (cmd : RedisCommand F) (n : Net F)
    (out : Net F × Answer F) : Type 0 where
  -- by the request that a pipeline would make
  plain :
      (r : Request F)
      → supported cmd n ≡ false
      → in_pipeline r ≡ execute_on cmd
      → out ≡ send pool o r n
      → Served pool o cmd n out
  -- by its read-only form, which the server knows
  known :
      (r : Request F)
      → read_only_form cmd ≡ some r
      → supported cmd n ≡ true
      → out ≡ send pool o r n
      → ((e : FredError) → out.1 ≡ err e → is_unknown_command e ≡ false)
      → Served pool o cmd n out
  -- by its read-only form, refused as unknown, and then as a pipeline would, with its flag off
  fell_back :
      (r r' : Request F) (e : FredError)
      → read_only_form cmd ≡ some r
      → supported cmd n ≡ true
      → (send pool o r n).1 ≡ err e
      → is_unknown_command e ≡ true
      → in_pipeline r' ≡ execute_on cmd
      → out ≡ send pool o r' (downgraded cmd (send pool o r n).0)
      → Served pool o cmd n out

module _ {F : Fred} (pool : Pool F) (o : Options) where
  -- With both flags off every command is one request, the one that a pipeline would get for it.
  pub execute-execute_on :
      (cmd : RedisCommand F) (n : Net F)
      → n.sort_ro_supported ≡ false
      → n.eval_sha_ro_supported ≡ false
      → (r : Request F) × (in_pipeline r ≡ execute_on cmd)
        × (execute pool o cmd n ≡ send pool o r n)
  unfolding execute execute_on
  execute-execute_on (eval_sha_ro sha keys args) n s e = (evalsha sha keys args, refl, rw e)
  execute-execute_on (sort_ro key) n s e = (custom "SORT" first_key (text key ∷ []), refl, rw s)
  execute-execute_on _ n s e = (_, refl, refl)

  err_inj : {e e' : FredError} → ◌≡◌ {A = Answer F} (err e) (err e') → e' ≡ e
  err_inj same = ground arith

  module _ (cmd : RedisCommand F) (n : Net F) (r r' : Request F) where
    fall_back-Served :
        read_only_form cmd ≡ some r
        → supported cmd n ≡ true
        → in_pipeline r' ≡ execute_on cmd
        → Served pool o cmd n (fall_back pool o (downgraded cmd) r' (send pool o r n))
    unfolding fall_back send
    fall_back-Served form on same = elim (Result-cases (send pool o r n).1) [
      | inl (v, is) ↦ known r form on (rw is) (λ e failed.
          let other : ◌≡◌ {A = Answer F} (ok v) (err e) = rw is at failed in absurd (ground arith))
      | inr (e, is) ↦ elim (Bool-cases (is_unknown_command e)) [
        | inl unknown ↦ fell_back r r' e form on is unknown same (rw (is, unknown))
        | inr fine ↦ known r form on (rw (is, fine)) (λ e' failed.
            let same : ◌≡◌ {A = Answer F} (err e) (err e') = rw (is, fine) at failed in
            ap is_unknown_command (err_inj same) ∙ fine)
      ]
    ]

  -- A command with no read-only form, or whose form is flagged as not supported, is one request, the
  -- one that a pipeline would make. Any other is sent in its read-only form; when the server refuses
  -- that as unknown, the flag of that form alone is turned off and the request that a pipeline would
  -- make is sent. The result is the answer to the last request.
  pub execute-Served :
      (cmd : RedisCommand F) (n : Net F) → Served pool o cmd n (execute pool o cmd n)
  unfolding execute execute_on
  execute-Served (eval_sha_ro sha keys args) n = elim (Bool-cases n.eval_sha_ro_supported) [
    | inl e ↦
        simp e
          (fall_back-Served (eval_sha_ro sha keys args) n _ (evalsha sha keys args) refl e refl)
    | inr e ↦ simp e (plain (evalsha sha keys args) e refl refl)
  ]
  execute-Served (sort_ro key) n = elim (Bool-cases n.sort_ro_supported) [
    | inl e ↦
        simp e
          (fall_back-Served (sort_ro key) n _ (custom "SORT" first_key (text key ∷ [])) refl e refl)
    | inr e ↦ simp e (plain (custom "SORT" first_key (text key ∷ [])) e refl refl)
  ]
  execute-Served _ n = plain _ refl refl refl
