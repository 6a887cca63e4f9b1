-- ===== src/Command/Async/Rounds/Race.antt =====
-- The loop of `synced_eval` (redisson-rs/src/command/command_async_service.rs) and the order of its
-- two tasks: the one that queues the script, and the one that executes the batch.
use redisson_rs.Base.{
  ℕ, suc, String, Bool, true, false, ◌&&◌, Bool-cases, inl, inr, Option, some, List, [], ok, err,
  if◌then◌else◌, ◌==◌, ◌≡◌, refl, ap, ◌∙◌,
}
use redisson_rs.Base.Int.{ℤ, pos, int_eq, is_positive}
use redisson_rs.Config.Client.{Server}
use redisson_rs.Connection.ServiceManager.{ScriptCache}
use redisson_rs.Command.Value.{Fred, Key, Value}
use redisson_rs.Command.BatchOptions.{sync, sync_aof}
use redisson_rs.Command.Batch.{BatchResult, Delivery, new}
use redisson_rs.Command.Batch.InMemory.{execute_in_memory}
use redisson_rs.Command.Batch.Service.{Closed, execute_async}
use redisson_rs.Command.Async.{CommandAsyncInner, Around, Process}
use redisson_rs.Command.Async.Rounds.{
  Beyond, Outcome, returned, waits_forever, none_synced, received, invalidated, finished, world,
  run_batch, conclude, attempt, turn, loop,
}
use redisson_rs.Command.Async.Rounds.Ends.{loop-finished}

module _ {F : Fred} (v : Around F) (b : Beyond F) (i : CommandAsyncInner)
    (queued_first : Bool → Bool) (script : String) (keys : List Key) (args : List (Value F))
    (cluster_node : Option Server) (use_aof : Bool) (available : ℤ) where
  abbrev nothing : BatchResult F
  nothing = record { responses = []; synced_slaves = pos 0 }

  overtaken_batch :
      (aof : Bool) (cache : ScriptCache)
      → let closed = run_batch v b i script keys args false aof available cache in
        (closed.result ≡ ok nothing) × (closed.sent ≡ []) × (closed.cache ≡ cache)
  unfolding execute_async execute_in_memory new sync sync_aof
  overtaken_batch true cache = (refl, refl, refl)
  overtaken_batch false cache = (refl, refl, refl)

  -- How the overtaken call ends.
  abbrev pub overtaken : Outcome F
  overtaken =
      if i.config.check_lock_synced_slaves && is_positive available
      then returned (err none_synced)
      else waits_forever

  -- What a round leaves when the batch succeeds.
  abbrev pub settled : BatchResult F → Process F v.lru → Process F v.lru
  settled r s = if r.synced_slaves == available then s else record s {
    statics = invalidated v b i queued_first script keys args cluster_node s.statics;
  }

  abbrev pub ending : (queued : Bool) → BatchResult F → List (Delivery F) → Outcome F
  ending queued r sent =
      if i.config.check_lock_synced_slaves && (r.synced_slaves == pos 0 && is_positive available)
      then returned (err none_synced)
      else received queued sent

  pub settled_net : (r : BatchResult F) (s : Process F v.lru) → (settled r s).net ≡ s.net
  settled_net r s = elim (Bool-cases (r.synced_slaves == available)) [
    | inl same ↦ simp same refl
    | inr other ↦ simp other refl
  ]

  conclude_ok :
      (loaded : Bool) (s : Process F v.lru) (sent : List (Delivery F)) (r : BatchResult F)
      → conclude v b i queued_first script keys args cluster_node available loaded s sent (ok r)
        ≡ finished (settled r s) (ending (queued_first loaded) r sent)
  unfolding conclude
  conclude_ok loaded s sent r =
      elim (Bool-cases (
        i.config.check_lock_synced_slaves && (r.synced_slaves == pos 0 && is_positive available))) [
          | inl unsynced ↦ simp unsynced refl
          | inr fine ↦ simp fine refl
        ]

  abbrev pub batch_of : Bool → Process F v.lru → Closed (world v b) b.link
  batch_of queued s =
      run_batch v b i script keys args queued use_aof available s.statics.script_shas

  abbrev pub with_cache : Bool → Process F v.lru → Process F v.lru
  with_cache queued s = record s {
    statics = record s.statics { script_shas = (batch_of queued s).cache };
  }

  -- A round whose batch succeeds.
  pub turn_ok :
      (s : Process F v.lru) (queued : Bool) (sent : List (Delivery F)) (r : BatchResult F)
      → queued_first false ≡ queued
      → (batch_of queued s).sent ≡ sent
      → (batch_of queued s).result ≡ ok r
      → turn v b i queued_first script keys args cluster_node use_aof available false s
        ≡ finished (settled r (with_cache queued s)) (ending queued r sent)
  unfolding turn attempt
  turn_ok s queued sent r order sends done =
      ap
        (λ q.
          conclude v b i queued_first script keys args cluster_node available false (with_cache q s)
            (batch_of q s).sent (batch_of q s).result)
        order
      ∙ ap
          (λ x.
            conclude v b i queued_first script keys args cluster_node available false
              (with_cache queued s) x (batch_of queued s).result)
          sends
      ∙ ap
          (λ x.
            conclude v b i queued_first script keys args cluster_node available false
              (with_cache queued s) sent x)
          done
      ∙ conclude_ok false (with_cache queued s) sent r
      ∙ ap (λ q. finished (settled r (with_cache queued s)) (ending q r sent)) order

  -- If the batch is executed before the script is in its queue, the call fails as if no slave had
  -- been reached, when that is checked and there are slaves, and otherwise waits for ever. It sends
  -- nothing besides the batch, which is empty.
  pub loop-overtaken :
      (s : Process F v.lru) (fuel : ℕ)
      → queued_first false ≡ false
      → (s' : Process F v.lru) × (loop v b i queued_first script keys args
            (suc fuel)
            cluster_node
            use_aof
            available
            false
            s
          ≡ some (s', overtaken))
        × (s'.net ≡ s.net)
  unfolding received
  loop-overtaken s fuel late =
      let (result, sent, cache) = overtaken_batch use_aof s.statics.script_shas in
      let s' = settled nothing (with_cache false s) in
      (
        s',
        loop-finished v b i queued_first script keys args cluster_node use_aof available false s
            fuel s' overtaken (turn_ok s false [] nothing late sent result),
        settled_net nothing (with_cache false s),
      )
