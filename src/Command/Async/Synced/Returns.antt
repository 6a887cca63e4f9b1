-- ===== src/Command/Async/Synced/Returns.antt =====
-- `synced_eval` of redisson-rs/src/command/command_async_service.rs when its script is queued before
-- the batch is executed: it returns.
use redisson_rs.Base.{
  ℕ, suc, String, Bool, true, not, ◌&&◌, ◌||◌, Bool-cases, inl, inr, Option, some, List, ok, err,
  Result, ◌==◌, ◌≡◌, refl, ap,
}
use redisson_rs.Base.Int.{pos, int_eq}
use redisson_rs.Config.Client.{Server}
use redisson_rs.Command.Value.{Fred, Key, Value, Options, FredError}
use redisson_rs.Command.Async.{
  WaitSupport, CommandAsyncInner, build_options, pin, Around, Process, node_of, eval_write_fallback,
}
use redisson_rs.Command.Execute.{Answer}
use redisson_rs.Command.Async.Probe.{ReplicationInfo}
use redisson_rs.Command.Async.Rounds.{AsyncError, returned, Beyond, Outcome}
use redisson_rs.Command.Async.Rounds.Ends.{loop_ends}
use redisson_rs.Command.Async.Synced.{
  SyncMode, outcome_of, fallback, skips, is_single, supports, replication, uses_aof,
  available_slaves, with_info, with_support, synced_eval,
}

module _ {F : Fred} (v : Around F) (b : Beyond F) (i : CommandAsyncInner)
    (queued_first : Bool → Bool) (script : String) (keys : List Key) (args : List (Value F))
    (mode : SyncMode) (retry : Bool) (ahead : (loaded : Bool) → queued_first loaded ≡ true) where
  abbrev Ending : Type 0
  Ending = Option (Process F v.lru × Outcome F)

  -- With fuel for two rounds or more it returns, and the same.
  abbrev Settles : (ℕ → Ending) → Type 0
  Settles run =
      (end : Process F v.lru × Result (AsyncError F) (Value F)) × ((fuel : ℕ)
        → run (suc (suc fuel)) ≡ some (end.0, returned end.1))

  outcome_of-returned :
      (r : Answer F)
      → (r' : Result (AsyncError F) (Value F)) × (outcome_of v b i queued_first script keys args r
          ≡ returned r')
  outcome_of-returned (ok value) = (_, refl)
  outcome_of-returned (err e) = (_, refl)

  fallback-Settles :
      (s : Process F v.lru) → Settles (λ fuel. fallback v b i queued_first script keys args retry s)
  fallback-Settles s =
      let (s', r) = eval_write_fallback v i script keys args retry s in
      let (r', is) = outcome_of-returned r in ((s', r'), λ fuel. ap (λ out. some (s', out)) is)

  with_info-Settles :
      (cluster_node : Option Server) (support : WaitSupport)
      (r : Process F v.lru × Result FredError ReplicationInfo)
      → Settles (λ fuel.
        with_info v b i queued_first script keys args mode retry fuel cluster_node support r)
  unfolding with_info
  with_info-Settles cluster_node support (s, err e) = (_, λ fuel. refl)
  with_info-Settles cluster_node support (s, ok info) =
      elim (Bool-cases (
        available_slaves v b i queued_first script keys args mode retry support info == pos 0
        && not (uses_aof v b i queued_first script keys args mode retry support info))) [
          | inl none_to_wait_for ↦ rw none_to_wait_for (fallback-Settles s)
          | inr waiting ↦ rw waiting (
              loop_ends v b i queued_first script keys args cluster_node
                (uses_aof v b i queued_first script keys args mode retry support info)
                (available_slaves v b i queued_first script keys args mode retry support info) ahead
                s)
        ]

  with_support-Settles :
      (cluster_node : Option Server) (o : Options)
      (r : Process F v.lru × Result FredError WaitSupport)
      → Settles (λ fuel.
        with_support v b i queued_first script keys args mode retry fuel cluster_node o r)
  unfolding with_support
  with_support-Settles cluster_node o (s, err e) = (_, λ fuel. refl)
  with_support-Settles cluster_node o (s, ok support) = elim (Bool-cases (skips mode support)) [
    | inl skipped ↦ rw skipped (fallback-Settles s)
    | inr wanted ↦ rw wanted (
        with_info-Settles cluster_node support
          (replication v b i queued_first script keys args cluster_node o s))
  ]

  -- When the script is queued before the batch is executed in each round, a synchronised evaluation
  -- returns a value or an error after two rounds at most, from any state and whatever the servers
  -- answer, and more fuel changes nothing.
  pub synced_eval_ends :
      (s : Process F v.lru)
      → (end : Process F v.lru × Result (AsyncError F) (Value F)) × ((fuel : ℕ)
          → synced_eval v b i queued_first script keys args mode retry (suc (suc fuel)) s
            ≡ some (end.0, returned end.1))
  unfolding synced_eval
  synced_eval_ends s = elim (Bool-cases (is_single i.config.mode || i.is_batch)) [
    | inl single ↦ rw single (fallback-Settles s)
    | inr many ↦ rw many (
        with_support-Settles (node_of v keys) (pin (node_of v keys) (build_options i))
          (supports v b i queued_first script keys args (pin (node_of v keys) (build_options i)) s))
  ]
