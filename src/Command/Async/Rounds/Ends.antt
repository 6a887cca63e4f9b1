-- ===== src/Command/Async/Rounds/Ends.antt =====
-- The loop of `synced_eval` (redisson-rs/src/command/command_async_service.rs) when its script is
-- queued before the batch is executed.
use mathlib.Core.Bool.{false≢true}
use redisson_rs.Base.{
  ℕ, suc, String, Bool, true, false, ◌&&◌, Bool-cases, inl, inr, Option, some, List, ok, err,
  Result, Result-cases, ◌==◌, nat_eq, [], ◌∷◌, not, ap, sym, ◌≡◌, refl, ◌∙◌,
}
use redisson_rs.Base.Int.{ℤ, pos, int_eq, is_positive}
use redisson_rs.Config.Client.{Server}
use redisson_rs.Command.Value.{Fred, Key, Value, script_load_cluster}
use redisson_rs.Command.Execute.{send}
use redisson_rs.Command.Batch.{BatchError, BatchResult, Delivery}
use redisson_rs.Command.Async.{CommandAsyncInner, Around, Process}
use redisson_rs.Command.Async.Rounds.{
  AsyncError, failed, channel_closed, returned, waits_forever, received, Beyond, Outcome, Turn,
  again, finished, conclude, attempt, unpinned, turn, loop,
}

received-returned :
    {F : Fred} (sent : List (Delivery F))
    → (r : Result (AsyncError F) (Value F)) × (received true sent ≡ returned r)
unfolding received
received-returned [] = (err channel_closed, refl)
received-returned ((tx, ok value) ∷ sent) = elim (Bool-cases (tx == 0)) [
  | inl own ↦ rw own (ok value, refl)
  | inr other ↦ rw other (received-returned sent)
]
received-returned ((tx, err e) ∷ sent) = elim (Bool-cases (tx == 0)) [
  | inl own ↦ rw own (err (failed e), refl)
  | inr other ↦ rw other (received-returned sent)
]

module _ {F : Fred} (v : Around F) (b : Beyond F) (i : CommandAsyncInner)
    (queued_first : Bool → Bool) (script : String) (keys : List Key) (args : List (Value F)) where
  abbrev IsAhead : Type 0
  IsAhead = (loaded : Bool) → queued_first loaded ≡ true

  abbrev TurnOf : Type 0
  TurnOf = Turn v b i queued_first script keys args

  abbrev is_finished : TurnOf → Bool
  is_finished (again s) = false
  is_finished (finished s out) = true

  abbrev has_returned : Outcome F → Bool
  has_returned (returned r) = true
  has_returned waits_forever = false

  abbrev returns : TurnOf → Bool
  returns (again s) = true
  returns (finished s out) = has_returned out

  Turn-cases :
      (t : TurnOf)
      → is_finished t ≡ true
      → returns t ≡ true
      → (s : Process F v.lru) × (r : Result (AsyncError F) (Value F)) × (t
          ≡ finished s (returned r))
  Turn-cases (again s) h h' = absurd (false≢true h)
  Turn-cases (finished s (returned r)) h h' = (s, r, refl)
  Turn-cases (finished s waits_forever) h h' = absurd (false≢true h')

  module _ (cluster_node : Option Server) (use_aof : Bool) (available : ℤ) where
    conclude-is_finished :
        (s : Process F v.lru) (sent : List (Delivery F)) (r : Result (BatchError F) (BatchResult F))
        → is_finished
            (conclude v b i queued_first script keys args cluster_node available true s sent r)
          ≡ true
    unfolding conclude
    conclude-is_finished s sent (err e) = refl
    conclude-is_finished s sent (ok r) =
        elim (Bool-cases (
          i.config.check_lock_synced_slaves
          && (r.synced_slaves == pos 0 && is_positive available))) [
            | inl unsynced ↦ rw unsynced refl
            | inr fine ↦ rw fine refl
          ]

    conclude-returns :
        IsAhead
        → (loaded : Bool) (s : Process F v.lru) (sent : List (Delivery F))
          (r : Result (BatchError F) (BatchResult F))
        → returns
            (conclude v b i queued_first script keys args cluster_node available loaded s sent r)
          ≡ true
    unfolding conclude
    conclude-returns ahead loaded s sent (err e) =
        elim (Bool-cases (not loaded && b.is_noscript e)) [
          | inl retried ↦ rw retried refl
          | inr given_up ↦ rw given_up refl
        ]
    conclude-returns ahead loaded s sent (ok r) =
        elim (Bool-cases (
          i.config.check_lock_synced_slaves
          && (r.synced_slaves == pos 0 && is_positive available))) [
            | inl unsynced ↦ rw unsynced refl
            | inr fine ↦
                let (message, is) = received-returned sent in rw (fine, ahead loaded, is) refl
          ]

    turn-returns :
        IsAhead
        → (loaded : Bool) (s : Process F v.lru)
        → returns (turn v b i queued_first script keys args cluster_node use_aof available loaded s)
          ≡ true
    unfolding turn attempt
    turn-returns ahead false s = conclude-returns ahead false _ _ _
    turn-returns ahead true s =
        let n = send v.pool unpinned (script_load_cluster script) s.net in
        elim (Result-cases n.1) [
          | inl (value, is) ↦ rw (is, turn) (conclude-returns ahead true _ _ _)
          | inr (e, is) ↦ rw (is, turn) refl
        ]

    turn-is_finished :
        (s : Process F v.lru)
        → is_finished
            (turn v b i queued_first script keys args cluster_node use_aof available true s)
          ≡ true
    unfolding turn attempt
    turn-is_finished s =
        let n = send v.pool unpinned (script_load_cluster script) s.net in
        elim (Result-cases n.1) [
          | inl (value, is) ↦ rw (is, turn) (conclude-is_finished _ _ _)
          | inr (e, is) ↦ rw (is, turn) refl
        ]

    module _ (loaded : Bool) (s : Process F v.lru) (fuel : ℕ) where
      pub loop-finished :
          (s' : Process F v.lru) (out : Outcome F)
          → turn v b i queued_first script keys args cluster_node use_aof available loaded s
            ≡ finished s' out
          → loop v b i queued_first script keys args
              (suc fuel)
              cluster_node
              use_aof
              available
              loaded
              s
            ≡ some (s', out)
      unfolding loop
      loop-finished s' out is = rw (is, loop) refl

      loop-again :
          (s' : Process F v.lru)
          → turn v b i queued_first script keys args cluster_node use_aof available loaded s
            ≡ again s'
          → loop v b i queued_first script keys args
              (suc fuel)
              cluster_node
              use_aof
              available
              loaded
              s
            ≡ loop v b i queued_first script keys args fuel cluster_node use_aof available true s'
      unfolding loop
      loop-again s' is = rw (is, loop) refl

    abbrev Ends : (least : ℕ → ℕ) (loaded : Bool) → Process F v.lru → Type 0
    Ends least loaded s =
        (end : Process F v.lru × Result (AsyncError F) (Value F)) × ((fuel : ℕ)
          → loop v b i queued_first script keys args (least fuel) cluster_node use_aof available
              loaded s
            ≡ some (end.0, returned end.1))

    -- The second round is the last.
    second_round : IsAhead → (s : Process F v.lru) → Ends suc true s
    second_round ahead s =
        let (s', r, is) = Turn-cases _ (turn-is_finished s) (turn-returns ahead true s) in
        ((s', r), λ fuel. loop-finished true s fuel s' (returned r) is)

    rounds :
        IsAhead
        → (s : Process F v.lru) (t : TurnOf)
        → turn v b i queued_first script keys args cluster_node use_aof available false s ≡ t
        → Ends (λ fuel. suc (suc fuel)) false s
    rounds ahead s (again s') is =
        let (end, ends) = second_round ahead s' in
        (end, λ fuel. loop-again false s (suc fuel) s' is ∙ ends fuel)
    rounds ahead s (finished s' (returned r)) is =
        ((s', r), λ fuel. loop-finished false s (suc fuel) s' (returned r) is)
    rounds ahead s (finished s' waits_forever) is =
        absurd (false≢true (ap returns (sym is) ∙ turn-returns ahead false s))

    -- When the script is queued before the batch is executed in each round, two rounds of the loop
    -- are enough, for any state and servers: it returns, and the same however many more are allowed.
    pub loop_ends :
        IsAhead
        → (s : Process F v.lru)
        → (end : Process F v.lru × Result (AsyncError F) (Value F)) × ((fuel : ℕ)
            → loop v b i queued_first script keys args
                (suc (suc fuel))
                cluster_node
                use_aof
                available
                false
                s
              ≡ some (end.0, returned end.1))
    loop_ends ahead s = rounds ahead s _ refl
