-- ===== src/Command/Batch/Responses.antt =====
-- What an in-memory batch without a transaction returns, and what its callers receive
-- (redisson-rs/src/command/command_batch_service.rs).
use mathlib.Core.List.{Permᴰ, append_assoc, append-nil, map-append}
use mathlib.Core.List.Permᴰ as Permᴰ
use redisson_rs.Base.{
  ℕ, suc, ◌≡◌, refl, sym, ◌∙◌, ap, false, Bool-cases, some, inl, inr, List, [], ◌∷◌, ◌++◌, map,
  is_empty, if◌then◌else◌, Result, ok, ok_inj, All,
}
use redisson_rs.Base.Int.{ℤ, pos, ◌+ℤ◌}
use redisson_rs.Config.{RedissonConfig}
use redisson_rs.Connection.{MasterSlaveEntry}
use redisson_rs.Command.Value.{Fred, Value}
use redisson_rs.Command.Execute.{Answer}
use redisson_rs.Command.BatchOptions.{BatchOptions}
use redisson_rs.Command.Batch.{BatchCommandData, Entry, BatchError, Delivery}
use redisson_rs.Command.Batch.Reply.{pop-snoc, zip, extract_synced_slaves, value_or_null}
use redisson_rs.Connection.ServiceManager.{ScriptCache}
use redisson_rs.Command.Batch.InMemory.{
  NodeMap, World, gather, load_scripts, use_replica, waits, requests, Done, settle, read_results,
  run_node, join, sort_by_key, run_nodes, execute_in_memory,
}
use redisson_rs.Command.Batch.Order.{
  flat_map, flat_map-Perm, sort_by_key-Perm, sort_by_key-IsAscending, IsAscending,
  IsAscending-IsDistinct,
}
use redisson_rs.Command.Batch.Tickets.{ticket, tickets, gather-tickets, load_nodes-tickets}

module _ {F : Fred} (w : World F) (cfg : RedissonConfig) (o : BatchOptions) where
  module _ (g : ℕ → Answer F) (a : MasterSlaveEntry → Answer F) where
    -- The pipeline of a node answered its commands as `g` does by their indices, and WAIT as `a` does.
    abbrev pub IsAnswered : MasterSlaveEntry × Entry F → Type 0
    IsAnswered (m, e) =
        w.pipeline m (use_replica w cfg false e) (requests w o false m e)
        ≡ map (λ (d : BatchCommandData F). g d.index) e.commands
          ++ (if waits w o then a m ∷ [] else [])

    abbrev pub synced : MasterSlaveEntry × Entry F → ℤ
    synced (m, e) = if waits w o then extract_synced_slaves (some (a m)) else pos 0

    abbrev pub total : NodeMap F → ℤ → ℤ
    total [] s = s
    total (n ∷ nodes) s = total nodes (s +ℤ synced n)

    abbrev pub delivered : ℕ × ℕ → Delivery F
    delivered t = (t.1, ok (value_or_null (g t.0)))

    abbrev pub indexed : ℕ × ℕ → ℕ × Value F
    indexed t = (t.0, value_or_null (g t.0))

    zip-map :
        {B : Type 0} (f : ℕ × Answer F → B) (k : BatchCommandData F → ℕ)
        (ds : List (BatchCommandData F))
        → map f (zip (map k ds) (map (λ (d : BatchCommandData F). g d.index) ds))
          ≡ map (λ (d : BatchCommandData F). f (k d, g d.index)) ds
    unfolding zip
    zip-map f k [] = refl
    zip-map f k (d ∷ ds) = ap (◌∷◌ (f (k d, g d.index))) (zip-map f k ds)

    map-tickets :
        {B : Type 0} (f : ℕ × ℕ → B) (ds : List (BatchCommandData F))
        → map (λ (d : BatchCommandData F). f (ticket d)) ds ≡ map f (map ticket ds)
    map-tickets f [] = refl
    map-tickets f (d ∷ ds) = ap (◌∷◌ (f (ticket d))) (map-tickets f ds)

    abbrev done_for : MasterSlaveEntry × Entry F → ℤ → Done w
    done_for n s = (map delivered (tickets n), ok (s, map indexed (tickets n)))

    module _ (all : o.skip_result ≡ false) where
      settle-done :
          (m : MasterSlaveEntry) (e : Entry F) (s : ℤ)
          → settle w o false e s (map (λ (d : BatchCommandData F). g d.index) e.commands)
            ≡ done_for (m, e) s
      unfolding settle
      settle-done m e s =
          rw
            (
              all,
              zip-map {B = Delivery F} (λ p. (p.0, ok (value_or_null p.1)))
                  (λ (d : BatchCommandData F). d.tx) e.commands,
              zip-map {B = ℕ × Value F} (λ p. (p.0, value_or_null p.1))
                  (λ (d : BatchCommandData F). d.index) e.commands,
              map-tickets delivered e.commands,
              map-tickets indexed e.commands,
            )
            refl

      read_results-done :
          (m : MasterSlaveEntry) (e : Entry F)
          → read_results w o false e (
              map (λ (d : BatchCommandData F). g d.index) e.commands
              ++ (if waits w o then a m ∷ [] else []))
            ≡ done_for (m, e) (synced (m, e))
      unfolding read_results
      read_results-done m e = elim (Bool-cases (waits w o)) [
        | inl waiting ↦
            rw (waiting, pop-snoc (map (λ (d : BatchCommandData F). g d.index) e.commands) (a m))
              (settle-done m e (extract_synced_slaves (some (a m))))
        | inr alone ↦
            rw (alone, append-nil (map (λ (d : BatchCommandData F). g d.index) e.commands))
              (settle-done m e (pos 0))
      ]

      run_node-done :
          (n : MasterSlaveEntry × Entry F)
          → IsAnswered n
          → run_node w cfg o false n ≡ done_for n (synced n)
      unfolding run_node
      run_node-done (m, e) answered = ap (read_results w o false e) answered ∙ read_results-done m e

      -- The tasks of answered nodes all succeed, and what they leave is put together.
      join-done :
          (nodes : NodeMap F) (s : ℤ) (idx : List (ℕ × Value F))
          → All IsAnswered nodes
          → join w (map (run_node w cfg o false) nodes) s idx ≡ (
            map delivered (flat_map tickets nodes),
            ok (total nodes s, idx ++ map indexed (flat_map tickets nodes)),
          )
      unfolding join
      join-done [] s idx answered = rw (append-nil idx) refl
      join-done ((m, e) ∷ nodes) s idx (first, rest) =
          rw
            (
              run_node-done (m, e) first,
              join-done nodes (s +ℤ synced (m, e)) (idx ++ map indexed (map ticket e.commands))
                  rest,
              map-append delivered (map ticket e.commands) (flat_map tickets nodes),
              map-append indexed (map ticket e.commands) (flat_map tickets nodes),
              append_assoc idx (map indexed (map ticket e.commands))
                  (map indexed (flat_map tickets nodes)),
            )
            refl

-- A `HashMap` and a `JoinSet` yield what they hold, each item once.
pub record IsFair {F : Fred} (w : World F) : Type 0 where
  pub nodes_kept : (nodes : NodeMap F) → Permᴰ (w.node_order nodes) nodes
  pub tasks_kept : (nodes : NodeMap F) → Permᴰ (w.finish_order nodes) nodes

module _ {F : Fred} (w : World F) (cfg : RedissonConfig) (o : BatchOptions) (g : ℕ → Answer F)
    (a : MasterSlaveEntry → Answer F) where
  indexed-IsAscending :
      (n : ℕ) (ts : List (ℕ × ℕ)) → IsAscending n ts → IsAscending n (map (indexed w cfg o g a) ts)
  indexed-IsAscending n [] up = tt
  indexed-IsAscending n (t ∷ ts) up = (up.0, indexed-IsAscending (suc t.0) ts up.1)

  load_scripts-tickets :
      (nodes loaded : NodeMap F) (cache cache' : ScriptCache)
      → load_scripts w cfg nodes cache ≡ ok (loaded, cache')
      → flat_map tickets loaded ≡ flat_map tickets nodes
  load_scripts-tickets nodes loaded cache cache' done = elim (Bool-cases cfg.use_script_cache) [
    | inl cached ↦ load_nodes-tickets w nodes loaded cache cache' (rw cached at done)
    | inr plain ↦
        let same : ◌≡◌ {A = Result (BatchError F) (NodeMap F × ScriptCache)} (ok (nodes, cache))
            (ok (loaded, cache')) =
          rw plain at done in
        rw⁻¹ (ap (λ (p : NodeMap F × ScriptCache). p.0) (ok_inj same)) refl
  ]

  module _ (fair : IsFair w) (retries : ℕ) (commands : List (BatchCommandData F))
      (nodes loaded : NodeMap F) (cache cache' : ScriptCache)
      (gathered : gather w retries commands [] ≡ ok nodes)
      (loads : load_scripts w cfg (w.node_order nodes) cache ≡ ok (loaded, cache')) where
    finish_order-tickets : Permᴰ (flat_map tickets (w.finish_order loaded)) (map ticket commands)
    finish_order-tickets = Permᴰ.trans (flat_map-Perm tickets (fair.tasks_kept loaded)) (
        rw (load_scripts-tickets (w.node_order nodes) loaded cache cache' loads) (
          Permᴰ.trans (flat_map-Perm tickets (fair.nodes_kept nodes)) (
            rw⁻¹ (append-nil (map ticket commands))
              (gather-tickets w retries commands [] nodes gathered))))

    values-indexed :
        (ds : List (BatchCommandData F))
        → map (λ (p : ℕ × Value F). p.1) (map (indexed w cfg o g a) (map ticket ds))
          ≡ map (λ (d : BatchCommandData F). value_or_null (g d.index)) ds
    values-indexed [] = refl
    values-indexed (d ∷ ds) = ap (◌∷◌ (value_or_null (g d.index))) (values-indexed ds)

    in_order :
        IsAscending 0 (map ticket commands)
        → map
            (λ (p : ℕ × Value F). p.1)
            (sort_by_key (map (indexed w cfg o g a) (flat_map tickets (w.finish_order loaded))))
          ≡ map (λ (d : BatchCommandData F). value_or_null (g d.index)) commands
    in_order up =
        let ascending = indexed-IsAscending 0 (map ticket commands) up in
        let sorted = map (indexed w cfg o g a) (map ticket commands) in
        ap (map (λ (p : ℕ × Value F). p.1)) (
          sym (
            sort_by_key-Perm (Permᴰ.map (indexed w cfg o g a) (Permᴰ.symm finish_order-tickets))
              (IsAscending-IsDistinct 0 sorted ascending))
          ∙ sort_by_key-IsAscending 0 sorted ascending)
        ∙ values-indexed commands

    -- An in-memory batch whose commands carry growing indices, without a transaction and without
    -- `skip_result`, whose commands all find a node, whose scripts load, and whose pipelines answer
    -- command number `i` with `g i`: it returns the values of `g` in the order in which the commands
    -- were queued, null for an error, whatever the order of the nodes and of the tasks; and each
    -- caller is sent the value for its own command, once.
    pub execute_in_memory-responses :
        is_empty commands ≡ false
        → o.skip_result ≡ false
        → IsAscending 0 (map ticket commands)
        → All (IsAnswered w cfg o g a) (w.finish_order loaded)
        → ((execute_in_memory w cfg o retries false commands cache).result
            ≡ ok (record {
              responses = map (λ (d : BatchCommandData F). value_or_null (g d.index)) commands;
              synced_slaves = total w cfg o g a (w.finish_order loaded) (pos 0);
            }))
          × Permᴰ
              (execute_in_memory w cfg o retries false commands cache).sent
              (map (λ (d : BatchCommandData F). (d.tx, ok (value_or_null (g d.index)))) commands)
    unfolding execute_in_memory run_nodes
    execute_in_memory-responses some_command all up answered =
        rw
          (
            some_command,
            gathered,
            loads,
            join-done w cfg o g a all (w.finish_order loaded) (pos 0) [] answered,
          )
          (
            ap
                (λ vs. ok (record {
                  responses = vs;
                  synced_slaves = total w cfg o g a (w.finish_order loaded) (pos 0);
                }))
                (in_order up),
            rw (map-tickets w cfg o g a (delivered w cfg o g a) commands)
                (Permᴰ.map (delivered w cfg o g a) finish_order-tickets),
          )
