-- ===== src/Command/Batch/Tickets.antt =====
-- The commands of a batch on their way to the nodes
-- (redisson-rs/src/command/command_batch_service.rs): none is lost and none is added.
use mathlib.Core.List.{Permᴰ, append_assoc}
use mathlib.Core.List.Permᴰ as Permᴰ
use redisson_rs.Base.{
  ℕ, ◌≡◌, refl, ap, Bool-cases, inl, inr, List, [], ◌∷◌, ◌++◌, map, ok, ok_inj, bind_ok,
}
use redisson_rs.Connection.{MasterSlaveEntry, same_node}
use redisson_rs.Command.Value.{Fred}
use redisson_rs.Command.Batch.{BatchCommandData, Entry, unwrap_or}
use redisson_rs.Connection.ServiceManager.{ScriptCache}
use redisson_rs.Command.Batch.InMemory.{
  NodeMap, World, resolve_from, slot_of, push_command, gather, to_load, load_all, use_sha,
  load_nodes,
}
use redisson_rs.Command.Batch.Order.{flat_map}

-- A command's channel, under its index.
abbrev pub ticket : {F : Fred} → BatchCommandData F → ℕ × ℕ
ticket d = (d.index, d.tx)

abbrev pub tickets : {F : Fred} → MasterSlaveEntry × Entry F → List (ℕ × ℕ)
tickets (m, e) = map ticket e.commands

module _ {F : Fred} (w : World F) where
  map-snoc :
      (xs : List (BatchCommandData F)) (d : BatchCommandData F)
      → map ticket (xs ++ (d ∷ [])) ≡ map ticket xs ++ (ticket d ∷ [])
  map-snoc [] d = refl
  map-snoc (x ∷ xs) d = ap (◌∷◌ (ticket x)) (map-snoc xs d)

  push_command-tickets :
      (mse : MasterSlaveEntry) (d : BatchCommandData F) (nodes : NodeMap F)
      → Permᴰ (flat_map tickets (push_command w mse d nodes)) (ticket d ∷ flat_map tickets nodes)
  unfolding push_command
  push_command-tickets mse d [] = Permᴰ.refl _
  push_command-tickets mse d ((m, e) ∷ nodes) = elim (Bool-cases (same_node m mse)) [
    | inl same ↦
        rw
          (
            same,
            map-snoc e.commands d,
            append_assoc (map ticket e.commands) (ticket d ∷ []) (flat_map tickets nodes),
          )
          (Permᴰ.middle (ticket d) (map ticket e.commands) (flat_map tickets nodes))
    | inr other ↦ rw other (
        Permᴰ.trans (Permᴰ.append_left (map ticket e.commands) (push_command-tickets mse d nodes))
          (Permᴰ.middle (ticket d) (map ticket e.commands) (flat_map tickets nodes)))
  ]

  -- The nodes' commands are the queued ones, in some order.
  pub gather-tickets :
      (retries : ℕ) (ds : List (BatchCommandData F)) (nodes nodes' : NodeMap F)
      → gather w retries ds nodes ≡ ok nodes'
      → Permᴰ (flat_map tickets nodes') (map ticket ds ++ flat_map tickets nodes)
  unfolding gather
  gather-tickets retries [] nodes nodes' done = rw (ok_inj done) (Permᴰ.refl _)
  gather-tickets retries (d ∷ ds) nodes nodes' done =
      let (mse, is, rest) = bind_ok (resolve_from w d.index (slot_of w d.cmd) 0 retries) _ done in
      Permᴰ.trans (gather-tickets retries ds (push_command w mse d nodes) nodes' rest) (
        Permᴰ.trans (Permᴰ.append_left (map ticket ds) (push_command-tickets mse d nodes))
          (Permᴰ.middle (ticket d) (map ticket ds) (flat_map tickets nodes)))

  map-use_sha : (ds : List (BatchCommandData F)) → map ticket (map (use_sha w) ds) ≡ map ticket ds
  map-use_sha [] = refl
  map-use_sha (d ∷ ds) = ap (◌∷◌ (ticket d)) (map-use_sha ds)

  pub load_nodes-tickets :
      (nodes loaded : NodeMap F) (cache cache' : ScriptCache)
      → load_nodes w nodes cache ≡ ok (loaded, cache')
      → flat_map tickets loaded ≡ flat_map tickets nodes
  unfolding load_nodes
  load_nodes-tickets [] loaded cache cache' done =
      rw⁻¹ (ap (λ (p : NodeMap F × ScriptCache). p.0) (ok_inj done)) refl
  load_nodes-tickets ((m, e) ∷ nodes) loaded cache cache' done =
      let loads = to_load w cache m.primary e.commands [] in
      let (u, answered, next) = bind_ok (load_all w (unwrap_or m.slot 0) loads) _ done in
      let ((rest, later), is, last) =
        bind_ok
          (load_nodes w nodes (cache ++ map (λ script. (m.primary, w.sha1_hash script)) loads)) _
          next in
      rw⁻¹ (ap (λ (p : NodeMap F × ScriptCache). p.0) (ok_inj last))
        (rw (map-use_sha e.commands, load_nodes-tickets nodes rest _ later is) refl)
