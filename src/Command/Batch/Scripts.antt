-- ===== src/Command/Batch/Scripts.antt =====
-- `load_scripts` of redisson-rs/src/command/command_batch_service.rs: no script is sent by its hash to
-- a node that has not loaded it.
use mathlib.Core.List.{append_assoc, append-nil}
use redisson_rs.Base.{
  ◌≡◌, refl, sym, ◌∙◌, ap, subst, String, Bool, true, ◌||◌, Bool-cases, inl, inr, List, [], ◌∷◌,
  ◌++◌, map, any, ◌==◌, ==-refl, nat_eq, string_eq, arith, ok, ok_inj, bind_ok, All,
}
use redisson_rs.Config.Client.{Server}
use redisson_rs.Connection.{MasterSlaveEntry}
use redisson_rs.Command.Value.{Fred}
use redisson_rs.Command.RedisCommand.{RedisCommand, eval}
use redisson_rs.Command.Batch.{BatchCommandData, Entry, unwrap_or}
use redisson_rs.Connection.ServiceManager.Shas.{contains_sha-append}
use redisson_rs.Connection.ServiceManager.{ScriptCache, contains_sha}
use redisson_rs.Command.Batch.InMemory.{
  NodeMap, World, add_load, to_load, load_all, use_sha, load_nodes,
}

any-append :
    {A : Type 0} (f : A → Bool) (xs ys : List A) → any f (xs ++ ys) ≡ (any f xs || any f ys)
any-append f [] ys = refl
any-append f (x ∷ xs) ys = ground (arith, any-append f xs ys)

abbrev has : String → List String → Bool
has script loads = any (λ s. s == script) loads

module _ {F : Fred} (w : World F) where
  -- What `load_scripts` adds for a node.
  abbrev learned : Server → List String → ScriptCache
  learned server loads = map (λ script. (server, w.sha1_hash script)) loads

  -- A command's script, if it is a whole script, is known to the node.
  abbrev pub IsKnown : ScriptCache → Server → RedisCommand F → Type 0
  IsKnown cache server (eval script keys args) =
      contains_sha cache server (w.sha1_hash script) ≡ true
  IsKnown cache server _ = Unit

  add_load-has :
      (cache : ScriptCache) (server : Server) (cmd : RedisCommand F) (loads : List String)
      (script : String)
      → has script loads ≡ true
      → has script (add_load w cache server cmd loads) ≡ true
  unfolding add_load
  add_load-has cache server (eval s keys args) loads script there =
      ground (arith, any-append (λ x. x == script) loads (s ∷ []))
  add_load-has cache server _ loads script there = there

  to_load-has :
      (cache : ScriptCache) (server : Server) (ds : List (BatchCommandData F)) (loads : List String)
      (script : String)
      → has script loads ≡ true
      → has script (to_load w cache server ds loads) ≡ true
  unfolding to_load
  to_load-has cache server [] loads script there = there
  to_load-has cache server (d ∷ ds) loads script there =
      to_load-has cache server ds (add_load w cache server d.cmd loads) script
        (add_load-has cache server d.cmd loads script there)

  -- A script that is in the list of loads is known once they are added.
  learned-known :
      (server : Server) (script : String) (loads : List String)
      → has script loads ≡ true
      → contains_sha (learned server loads) server (w.sha1_hash script) ≡ true
  learned-known server script [] there = absurd (ground arith)
  learned-known server script (s ∷ loads) there = elim (Bool-cases (s == script)) [
    | inl same ↦
        let hash : (w.sha1_hash s == w.sha1_hash script) ≡ true =
          (string_eq.beq_iff (w.sha1_hash s) (w.sha1_hash script)).1
            (ap w.sha1_hash ((string_eq.beq_iff s script).0 same)) in
        ground (arith, ==-refl server.host, ==-refl server.port, hash)
    | inr other ↦ ground (arith, learned-known server script loads (ground arith))
  ]

  add_load-IsKnown :
      (cache : ScriptCache) (server : Server) (cmd : RedisCommand F) (loads later : List String)
      → ((script : String)
          → has script (add_load w cache server cmd loads) ≡ true
          → has script later ≡ true)
      → IsKnown (cache ++ learned server later) server cmd
  unfolding add_load
  add_load-IsKnown cache server (eval s keys args) loads later more =
      rw (contains_sha-append cache (learned server later) server (w.sha1_hash s))
        (elim (Bool-cases (contains_sha cache server (w.sha1_hash s))) [
          | inl known ↦ ground (arith, known)
          | inr unknown ↦
              let listed : has s (add_load w cache server (eval s keys args) loads) ≡ true =
                ground (arith, unknown, any-append (λ x. x == s) loads (s ∷ []), ==-refl s) in
              ground (arith, learned-known server s later (more s listed))
        ])
  add_load-IsKnown cache server _ loads later more = tt

  to_load-IsKnown :
      (cache : ScriptCache) (server : Server) (ds : List (BatchCommandData F)) (loads : List String)
      → All
          (λ (d : BatchCommandData F).
            IsKnown (cache ++ learned server (to_load w cache server ds loads)) server d.cmd)
          ds
  unfolding to_load
  to_load-IsKnown cache server [] loads = tt
  to_load-IsKnown cache server (d ∷ ds) loads = (
    add_load-IsKnown cache server d.cmd loads _
        (λ script. to_load-has cache server ds (add_load w cache server d.cmd loads) script),
    to_load-IsKnown cache server ds (add_load w cache server d.cmd loads),
  )

  IsKnown-append :
      (cache more : ScriptCache) (server : Server) (cmd : RedisCommand F)
      → IsKnown cache server cmd
      → IsKnown (cache ++ more) server cmd
  IsKnown-append cache more server (eval s keys args) known =
      rw (contains_sha-append cache more server (w.sha1_hash s)) (ground arith)
  IsKnown-append cache more server _ known = tt

  AllKnown-append :
      (cache more : ScriptCache) (server : Server) (ds : List (BatchCommandData F))
      → All (λ (d : BatchCommandData F). IsKnown cache server d.cmd) ds
      → All (λ (d : BatchCommandData F). IsKnown (cache ++ more) server d.cmd) ds
  AllKnown-append cache more server [] known = tt
  AllKnown-append cache more server (d ∷ ds) known =
      (IsKnown-append cache more server d.cmd known.0, AllKnown-append cache more server ds known.1)

  -- Every script of a node's commands is known to the node.
  abbrev pub AllKnown : ScriptCache → MasterSlaveEntry × Entry F → Type 0
  AllKnown cache (m, e) = All (λ (d : BatchCommandData F). IsKnown cache m.primary d.cmd) e.commands

  -- The commands as they are sent: the same, each whole script by its hash.
  abbrev pub by_hash : MasterSlaveEntry × Entry F → MasterSlaveEntry × Entry F
  by_hash (m, e) = (m, record e { commands = map (use_sha w) e.commands })

  -- When `load_scripts` succeeds with the script cache in use, every command that was a whole script
  -- is sent by its hash, the others are unchanged, and each of those hashes is in the cache for the
  -- node that it goes to.
  pub load_nodes-AllKnown :
      (nodes loaded : NodeMap F) (cache cache' : ScriptCache)
      → load_nodes w nodes cache ≡ ok (loaded, cache')
      → (loaded ≡ map by_hash nodes)
        × All (AllKnown cache') nodes
        × ((more : ScriptCache) × (cache' ≡ cache ++ more))
  unfolding load_nodes
  load_nodes-AllKnown [] loaded cache cache' done =
      let same = ok_inj done in
      (
        sym (ap (λ (p : NodeMap F × ScriptCache). p.0) same),
        tt,
        ([], sym (ap (λ (p : NodeMap F × ScriptCache). p.1) same) ∙ sym (append-nil cache)),
      )
  load_nodes-AllKnown ((m, e) ∷ nodes) loaded cache cache' done =
      let loads = to_load w cache m.primary e.commands [] in
      let (u, answered, next) = bind_ok (load_all w (unwrap_or m.slot 0) loads) _ done in
      let ((rest, later), is, last) =
        bind_ok (load_nodes w nodes (cache ++ learned m.primary loads)) _ next in
      let (as_planned, known, (more, grown)) =
        load_nodes-AllKnown nodes rest (cache ++ learned m.primary loads) later is in
      let same = ok_inj last in
      let final : later ≡ cache' = ap (λ (p : NodeMap F × ScriptCache). p.1) same in
      let own =
        AllKnown-append (cache ++ learned m.primary loads) more m.primary e.commands
          (to_load-IsKnown cache m.primary e.commands []) in
      (
        sym (ap (λ (p : NodeMap F × ScriptCache). p.0) same) ∙ ap (◌∷◌ (by_hash (m, e))) as_planned,
        subst (λ c. All (AllKnown c) ((m, e) ∷ nodes)) final
            (subst (λ c. AllKnown c (m, e)) (sym grown) own, known),
        (
          learned m.primary loads ++ more,
          sym final ∙ grown ∙ append_assoc cache (learned m.primary loads) more,
        ),
      )
