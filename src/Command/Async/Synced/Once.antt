-- ===== src/Command/Async/Synced/Once.antt =====
-- What `synced_eval` (redisson-rs/src/command/command_async_service.rs) asks of the servers it asks
-- once, and what it then does with the answers.
use redisson_rs.Base.{
  ℕ, String, Bool, true, false, not, ◌&&◌, ◌||◌, Option, none, some, List, ok, err, Result, err-ok,
  ok_inj, if◌then◌else◌, ◌==◌, ==-refl, ◌≡◌, refl, ap, ◌∙◌,
}
use redisson_rs.Base.Assoc.{lookup-insert}
use redisson_rs.Base.Int.{pos, int_eq}
use redisson_rs.Config.Client.{Server}
use redisson_rs.Connection.ServiceManager.{server_eq, get_slave_info, CachedSlaveInfo}
use redisson_rs.Command.Value.{Fred, Key, Value, Options, FredError}
use redisson_rs.Command.Execute.{Net}
use redisson_rs.Command.Async.{
  WaitSupport, CommandAsyncInner, build_options, pin, Around, Process, node_of,
}
use redisson_rs.Command.Async.Probe.{ReplicationInfo, probe_wait_support, query_replication_info}
use redisson_rs.Command.Async.Rounds.{Beyond, loop}
use redisson_rs.Command.Async.Synced.{
  SyncMode, skips, is_single, fallback, supports_from, note_support, supports, note_info, info_of,
  replication_from, replication, uses_aof, available_slaves, with_info, with_support, synced_eval,
}

or_if :
    {A : Type 0} (a b c : Bool) (x y : A)
    → (if a then x else (if b then x else (if c then x else y))) ≡ (if a || (b || c) then x else y)
or_if true b c x y = refl
or_if false true c x y = refl
or_if false false c x y = refl

module _ {F : Fred} (v : Around F) (b : Beyond F) (i : CommandAsyncInner)
    (queued_first : Bool → Bool) (script : String) (keys : List Key) (args : List (Value F)) where
  supports_known :
      (o : Options) (s : Process F v.lru) (known : WaitSupport)
      → s.wait_support ≡ some known
      → supports v b i queued_first script keys args o s ≡ (s, ok known)
  unfolding supports
  supports_known o s known there = ap (supports_from v b i queued_first script keys args o s) there

  note_support-some :
      (s : Process F v.lru) (out : Net F × Result FredError WaitSupport) (known : WaitSupport)
      → (note_support v b i queued_first script keys args s out).1 ≡ ok known
      → (note_support v b i queued_first script keys args s out).0.wait_support ≡ some known
  note_support-some s (n, err e) known found = absurd (err-ok found)
  note_support-some s (n, ok support) known found = ap some (ok_inj found)

  supports-some :
      (o : Options) (s : Process F v.lru) (known : WaitSupport) (before : Option WaitSupport)
      → s.wait_support ≡ before
      → (supports_from v b i queued_first script keys args o s before).1 ≡ ok known
      → (supports_from v b i queued_first script keys args o s before).0.wait_support ≡ some known
  supports-some o s known (some w) was found = was ∙ ap some (ok_inj found)
  supports-some o s known none was found =
      note_support-some s (probe_wait_support v o s.net) known found

  -- When it has been found what a node supports, for whichever node, it is not asked again: the same
  -- is answered from then on, and nothing is sent.
  pub supports_once :
      (o o' : Options) (s : Process F v.lru) (known : WaitSupport)
      → let asked = supports v b i queued_first script keys args o s in
        asked.1 ≡ ok known
        → supports v b i queued_first script keys args o' asked.0 ≡ (asked.0, ok known)
  unfolding supports
  supports_once o o' s known found =
      supports_known o' (supports_from v b i queued_first script keys args o s s.wait_support).0
        known (supports-some o s known s.wait_support refl found)

  replication_known :
      (server : Server) (o : Options) (s : Process F v.lru) (cached : CachedSlaveInfo)
      → get_slave_info v.lru server s.statics ≡ some cached
      → replication v b i queued_first script keys args (some server) o s
        ≡ (s, ok (info_of v b i queued_first script keys args cached))
  unfolding replication
  replication_known server o s cached there =
      ap (replication_from v b i queued_first script keys args (some server) o s) there

  abbrev cached_of : ReplicationInfo → CachedSlaveInfo
  cached_of info = record {
    connected_slaves = info.connected_slaves;
    aof_enabled = info.aof_enabled;
  }

  note_info-some :
      (server : Server) (s : Process F v.lru) (out : Net F × Result FredError ReplicationInfo)
      (info : ReplicationInfo)
      → let after = note_info v b i queued_first script keys args (some server) s out in
        after.1 ≡ ok info → get_slave_info v.lru server after.0.statics ≡ some (cached_of info)
  note_info-some server s (n, err e) info found = absurd (err-ok found)
  note_info-some server s (n, ok i') info found =
      lookup-insert server server (cached_of i') s.statics.slave_info
      ∙ rw (==-refl server) (ap (λ x. some (cached_of x)) (ok_inj found))

  replication-some :
      (server : Server) (o : Options) (s : Process F v.lru) (info : ReplicationInfo)
      (before : Option CachedSlaveInfo)
      → get_slave_info v.lru server s.statics ≡ before
      → let after = replication_from v b i queued_first script keys args (some server) o s before in
        after.1 ≡ ok info → get_slave_info v.lru server after.0.statics ≡ some (cached_of info)
  replication-some server o s info (some cached) was found =
      was ∙ ap (λ x. some (cached_of x)) (ok_inj found)
  replication-some server o s info none was found =
      note_info-some server s (query_replication_info v o b.as_string s.net) info found

  -- When a node's slaves have been found, they are not asked for again while nothing makes void what
  -- is remembered: the same is answered from then on, and nothing is sent.
  pub replication_once :
      (server : Server) (o o' : Options) (s : Process F v.lru) (info : ReplicationInfo)
      → let asked = replication v b i queued_first script keys args (some server) o s in
        asked.1 ≡ ok info
        → replication v b i queued_first script keys args (some server) o' asked.0
          ≡ (asked.0, ok info)
  unfolding replication
  replication_once server o o' s info found =
      let before = get_slave_info v.lru server s.statics in
      replication_known server o'
        (replication_from v b i queued_first script keys args (some server) o s before).0
        (cached_of info) (replication-some server o s info before refl found)

  module _ (mode : SyncMode) (retry : Bool) where
    -- Whether the script is evaluated without waiting for slaves.
    abbrev pub without_waiting : WaitSupport → ReplicationInfo → Bool
    without_waiting support info =
        (is_single i.config.mode || i.is_batch)
        || (skips mode support
            || (available_slaves v b i queued_first script keys args mode retry support info
                  == pos 0
                && not (uses_aof v b i queued_first script keys args mode retry support info)))

    -- When what the node supports and its slaves are remembered, a synchronised evaluation asks for
    -- nothing: it is an evaluation as usual, retried as wanted, on a single server, inside a batch, or
    -- where there is nothing to wait for, and otherwise the loop, from the state as it is.
    pub synced_eval_remembered :
        (s : Process F v.lru) (server : Server) (support : WaitSupport) (cached : CachedSlaveInfo)
        (fuel : ℕ)
        → node_of v keys ≡ some server
        → s.wait_support ≡ some support
        → get_slave_info v.lru server s.statics ≡ some cached
        → let info = info_of v b i queued_first script keys args cached in
          synced_eval v b i queued_first script keys args mode retry fuel s ≡ (
            if without_waiting support info
            then fallback v b i queued_first script keys args retry s
            else loop v b i queued_first script keys args fuel
                (some server)
                (uses_aof v b i queued_first script keys args mode retry support info)
                (available_slaves v b i queued_first script keys args mode retry support info)
                false
                s)
    unfolding synced_eval with_support with_info
    synced_eval_remembered s server support cached fuel at known there =
        let o = pin (some server) (build_options i) in
        let usual = fallback v b i queued_first script keys args retry s in
        let single = is_single i.config.mode || i.is_batch in
        let info = info_of v b i queued_first script keys args cached in
        ap
          (λ k.
            if single
            then usual
            else with_support v b i queued_first script keys args mode retry fuel k
                (pin k (build_options i))
                (supports v b i queued_first script keys args (pin k (build_options i)) s))
          at
        ∙ ap
            (λ r.
              if single
              then usual
              else with_support v b i queued_first script keys args mode retry fuel (some server) o
                  r)
            (supports_known o s support known)
        ∙ ap
            (λ r.
              if single
              then usual
              else (if skips mode support
                  then usual
                  else with_info v b i queued_first script keys args mode retry fuel (some server)
                      support r))
            (replication_known server o s cached there)
        ∙ or_if single (skips mode support)
            (available_slaves v b i queued_first script keys args mode retry support info == pos 0
              && not (uses_aof v b i queued_first script keys args mode retry support info))
            usual _
