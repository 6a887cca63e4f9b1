-- ===== src/Command/Async/Probe.antt =====
-- What `synced_eval` of redisson-rs/src/command/command_async_service.rs asks of a node: whether it
-- knows WAIT and WAITAOF, and its slaves.
use redisson_rs.Base.{
  String, Bool, true, false, Option, none, some, List, [], ◌∷◌, if◌then◌else◌, Result, ok, err,
}
use redisson_rs.Base.Int.{ℤ, pos}
use redisson_rs.Glob.{chars}
use redisson_rs.Command.Value.{
  Fred, Value, integer, first_key, custom, info_all, Options, FredError,
}
use redisson_rs.Command.Execute.{Answer, Net, is_unknown_command, send}
use redisson_rs.Command.Async.{WaitSupport, Around}
use redisson_rs.Command.Async.Info.{Chars, same_chars, parse_info_str, parse_info_i64}

pub record ReplicationInfo : Type 0 where
  pub connected_slaves : ℤ
  pub aof_enabled : Bool

abbrev pub map_net :
    {F : Fred} {A B : Type 0} → (A → B) → Net F × Result FredError A → Net F × Result FredError B
map_net f (n, ok a) = (n, ok (f a))
map_net f (n, err e) = (n, err e)

module _ {F : Fred} (v : Around F) (o : Options) where
  abbrev pub supported : Answer F → Result FredError Bool
  supported (ok reply) = ok true
  supported (err e) = if is_unknown_command e then ok false else err e

  unfoldable pub probe_command : String → List (Value F) → Net F → Net F × Result FredError Bool
  probe_command name args n =
      let (n', r) = send v.pool o (custom name first_key args) n in (n', supported r)

  unfoldable pub probe_wait_support : Net F → Net F × Result FredError WaitSupport
  probe_wait_support n =
      let (n', r) = probe_command "WAIT" (integer (pos 0) ∷ integer (pos 0) ∷ []) n in
      elim r [
        | err e ↦ (n', err e)
        | ok has_wait ↦
            map_net (λ has_aof. record { wait = has_wait; wait_aof = has_aof })
              (probe_command "WAITAOF" (integer (pos 0) ∷ integer (pos 0) ∷ integer (pos 0) ∷ [])
                n')
      ]

  abbrev pub is_one : Option Chars → Bool
  is_one none = false
  is_one (some value) = same_chars value (b'1' ∷ [])

  abbrev pub replication_of : Chars → ReplicationInfo
  replication_of info = record {
    connected_slaves = parse_info_i64 info (chars "connected_slaves");
    aof_enabled = is_one (parse_info_str info (chars "aof_enabled"));
  }

  unfoldable pub query_replication_info :
      (Value F → Result FredError Chars) → Net F → Net F × Result FredError ReplicationInfo
  query_replication_info as_string n =
      let (n', r) = send v.pool o info_all n in
      map_net replication_of (n', elim r [ err e ↦ err e | ok value ↦ as_string value ])
