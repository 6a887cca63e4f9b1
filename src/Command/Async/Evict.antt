-- ===== src/Command/Async/Evict.antt =====
-- `async0` of redisson-rs/src/command/command_async_service.rs and the client-side caches that it
-- tells to forget a key.
use redisson_rs.Base.{
  ℕ, Bool, false, not, ◌&&◌, none, some, Option-cases, inl, inr, List, [], ◌∷◌, map, retain, length,
  if◌then◌else◌, ◌==◌, nat_eq, string_eq, is_err, Result-cases, arith, ◌≡◌, refl,
}
use redisson_rs.Base.Assoc.{Assoc}
use redisson_rs.Connection.ServiceManager.Caching.{
  has_caching_instances, evict_client_side_caching, Call, after, is_registered, times,
  evict-registered,
}
use redisson_rs.Command.Value.{Fred, Key}
use redisson_rs.Command.RedisCommand.{RedisCommand, is_read_only, routing_key}
use redisson_rs.Command.Execute.{Net, execute}
use redisson_rs.Command.Async.{CommandAsyncInner, build_options, Around, async0}

module _ {I : Type 0} (address : I → ℕ) where
  -- How often the instance at an address is told to forget the key.
  abbrev pub told : ℕ → Key → List (I × Key) → ℕ
  told a key calls = length (retain (λ (c : I × Key). address c.0 == a && c.1 == key) calls)

  told-map :
      (a : ℕ) (key name : Key) (is : List I)
      → told a key (map (λ j. (j, name)) is) ≡ (if name == key then times address a is else 0)
  told-map a key name [] = ground arith
  told-map a key name (j ∷ is) = ground (arith, told-map a key name is)

  -- The key that decides a command's node.
  abbrev pub is_key_of : {F : Fred} → Key → RedisCommand F → Bool
  is_key_of key cmd = elim (routing_key cmd) [ none ↦ false | some name ↦ name == key ]

  abbrev notified : {F : Fred} → RedisCommand F → Assoc ℕ I → List (I × Key)
  notified cmd m = elim (routing_key cmd) [
    | none ↦ []
    | some name ↦ map (λ j. (j, name)) (evict_client_side_caching address m)
  ]

  notified-times :
      {F : Fred} (cmd : RedisCommand F) (a : ℕ) (key : Key) (m : Assoc ℕ I)
      → told a key (notified cmd m)
        ≡ (if is_key_of key cmd then times address a (evict_client_side_caching address m) else 0)
  notified-times cmd a key m = elim (Option-cases (routing_key cmd)) [
    | inl unrouted ↦ rw (unrouted, notified, is_key_of) refl
    | inr (name, routed) ↦
        rw (routed, notified, is_key_of) (told-map a key name (evict_client_side_caching address m))
  ]

  forgotten :
      {F : Fred} (cmd : RedisCommand F) (a : ℕ) (key : Key) (m : Assoc ℕ I) (registered : Bool)
      → times address a (evict_client_side_caching address m) ≡ (if registered then 1 else 0)
      → told a key
          (if not (is_read_only cmd) && has_caching_instances address m then notified cmd m else [])
        ≡ (if not (is_read_only cmd) && (is_key_of key cmd && registered) then 1 else 0)
  unfolding evict_client_side_caching
  forgotten cmd a key [] registered once = ground arith
  forgotten cmd a key (p ∷ m) registered once = ground (arith, notified-times cmd a key (p ∷ m))

  module _ {F : Fred} (v : Around F) (i : CommandAsyncInner) where
    -- However instances have been added and removed, after a command the instance at an address is
    -- told to forget a key once if the command succeeded, is not a reading one, is routed by that
    -- key, and the last call for the address added it; otherwise it is not told. The answer and what
    -- was sent are those of the command by itself.
    pub async0-told :
        (a : ℕ) (key : Key) (h : List (Call address)) (cmd : RedisCommand F) (n : Net F)
        → let out = async0 v address i (after address h) cmd n in
          let plain = execute v.pool (build_options i) cmd n in
          (told a key out.0.1 ≡ (
            if not (is_err plain.1)
              && (not (is_read_only cmd) && (is_key_of key cmd && is_registered address a h))
            then 1
            else 0))
          × ((out.0.0, out.1) ≡ plain)
    unfolding async0
    async0-told a key h cmd n =
        let plain = execute v.pool (build_options i) cmd n in
        elim (Result-cases plain.1) [
          | inr (e, is) ↦ rw (is, async0) (refl, refl)
          | inl (value, is) ↦
              rw (is, async0)
                (
                  forgotten cmd a key (after address h) (is_registered address a h)
                      (evict-registered address a h),
                  refl,
                )
        ]
