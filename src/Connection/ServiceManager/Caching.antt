-- ===== src/Connection/ServiceManager/Caching.antt =====
-- The client-side caches registered with the service manager
-- (redisson-rs/src/connection/service_manager.rs), which are told what to forget.
use redisson_rs.Base.{
  ℕ, ◌≤◌, Bool, false, not, ◌&&◌, ◌||◌, List, [], ◌∷◌, is_empty, retain, length, if◌then◌else◌,
  ◌==◌, nat_eq, arith, ◌≡◌, refl, All,
}
use redisson_rs.Base.Assoc.{Assoc, insert, remove}

-- The instances behind their pointers; `address` is `Arc::as_ptr`.
module _ {I : Type 0} (address : I → ℕ) where
  abbrev pub add_client_side_caching : I → Assoc ℕ I → Assoc ℕ I
  add_client_side_caching i m = insert (address i) i m

  abbrev pub remove_client_side_caching : I → Assoc ℕ I → Assoc ℕ I
  remove_client_side_caching i m = remove (address i) m

  abbrev pub has_caching_instances : Assoc ℕ I → Bool
  has_caching_instances m = not (is_empty m)

  -- The instances whose `clear_cache` it calls.
  unfoldable pub evict_client_side_caching : Assoc ℕ I → List I
  evict_client_side_caching [] = []
  evict_client_side_caching ((a, i) ∷ m) = i ∷ evict_client_side_caching m

  pub data Call : Type 0 where
    added removed : I → Call

  abbrev step : Call → Assoc ℕ I → Assoc ℕ I
  step (added i) m = add_client_side_caching i m
  step (removed i) m = remove_client_side_caching i m

  -- After the calls, the latest of them first.
  abbrev pub after : List Call → Assoc ℕ I
  after [] = []
  after (c ∷ h) = step c (after h)

  -- The last call for the address added an instance.
  abbrev pub is_registered : ℕ → List Call → Bool
  is_registered a [] = false
  is_registered a (added i ∷ h) = address i == a || is_registered a h
  is_registered a (removed i ∷ h) = not (address i == a) && is_registered a h

  abbrev pub times : ℕ → List I → ℕ
  times a is = length (retain (λ i. address i == a) is)

  abbrev evictions : ℕ → Assoc ℕ I → ℕ
  evictions a m = times a (evict_client_side_caching m)

  abbrev IsKeyed : Assoc ℕ I → Type 0
  IsKeyed m = All (λ (p : ℕ × I). p.0 ≡ address p.1) m

  insert-IsKeyed : (i : I) (m : Assoc ℕ I) → IsKeyed m → IsKeyed (add_client_side_caching i m)
  unfolding insert
  insert-IsKeyed i [] keyed = (refl, tt)
  insert-IsKeyed i ((k, j) ∷ m) keyed = ground (arith, insert-IsKeyed i m keyed.1)

  remove-IsKeyed : (k : ℕ) (m : Assoc ℕ I) → IsKeyed m → IsKeyed (remove k m)
  unfolding remove
  remove-IsKeyed k [] keyed = tt
  remove-IsKeyed k ((j, i) ∷ m) keyed = ground (arith, remove-IsKeyed k m keyed.1)

  insert-evictions :
      (a : ℕ) (i : I) (m : Assoc ℕ I)
      → IsKeyed m
      → evictions (address i) m ≤ 1
      → evictions a (add_client_side_caching i m) ≡ (if address i == a then 1 else evictions a m)
  unfolding insert evict_client_side_caching
  insert-evictions a i [] keyed few = ground arith
  insert-evictions a i ((k, j) ∷ m) keyed few = ground (arith, insert-evictions a i m keyed.1)

  remove-evictions :
      (a k : ℕ) (m : Assoc ℕ I)
      → IsKeyed m
      → evictions a (remove k m) ≡ (if k == a then 0 else evictions a m)
  unfolding remove evict_client_side_caching
  remove-evictions a k [] keyed = ground arith
  remove-evictions a k ((j, i) ∷ m) keyed = ground (arith, remove-evictions a k m keyed.1)

  after-IsKeyed : (h : List Call) → IsKeyed (after h)
  after-IsKeyed [] = tt
  after-IsKeyed (added i ∷ h) = insert-IsKeyed i (after h) (after-IsKeyed h)
  after-IsKeyed (removed i ∷ h) = remove-IsKeyed (address i) (after h) (after-IsKeyed h)

  -- However often instances have been added and removed, an eviction calls the instance at an
  -- address once if the last call for that address added it, and not at all otherwise.
  pub evict-registered :
      (a : ℕ) (h : List Call)
      → times a (evict_client_side_caching (after h)) ≡ (if is_registered a h then 1 else 0)
  unfolding evict_client_side_caching
  evict-registered a [] = refl
  evict-registered a (added i ∷ h) = ground (
    arith,
    evict-registered (address i) h,
    evict-registered a h,
    insert-evictions a i (after h) (after-IsKeyed h),
  )
  evict-registered a (removed i ∷ h) =
      ground
        (arith, evict-registered a h, remove-evictions a (address i) (after h) (after-IsKeyed h))
