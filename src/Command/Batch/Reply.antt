-- ===== src/Command/Batch/Reply.antt =====
-- The helpers of redisson-rs/src/command/command_batch_service.rs that make the WAIT command and read
-- the answers to it and to EXEC.
use redisson_rs.Base.{
  ℕ, ◌≡◌, refl, ◌-◌, ◌%◌, ◌^◌, Option, none, some, List, [], ◌∷◌, ◌++◌, map, ltb, get_elem?,
  if◌then◌else◌, Result, ok, err,
}
use redisson_rs.Base.Int.{ℤ, pos, negsuc}
use redisson_rs.Command.Value.{
  Fred, Value, integer, array, null, to_list, Request, custom, custom_slot,
}
use redisson_rs.Command.Execute.{Answer}
use redisson_rs.Command.BatchOptions.{BatchOptions}
use redisson_rs.Command.Batch.{
  Delivery, BatchError, exec_missing, exec_nil, unexpected_exec, exec_failed,
}

-- `n as i64`
abbrev pub as_i64 : ℕ → ℤ
as_i64 n = let m = n % 2 ^ 64 in if ltb m (2 ^ 63) then pos m else negsuc (2 ^ 64 - 1 - m)

-- `Vec::pop`: what is left, and the last.
unfoldable pub pop {ℓ} : {A : Type ℓ} → List A → List A × Option A
pop [] = ([], none)
pop (x ∷ []) = ([], some x)
pop (x ∷ y ∷ xs) = let (rest, last) = pop (y ∷ xs) in (x ∷ rest, last)

-- `Iterator::zip`
unfoldable pub zip {ℓ κ} : {A : Type ℓ} {B : Type κ} → List A → List B → List (A × B)
zip [] ys = []
zip (x ∷ xs) [] = []
zip (x ∷ xs) (y ∷ ys) = (x, y) ∷ zip xs ys

module _ {F : Fred} where
  -- `make_wait_cmd`
  abbrev pub make_wait_cmd : (slot : ℕ) → BatchOptions → Request F
  make_wait_cmd slot o =
      if o.sync_aof
      then custom "WAITAOF" (custom_slot slot)
          (integer o.sync_locals ∷ integer o.sync_slaves ∷ integer (as_i64 o.sync_timeout) ∷ [])
      else custom "WAIT" (custom_slot slot)
          (integer o.sync_slaves ∷ integer (as_i64 o.sync_timeout) ∷ [])

  abbrev pub value_or_zero : Option (Value F) → ℤ
  value_or_zero (some (integer n)) = n
  value_or_zero _ = pos 0

  -- `extract_synced_slaves`
  unfoldable pub extract_synced_slaves : Option (Answer F) → ℤ
  extract_synced_slaves (some (ok (integer n))) = n
  extract_synced_slaves (some (ok (array nums))) = value_or_zero (get_elem? (to_list nums) 1)
  extract_synced_slaves _ = pos 0

  -- `result.unwrap_or(Value::Null)`
  abbrev pub value_or_null : Answer F → Value F
  value_or_null (ok v) = v
  value_or_null (err e) = null

  abbrev pub send_all : Result (BatchError F) (Value F) → List ℕ → List (Delivery F)
  send_all r txs = map (λ tx. (tx, r)) txs

  -- `distribute_exec_results`: the deliveries, and an error if the answer is none of an EXEC.
  unfoldable pub distribute_exec_results :
      Option (Answer F) → List ℕ → List (Delivery F) × Result (BatchError F) (Unit {0})
  distribute_exec_results none txs = ([], err exec_missing)
  distribute_exec_results (some (ok (array actual))) txs =
      (map (λ (p : ℕ × Value F). (p.0, ok p.1)) (zip txs (to_list actual)), ok tt)
  distribute_exec_results (some (ok null)) txs = (send_all (err exec_nil) txs, ok tt)
  distribute_exec_results (some (ok v)) txs = ([], err (unexpected_exec v))
  distribute_exec_results (some (err e)) txs = (send_all (err (exec_failed e)) txs, ok tt)

  -- `collect_exec_indexed`
  unfoldable pub collect_exec_indexed : Option (Answer F) → List ℕ → List (ℕ × Value F)
  collect_exec_indexed (some (ok (array actual))) indexes = zip indexes (to_list actual)
  collect_exec_indexed _ indexes = []

pub pop-snoc {ℓ} : {A : Type ℓ} (xs : List A) (x : A) → pop (xs ++ (x ∷ [])) ≡ (xs, some x)
unfolding pop
pop-snoc [] x = refl
pop-snoc (y ∷ []) x = refl
pop-snoc (y ∷ z ∷ xs) x = rw (pop-snoc (z ∷ xs) x) refl
