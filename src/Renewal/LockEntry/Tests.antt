-- ===== src/Renewal/LockEntry/Tests.antt =====
-- Runs of a lock entry, and its theorems at concrete calls.
use redisson_rs.Base.{◌≡◌, refl, ℕ, String, none, some, List, [], ◌∷◌, arith, head?}
use redisson_rs.Base.Assoc.{lookup, contains_key, insert}
use redisson_rs.Renewal.LockEntry.{
  LockEntry, new, add_thread_id, remove_thread_id, has_no_threads, get_first_lock_name,
}
use redisson_rs.Renewal.LockEntry.Holds.{
  IsValid, Call, add, remove, run, replay, held, new-IsValid, run-new_refines,
  add_thread_id-IsValid,
}
use redisson_rs.Renewal.LockEntry.Owner.{step, get_first_lock_name-held, step_keeps_first}

-- Thread 1 enters twice, thread 2 once, and thread 1 leaves once.
abbrev history : List Call
history = add "1" "id:1" ∷ add "1" "id:1" ∷ add "2" "id:2" ∷ remove "1" ∷ []

abbrev one_holder : LockEntry
one_holder = record {
  thread2lock_name = ("1", "id:1") ∷ [];
  thread_counter = ("1", 1) ∷ [];
  threads_queue = "1" ∷ [];
}

held_once : held (run history new) "1" ≡ some (1, "id:1")
unfolding run new lookup contains_key insert add_thread_id remove_thread_id
held_once = refl

one_holder_reached : add_thread_id "1" "id:1" new ≡ one_holder
unfolding new lookup contains_key insert add_thread_id
one_holder_reached = refl

one_holder-IsValid : IsValid one_holder
one_holder-IsValid =
    rw one_holder_reached at
      (add_thread_id-IsValid "1" "id:1" new new-IsValid (unfold new in omega arith))

run-new_refines_example :
    IsValid (run history new) × ((u : String) → held (run history new) u ≡ replay u history none)
run-new_refines_example = run-new_refines history (omega arith)

get_first_lock_name-held_example :
    (t : String) × (c : ℕ) × (name : String) × (head? one_holder.threads_queue ≡ some t)
    × (held one_holder t ≡ some (c, name))
    × (get_first_lock_name one_holder ≡ some name)
unfolding has_no_threads
get_first_lock_name-held_example = get_first_lock_name-held one_holder one_holder-IsValid refl

step_keeps_first_example :
    get_first_lock_name (step (add "2" "id:2") one_holder) ≡ get_first_lock_name one_holder
unfolding lookup contains_key add_thread_id insert
step_keeps_first_example = step_keeps_first one_holder "1" (add "2" "id:2") refl (λ e. cc) (λ e. cc)
