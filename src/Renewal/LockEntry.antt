-- ===== src/Renewal/LockEntry.antt =====
-- redisson-rs/src/renewal/lock_entry.rs: who holds one lock, how often, and under which name.
-- `usize` arithmetic wraps at 2 ^ 64.
pub mod Holds
pub mod Owner
mod Tests
use mathlib.Core.Option
use redisson_rs.Base.{
  ℕ, ◌+◌, ◌-◌, ◌%◌, ◌^◌, String, Bool, not, Option, none, some, List, [], ◌∷◌, ◌++◌, is_empty,
  retain, head?, ◌==◌, string_eq, nat_eq, if◌then◌else◌,
}
pub use redisson_rs.Base.Int.{usize_mod, usize_add, usize_sub}
use redisson_rs.Base.Assoc.{Assoc, lookup, contains_key, insert, remove}

pub record LockEntry : Type 0 where
  pub thread2lock_name : Assoc String String
  pub thread_counter : Assoc String ℕ
  pub threads_queue : List String

pub new : LockEntry
new = record { thread2lock_name = []; thread_counter = []; threads_queue = [] }

-- `*map.entry(k).or_insert(v)`, read.
abbrev pub value_or : Option ℕ → ℕ → ℕ
value_or none d = d
value_or (some c) d = c

-- `map.entry(k).or_insert(v)`, for its effect.
pub or_insert : String → String → Assoc String String → Assoc String String
or_insert k v m = if contains_key k m then m else insert k v m

pub add_thread_id : String → String → LockEntry → LockEntry
unfolding or_insert
add_thread_id thread_id lock_name e = record {
  thread2lock_name = or_insert thread_id lock_name e.thread2lock_name;
  thread_counter =
      insert thread_id (usize_add (value_or (lookup thread_id e.thread_counter) 0) 1)
        e.thread_counter;
  threads_queue = e.threads_queue ++ thread_id ∷ [];
}

-- The branch where the thread has a counter, which is `counter` before the call.
pub release_one : String → ℕ → LockEntry → LockEntry
release_one thread_id counter e =
    let left = usize_sub counter 1 in
    if left == 0
    then record {
      thread2lock_name = remove thread_id e.thread2lock_name;
      thread_counter = remove thread_id e.thread_counter;
      threads_queue = retain (λ t. not (t == thread_id)) e.threads_queue;
    }
    else record e { thread_counter = insert thread_id left e.thread_counter }

pub remove_thread_id : String → LockEntry → LockEntry
unfolding release_one
remove_thread_id thread_id e = elim (lookup thread_id e.thread_counter) [
  | none ↦ e
  | some counter ↦ release_one thread_id counter e
]

pub has_no_threads : LockEntry → Bool
has_no_threads e = is_empty e.threads_queue

pub get_first_lock_name : LockEntry → Option String
get_first_lock_name e = Option.bind (head? e.threads_queue) (λ tid. lookup tid e.thread2lock_name)
