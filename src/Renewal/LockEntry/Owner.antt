-- ===== src/Renewal/LockEntry/Owner.antt =====
-- Whose name the renewal of a lock uses: `get_first_lock_name` of
-- redisson-rs/src/renewal/lock_entry.rs.
use mathlib.Core.Option
use redisson_rs.Base.{
  ℕ, ◌≡◌, refl, sym, ◌∙◌, ◌≢◌, Bool, true, is_empty, nat_eq, Bool-cases, inl, inr, String, false,
  not, Option, none, some, List, [], ◌∷◌, ◌++◌, arith, head?, retain, ◌==◌, string_eq, Option-cases,
}
use redisson_rs.Base.Assoc.{lookup, lookup-remove}
use redisson_rs.Renewal.LockEntry.{
  LockEntry, usize_sub, add_thread_id, release_one, remove_thread_id, has_no_threads,
  get_first_lock_name,
}
use redisson_rs.Renewal.LockEntry.Holds.{
  IsValid, Agree, Call, add, remove, held, pair, count, lookup-or_insert,
}

module _ (counters : String → Option ℕ) (names : String → Option String) where
  front_held :
      (queue : List String)
      → ((u : String) → Agree (counters u) (names u) (count u queue))
      → is_empty queue ≡ false
      → (t : String) × (c : ℕ) × (name : String) × (head? queue ≡ some t)
        × (pair (counters t) (names t) ≡ some (c, name))
        × (Option.bind (head? queue) names ≡ some name)
  unfolding Option.bind
  front_held [] agree busy = cc
  front_held (t ∷ ts) agree busy = elim (Option-cases (counters t)) [
    | inl e ↦ absurd (ground (arith, agree t, string_eq.beq_iff t t))
    | inr (c, e) ↦ elim (Option-cases (names t)) [
      | inl f ↦ absurd (ground (arith, agree t, string_eq.beq_iff t t))
      | inr (name, f) ↦ (t, c, name, refl, rw (e, f), f)
    ]
  ]

-- In a valid entry that is not empty the front thread holds the lock, and the renewal uses the name
-- of its first hold: the search never ends without a name.
pub get_first_lock_name-held :
    (e : LockEntry)
    → IsValid e
    → has_no_threads e ≡ false
    → (t : String) × (c : ℕ) × (name : String) × (head? e.threads_queue ≡ some t)
      × (held e t ≡ some (c, name))
      × (get_first_lock_name e ≡ some name)
unfolding has_no_threads get_first_lock_name
get_first_lock_name-held e h busy = front_held _ _ e.threads_queue h.agree busy

front_append : (t : String) (xs ys : List String) → head? xs ≡ some t → head? (xs ++ ys) ≡ some t
front_append t [] ys h = cc
front_append t (x ∷ xs) ys h = h

front_retain :
    (p : String → Bool) (t : String) (xs : List String)
    → p t ≡ true
    → head? xs ≡ some t
    → head? (retain p xs) ≡ some t
front_retain p t [] k h = cc
front_retain p t (x ∷ xs) k h = ground arith

first_name :
    (e : LockEntry) (t : String)
    → head? e.threads_queue ≡ some t
    → get_first_lock_name e ≡ lookup t e.thread2lock_name
unfolding get_first_lock_name Option.bind
first_name e t h = rw (h, Option.bind)

abbrev pub step : Call → LockEntry → LockEntry
step (add t name) e = add_thread_id t name e
step (remove t) e = remove_thread_id t e

module _ (e : LockEntry) (t : String) (front : head? e.threads_queue ≡ some t) where
  add_keeps_first :
      (u name : String)
      → held e t ≢ none
      → get_first_lock_name (add_thread_id u name e) ≡ get_first_lock_name e
  unfolding add_thread_id
  add_keeps_first u name keeps =
      first_name (add_thread_id u name e) t (front_append t e.threads_queue (u ∷ []) front)
      ∙ lookup-or_insert u t name e.thread2lock_name
      ∙ ground (arith, string_eq.beq_iff u t)
      ∙ sym (first_name e t front)

  release_keeps_first :
      (u : String) (c : ℕ)
      → lookup u e.thread_counter ≡ some c
      → held (release_one u c e) t ≢ none
      → get_first_lock_name (release_one u c e) ≡ get_first_lock_name e
  unfolding release_one
  release_keeps_first u c is keeps = elim (Bool-cases (usize_sub c 1 == 0)) [
    | inr more ↦ rw more (first_name _ t front ∙ sym (first_name e t front))
    | inl last ↦ elim (Bool-cases (t == u)) [
      | inl same ↦
          absurd (keeps (ground (arith, string_eq.beq_iff t u, lookup-remove u t e.thread_counter)))
      | inr other ↦ rw last (
          first_name _ t (front_retain (λ x. not (x == u)) t e.threads_queue (ground arith) front)
          ∙ lookup-remove u t e.thread2lock_name
          ∙ ground (arith, string_eq.beq_iff t u, string_eq.beq_iff u t)
          ∙ sym (first_name e t front))
    ]
  ]

  remove_keeps_first :
      (u : String)
      → held (remove_thread_id u e) t ≢ none
      → get_first_lock_name (remove_thread_id u e) ≡ get_first_lock_name e
  unfolding remove_thread_id
  remove_keeps_first u after = elim (Option-cases (lookup u e.thread_counter)) [
    | inl is ↦ rw (is, remove_thread_id)
    | inr (c, is) ↦
        rw (is, remove_thread_id) (release_keeps_first u c is (rw (is, remove_thread_id) at after))
  ]

-- While the front thread goes on holding the lock, no call, its own or another thread's, changes the
-- name that the renewal uses.
pub step_keeps_first :
    (e : LockEntry) (t : String) (call : Call)
    → head? e.threads_queue ≡ some t
    → held e t ≢ none
    → held (step call e) t ≢ none
    → get_first_lock_name (step call e) ≡ get_first_lock_name e
step_keeps_first e t (add u name) front before after = add_keeps_first e t front u name before
step_keeps_first e t (remove u) front before after = remove_keeps_first e t front u after
