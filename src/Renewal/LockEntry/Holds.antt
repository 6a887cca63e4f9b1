-- ===== src/Renewal/LockEntry/Holds.antt =====
-- What a lock entry promises (redisson-rs/src/renewal/lock_entry.rs): for each thread the number of
-- its holds and the name that came with the first of them. The three collections agree on that.
use redisson_rs.Base.{
  ℕ, suc, ◌+◌, ◌-◌, ◌<◌, ◌≤◌, ◌≡◌, refl, ◌∙◌, ap, ◌↔◌, inl, inr, String, Bool, true, not, Option,
  none, some, List, [], ◌∷◌, ◌++◌, arith, is_empty, is_some, length, length-append, retain, ◌==◌,
  string_eq, if◌then◌else◌, ltb, Option-cases,
}
use redisson_rs.Base.Assoc.{lookup, lookup-insert, lookup-remove, contains_key-lookup}
use redisson_rs.Renewal.LockEntry.{
  LockEntry, new, usize_mod, or_insert, add_thread_id, release_one, remove_thread_id,
  has_no_threads,
}

-- How often a thread stands in the queue.
abbrev pub count : String → List String → ℕ
count t [] = 0
count t (u ∷ us) = if u == t then suc (count t us) else count t us

count-append : (t : String) (xs ys : List String) → count t (xs ++ ys) ≡ count t xs + count t ys
count-append t [] ys = omega arith
count-append t (x ∷ xs) ys = ground (arith, count-append t xs ys)

pub count-le-length : (t : String) (xs : List String) → count t xs ≤ length xs
count-le-length t [] = omega arith
count-le-length t (x ∷ xs) = ground (arith, count-le-length t xs)

-- Taking a thread out of the queue takes all of it and nothing else.
count-retain :
    (t u : String) (xs : List String)
    → count u (retain (λ x. not (x == t)) xs) ≡ (if t == u then 0 else count u xs)
count-retain t u [] = ground arith
count-retain t u (x ∷ xs) = ground (
  arith,
  string_eq.beq_iff x t,
  string_eq.beq_iff x u,
  string_eq.beq_iff t u,
  count-retain t u xs,
)

length-retain : (p : String → Bool) (xs : List String) → length (retain p xs) ≤ length xs
length-retain p [] = omega arith
length-retain p (x ∷ xs) = ground (arith, length-retain p xs)

-- What the collections say of one thread: its counter, its lock name, its places in the queue.
abbrev pub Agree : Option ℕ → Option String → ℕ → Type 0
Agree none name places = (name ≡ none) × (places ≡ 0)
Agree (some c) name places = (is_some name ≡ true) × (0 < c) × (c ≤ places)

pub record IsValid (e : LockEntry) : Type 0 where
  pub agree :
      (t : String)
      → Agree (lookup t e.thread_counter) (lookup t e.thread2lock_name) (count t e.threads_queue)
  pub bounded : length e.threads_queue < usize_mod

-- The holds of a thread and the name of its lock; nothing when it holds none.
abbrev pub Held : Type 0
Held = Option (ℕ × String)

abbrev pub pair : Option ℕ → Option String → Held
pair (some c) (some name) = some (c, name)
pair _ _ = none

abbrev pub held : LockEntry → String → Held
held e t = pair (lookup t e.thread_counter) (lookup t e.thread2lock_name)

-- The specification: one more hold keeps the name of the first, the last release forgets both.
abbrev pub hold : String → Held → Held
hold name none = some (1, name)
hold name (some (c, first)) = some (c + 1, first)

abbrev pub release : Held → Held
release none = none
release (some (c, name)) = if ltb 1 c then some (c - 1, name) else none

pub new-IsValid : IsValid new
unfolding new lookup
new-IsValid = record { agree = λ t. (refl, refl); bounded = omega arith }

pub lookup-or_insert :
    (k j v : String) (m : List (String × String))
    → lookup j (or_insert k v m)
      ≡ (if k == j then (if is_some (lookup k m) then lookup k m else some v) else lookup j m)
unfolding or_insert
lookup-or_insert k j v m =
    ground (arith, string_eq.beq_iff k j, contains_key-lookup k m, lookup-insert k j v m)

module _ (t name : String) (e : LockEntry) (h : IsValid e)
    (room : length e.threads_queue + 1 < usize_mod) where
  add_thread_id-Agree :
      (u : String)
      → let e' = add_thread_id t name e in
        Agree (lookup u e'.thread_counter) (lookup u e'.thread2lock_name) (count u e'.threads_queue)
  unfolding add_thread_id
  add_thread_id-Agree u =
      rw
        (
          lookup-insert t u _ e.thread_counter,
          lookup-or_insert t u name e.thread2lock_name,
          count-append u e.threads_queue (t ∷ []),
        )
        (ground (arith, h.agree u, string_eq.beq_iff t u, count-le-length u e.threads_queue))

  pub add_thread_id-IsValid : IsValid (add_thread_id t name e)
  unfolding add_thread_id
  add_thread_id-IsValid = record {
    agree = add_thread_id-Agree;
    bounded = omega (arith, length-append e.threads_queue (t ∷ []));
  }

  pub held-add_thread_id :
      (u : String)
      → held (add_thread_id t name e) u ≡ (if t == u then hold name (held e u) else held e u)
  unfolding add_thread_id
  held-add_thread_id u =
      rw (lookup-insert t u _ e.thread_counter, lookup-or_insert t u name e.thread2lock_name)
        (ground (arith, h.agree u, string_eq.beq_iff t u, count-le-length u e.threads_queue))

module _ (t : String) (e : LockEntry) (h : IsValid e) where
  release_one-Agree :
      (c : ℕ) (u : String)
      → lookup t e.thread_counter ≡ some c
      → let e' = release_one t c e in
        Agree (lookup u e'.thread_counter) (lookup u e'.thread2lock_name) (count u e'.threads_queue)
  unfolding release_one
  release_one-Agree c u is = ground (
    arith,
    h.agree u,
    h.agree t,
    count-le-length t e.threads_queue,
    string_eq.beq_iff t u,
    count-retain t u e.threads_queue,
    lookup-remove t u e.thread_counter,
    lookup-remove t u e.thread2lock_name,
    lookup-insert t u (c - 1) e.thread_counter,
  )

  release_one-length : (c : ℕ) → length (release_one t c e).threads_queue ≤ length e.threads_queue
  unfolding release_one
  release_one-length c = ground (arith, length-retain (λ x. not (x == t)) e.threads_queue)

  held-release_one :
      (c : ℕ) (u : String)
      → lookup t e.thread_counter ≡ some c
      → held (release_one t c e) u ≡ (if t == u then release (held e u) else held e u)
  unfolding release_one
  held-release_one c u is = ground (
    arith,
    h.agree u,
    h.agree t,
    count-le-length t e.threads_queue,
    string_eq.beq_iff t u,
    lookup-remove t u e.thread_counter,
    lookup-remove t u e.thread2lock_name,
    lookup-insert t u (c - 1) e.thread_counter,
  )

  pub remove_thread_id-IsValid : IsValid (remove_thread_id t e)
  unfolding remove_thread_id
  remove_thread_id-IsValid = elim (Option-cases (lookup t e.thread_counter)) [
    | inl e₀ ↦ rw (e₀, remove_thread_id) h
    | inr (c, e₀) ↦
        rw (e₀, remove_thread_id)
          (record {
            agree = λ u. release_one-Agree c u e₀;
            bounded = omega (arith, release_one-length c);
          })
  ]

  pub held-remove_thread_id :
      (u : String)
      → held (remove_thread_id t e) u ≡ (if t == u then release (held e u) else held e u)
  unfolding remove_thread_id
  held-remove_thread_id u = elim (Option-cases (lookup t e.thread_counter)) [
    | inl e₀ ↦ rw (e₀, remove_thread_id) (ground (arith, string_eq.beq_iff t u))
    | inr (c, e₀) ↦ rw (e₀, remove_thread_id) (held-release_one c u e₀)
  ]

-- The calls that a lock makes, and what they come to.
pub data Call : Type 0 where
  add : String → String → Call
  remove : String → Call

unfoldable pub run : List Call → LockEntry → LockEntry
run [] e = e
run (add t name ∷ cs) e = run cs (add_thread_id t name e)
run (remove t ∷ cs) e = run cs (remove_thread_id t e)

-- The same calls, for one thread alone.
unfoldable pub replay : String → List Call → Held → Held
replay u [] s = s
replay u (add t name ∷ cs) s = replay u cs (if t == u then hold name s else s)
replay u (remove t ∷ cs) s = replay u cs (if t == u then release s else s)

remove_thread_id-length :
    (t : String) (e : LockEntry)
    → length (remove_thread_id t e).threads_queue ≤ length e.threads_queue
unfolding remove_thread_id release_one
remove_thread_id-length t e = ground (arith, length-retain (λ x. not (x == t)) e.threads_queue)

add_thread_id-length :
    (t name : String) (e : LockEntry)
    → length (add_thread_id t name e).threads_queue ≡ length e.threads_queue + 1
unfolding add_thread_id
add_thread_id-length t name e = omega (arith, length-append e.threads_queue (t ∷ []))

-- From a valid entry every run of calls that leaves room in the queue ends in a valid entry.
run_refines :
    (cs : List Call) (e : LockEntry)
    → IsValid e
    → length e.threads_queue + length cs < usize_mod
    → IsValid (run cs e) × ((u : String) → held (run cs e) u ≡ replay u cs (held e u))
unfolding run replay
run_refines [] e h room = (h, λ u. refl)
run_refines (add t name ∷ cs) e h room =
    let fits : length e.threads_queue + 1 < usize_mod = omega arith in
    let (valid, same) =
      run_refines cs (add_thread_id t name e) (add_thread_id-IsValid t name e h fits)
        (omega (arith, add_thread_id-length t name e)) in
    (valid, λ u. same u ∙ ap (replay u cs) (held-add_thread_id t name e h fits u))
run_refines (remove t ∷ cs) e h room =
    let (valid, same) =
      run_refines cs (remove_thread_id t e) (remove_thread_id-IsValid t e h)
        (omega (arith, remove_thread_id-length t e)) in
    (valid, λ u. same u ∙ ap (replay u cs) (held-remove_thread_id t e h u))

-- After any fewer than 2 ^ 64 calls on a new entry, each thread has the holds and the lock name that
-- its own calls alone come to, and the collections of the entry agree.
pub run-new_refines :
    (cs : List Call)
    → length cs < usize_mod
    → IsValid (run cs new) × ((u : String) → held (run cs new) u ≡ replay u cs none)
run-new_refines cs room = unfold new lookup in run_refines cs new new-IsValid (omega arith)

module _ (counters : String → Option ℕ) (names : String → Option String) where
  empty-held :
      (queue : List String)
      → ((u : String) → Agree (counters u) (names u) (count u queue))
      → is_empty queue ≡ true
      → (u : String) → pair (counters u) (names u) ≡ none
  empty-held [] agree h u = ground (arith, agree u)
  empty-held (t ∷ ts) agree h u = cc

  held-empty :
      (queue : List String)
      → ((u : String) → Agree (counters u) (names u) (count u queue))
      → ((u : String) → pair (counters u) (names u) ≡ none)
      → is_empty queue ≡ true
  held-empty [] agree h = refl
  held-empty (t ∷ ts) agree h = ground (arith, agree t, h t, string_eq.beq_iff t t)

-- The queue of a valid entry is empty exactly when no thread holds the lock.
pub has_no_threads_iff :
    (e : LockEntry) → IsValid e → (has_no_threads e ≡ true) ↔ ((u : String) → held e u ≡ none)
unfolding has_no_threads
has_no_threads_iff e h =
    (empty-held _ _ e.threads_queue h.agree, held-empty _ _ e.threads_queue h.agree)
