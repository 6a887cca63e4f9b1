-- ===== src/PubSub/RedissonLockEntry.antt =====
-- redisson-rs/src/pubsub/redisson_lock_entry.rs: those who wait for a lock, and the signal that wakes
-- them. tokio's `Notify` is a parameter, seen while no task waits on it.
mod Tests
use redisson_rs.Base.{
  ℕ, suc, ◌-◌, ◌+◌, ◌≤◌, Bool, true, false, ◌||◌, Option, none, some, List, [], ◌∷◌, ◌++◌, map, any,
  length, is_empty, ltb, nat_beq, if◌then◌else◌, arith, ◌≡◌, refl, ap, ◌∙◌,
}
use redisson_rs.Base.Int.{usize_mod}

-- `tokio::sync::Notify`; `notified` says whether a wait that begins is over at once.
pub record Notify : Type 1 where
  pub State : Type 0
  pub new : State
  pub notify_one : State → State
  pub notify_waiters : State → State
  pub notified : State → State × Bool
  pub has_permit : State → Bool

-- Its documentation: `notify_one` stores a permit if no task waits, one at most; `notify_waiters`
-- stores none; a wait takes the permit, and is over at once if there was one.
pub record IsNotify (t : Notify) : Type 0 where
  pub none_at_first : t.has_permit t.new ≡ false
  pub one_stored : (s : t.State) → t.has_permit (t.notify_one s) ≡ true
  pub none_stored : (s : t.State) → t.has_permit (t.notify_waiters s) ≡ t.has_permit s
  pub over_at_once : (s : t.State) → (t.notified s).1 ≡ t.has_permit s
  pub taken : (s : t.State) → t.has_permit (t.notified s).0 ≡ false

abbrev pub TaskId : Type 0
TaskId = ℕ

pub record RedissonLockEntry (t : Notify) : Type 0 where
  pub waiters : List TaskId
  pub signal : t.State
  pub subscribe_count : ℕ

-- `Vec::pop`
abbrev pub pop : List TaskId → List TaskId
pop [] = []
pop (x ∷ []) = []
pop (x ∷ y ∷ xs) = x ∷ pop (y ∷ xs)

-- How a wait ends.
pub data Wake : Type 0 where
  notified timed_out : Wake

-- The time limit of `wait`, in milliseconds.
abbrev pub limit : ℕ
limit = 60_000

module _ (t : Notify) where
  abbrev pub new : RedissonLockEntry t
  new = record { waiters = []; signal = t.new; subscribe_count = 0 }

  abbrev pub add_waiter : TaskId → RedissonLockEntry t → RedissonLockEntry t
  add_waiter id e = record e { waiters = e.waiters ++ (id ∷ []) }

  abbrev pub remove_waiter : RedissonLockEntry t → RedissonLockEntry t
  remove_waiter e = record e { waiters = pop e.waiters }

  abbrev pub waiters_count : RedissonLockEntry t → ℕ
  waiters_count e = length e.waiters

  abbrev pub has_no_waiters : RedissonLockEntry t → Bool
  has_no_waiters e = is_empty e.waiters

  abbrev pub try_run_listener : RedissonLockEntry t → RedissonLockEntry t
  try_run_listener e = record e { signal = t.notify_one e.signal }

  abbrev pub try_run_all_listeners : RedissonLockEntry t → RedissonLockEntry t
  try_run_all_listeners e = record e { signal = t.notify_waiters e.signal }

  -- `wait`, with the time of the first signal after it began, if there is one: how it ends, and
  -- after how long. A signal at the limit itself comes too late.
  unfoldable pub wait : Option ℕ → RedissonLockEntry t → RedissonLockEntry t × (Wake × ℕ)
  wait signalled e =
      let (s, over) = t.notified e.signal in
      (
        record e { signal = s },
        if over then (notified, 0) else (elim signalled [
          | none ↦ (timed_out, limit)
          | some at ↦ if ltb at limit then (notified, at) else (timed_out, limit)
        ]),
      )

  pub data Call : Type 0 where
    adding : TaskId → Call
    removing running_one running_all : Call

  abbrev step : Call → RedissonLockEntry t → RedissonLockEntry t
  step (adding id) e = add_waiter id e
  step removing e = remove_waiter e
  step running_one e = try_run_listener e
  step running_all e = try_run_all_listeners e

  -- After the calls, the latest of them first.
  abbrev pub after : List Call → RedissonLockEntry t
  after [] = new
  after (c ∷ h) = step c (after h)

  abbrev pub runs_one : Call → Bool
  runs_one running_one = true
  runs_one _ = false

  -- How many waiters the calls leave; a removal of none does nothing.
  abbrev pub balance : List Call → ℕ
  balance [] = 0
  balance (adding id ∷ h) = suc (balance h)
  balance (removing ∷ h) = balance h - 1
  balance (_ ∷ h) = balance h

  length-pop : (xs : List TaskId) → length (pop xs) ≡ length xs - 1
  length-pop [] = refl
  length-pop (x ∷ []) = omega arith
  length-pop (x ∷ y ∷ xs) = omega (arith, length-pop (y ∷ xs))

  length-snoc : (xs : List TaskId) (x : TaskId) → length (xs ++ (x ∷ [])) ≡ suc (length xs)
  length-snoc [] x = refl
  length-snoc (y ∷ xs) x = ap suc (length-snoc xs x)

  waiters_count-after : (h : List Call) → waiters_count (after h) ≡ balance h
  waiters_count-after [] = refl
  waiters_count-after (adding id ∷ h) =
      length-snoc (after h).waiters id ∙ ap suc (waiters_count-after h)
  waiters_count-after (removing ∷ h) =
      length-pop (after h).waiters ∙ ap (λ n. n - 1) (waiters_count-after h)
  waiters_count-after (running_one ∷ h) = waiters_count-after h
  waiters_count-after (running_all ∷ h) = waiters_count-after h

  module _ (tokio : IsNotify t) where
    has_permit-after : (h : List Call) → t.has_permit (after h).signal ≡ any runs_one h
    has_permit-after [] = tokio.none_at_first
    has_permit-after (adding id ∷ h) = has_permit-after h
    has_permit-after (removing ∷ h) = has_permit-after h
    has_permit-after (running_one ∷ h) = tokio.one_stored (after h).signal
    has_permit-after (running_all ∷ h) = tokio.none_stored (after h).signal ∙ has_permit-after h

    -- After any calls made while no one waits, a wait is over at once if one of them was
    -- `try_run_listener`, and otherwise, when no signal follows, lasts for the whole limit,
    -- however often `try_run_all_listeners` was called. A second wait lasts for the whole limit in
    -- any case, however many calls there were. The waiters counted are those added less those
    -- removed.
    pub waits-after :
        (h : List Call)
        → let first = wait none (after h) in
          (first.1 ≡ (if any runs_one h then (notified, 0) else (timed_out, limit)))
          × ((wait none first.0).1 ≡ (timed_out, limit))
          × (waiters_count first.0 ≡ balance h)
    unfolding wait
    waits-after h =
        let s = (after h).signal in
        let over = tokio.over_at_once s ∙ has_permit-after h in
        let second = tokio.over_at_once (t.notified s).0 ∙ tokio.taken s in
        (
          ap (λ b. if b then (notified, 0) else (timed_out, limit)) over,
          ap (λ b. if b then (notified, 0) else (timed_out, limit)) second,
          waiters_count-after h,
        )
