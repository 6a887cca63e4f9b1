-- ===== src/PubSub/RedissonLockEntry/Tests.antt =====
-- An entry whose signal is a permit.
use redisson_rs.Base.{Bool, true, false, none, [], ◌∷◌, List, ◌≡◌, refl}
use redisson_rs.PubSub.RedissonLockEntry.{
  Notify, IsNotify, notified, timed_out, limit, wait, Call, adding, removing, running_one,
  running_all, after, waiters_count, waits-after,
}

abbrev permit : Notify
permit = record {
  State = Bool;
  new = false;
  notify_one = λ s. true;
  notify_waiters = λ s. s;
  notified = λ s. (false, s);
  has_permit = λ s. s;
}

permit-IsNotify : IsNotify permit
permit-IsNotify = record {
  none_at_first = refl;
  one_stored = λ s. refl;
  none_stored = λ s. refl;
  over_at_once = λ s. refl;
  taken = λ s. refl;
}

-- Two unlock messages come before two tasks wait.
abbrev calls : List (Call permit)
calls = running_one ∷ running_one ∷ removing ∷ adding 2 ∷ adding 1 ∷ []

waits-after_example :
    let first = wait permit none (after permit calls) in
    (first.1 ≡ (notified, 0))
    × ((wait permit none first.0).1 ≡ (timed_out, limit))
    × (waiters_count permit first.0 ≡ 1)
waits-after_example = waits-after permit permit-IsNotify calls

-- A read lock's message that comes too early is lost.
lost : (wait permit none (after permit (running_all ∷ []))).1 ≡ (timed_out, limit)
unfolding wait
lost = refl
