-- ===== src/SharedQueue/Threads/Hang.antt =====
-- The wake-up at shutdown can be lost: `wake_up_all` notifies without the mutex.
use counter_drone_server.Base.{◌≡◌, refl, [], true, false}
use counter_drone_server.SharedQueue.Threads.{
  outside, checking, going_to_sleep, asleep, Monitor, Step, call_pop_all, predicate_false,
  fall_asleep, stop, wake_up_all, Steps, none_yet, then,
}

module _ {ℓ} {T : Type ℓ} where
  -- The consumer sleeps, the system has stopped, and all who could wake it have done so.
  pub record IsHung (s : Monitor T) : Type ℓ where
    pub sleeps : s.phase ≡ asleep
    pub stopped : s.keep_running ≡ false
    pub woke : s.woke_all ≡ true
    pub unnotified : s.notifications ≡ 0

  -- The system can hang at shutdown. From a consumer outside of a call, with an empty queue and
  -- nothing on its way, steps without a push lead to a state where the consumer sleeps although the
  -- flag is cleared and `wake_up_all` has been called, and no notification is on its way.
  pub shutdown_can_hang :
      (s : Monitor T)
      → s.phase ≡ outside
      → s.manager.shared_data ≡ []
      → s.keep_running ≡ true
      → s.woke_all ≡ false
      → s.notifications ≡ 0
      → (t : Monitor T) × Steps s [] t × IsHung t
  shutdown_can_hang s out empty runs quiet none_due = (
    hung,
    then
        (then (then (then (then none_yet (call_pop_all s out)) decides) (stop _))
          (wake_up_all _ refl quiet))
        (fall_asleep _ refl),
    is_hung,
  )
    where
      decides : Step (record s { phase = checking }) [] (record s { phase = going_to_sleep })
      decides = predicate_false (record s { phase = checking }) refl (rw (empty, runs) refl)

      hung : Monitor T
      hung = record s { phase = asleep; keep_running = false; woke_all = true }

      is_hung : IsHung hung
      is_hung = record { sleeps = refl; stopped = refl; woke = refl; unnotified = none_due }
