-- ===== src/SharedQueue/Threads/Wake.antt =====
-- No wake-up for an item is lost: why `push_data` may notify after it has unlocked.
use counter_drone_server.Base.{
  ◌≤◌, ◌≡◌, ◌≢◌, ◌⊎◌, ap, inl, inr, refl, arith, List, [], ◌∷◌, Bool, false, not, ◌||◌,
}
use counter_drone_server.SharedQueue.{is_empty}
use counter_drone_server.SharedQueue.Threads.{
  Phase, outside, checking, going_to_sleep, asleep, woken, leaving, notified, holds_mutex, Monitor,
  Step, call_pop_all, predicate_true, predicate_false, fall_asleep, spurious, lock_again, return,
  push, notify_one, stop, wake_up_all, finish, Steps, none_yet, then,
}

notified-going_to_sleep : (p : Phase) → notified p ≡ going_to_sleep → p ≡ going_to_sleep
notified-going_to_sleep outside e = cc
notified-going_to_sleep checking e = cc
notified-going_to_sleep going_to_sleep e = refl
notified-going_to_sleep asleep e = cc
notified-going_to_sleep woken e = cc
notified-going_to_sleep leaving e = cc

notified-asleep : (p : Phase) → notified p ≢ asleep
notified-asleep outside e = cc
notified-asleep checking e = cc
notified-asleep going_to_sleep e = cc
notified-asleep asleep e = cc
notified-asleep woken e = cc
notified-asleep leaving e = cc

module _ {ℓ} {T : Type ℓ} where
  -- On the way to sleep the queue is empty, and asleep it is or a notification is on its way.
  pub record IsAttended (s : Monitor T) : Type ℓ where
    pub on_the_way : s.phase ≡ going_to_sleep → s.manager.shared_data ≡ []
    pub in_wait : s.phase ≡ asleep → (s.manager.shared_data ≡ []) ⊎ (1 ≤ s.notifications)

  awake : (s : Monitor T) → s.phase ≢ going_to_sleep → s.phase ≢ asleep → IsAttended s
  awake s a b = record { on_the_way = λ e. absurd (a e); in_wait = λ e. absurd (b e) }

  no_data :
      (running : Bool) (queue : List T) → not (is_empty queue) || not running ≡ false → queue ≡ []
  no_data running [] e = refl
  no_data running (x ∷ queue) e = cc

  Step-IsAttended :
      {s t : Monitor T} {items : List T} → Step s items t → IsAttended s → IsAttended t
  unfolding finish
  Step-IsAttended (call_pop_all s h) a = awake _ (λ e. cc) (λ e. cc)
  Step-IsAttended (predicate_true s h p) a = awake _ (λ e. cc) (λ e. cc)
  Step-IsAttended (predicate_false s h p) a = record {
    on_the_way = λ e. no_data s.keep_running s.manager.shared_data p;
    in_wait = λ e. cc;
  }
  Step-IsAttended (fall_asleep s h) a = record {
    on_the_way = λ e. cc;
    in_wait = λ e. inl (a.on_the_way h);
  }
  Step-IsAttended (spurious s h) a = awake _ (λ e. cc) (λ e. cc)
  Step-IsAttended (lock_again s h) a = awake _ (λ e. cc) (λ e. cc)
  Step-IsAttended (return s h) a = awake _ (λ e. cc) (λ e. cc)
  Step-IsAttended (push s item free) a = record {
    on_the_way = λ e. absurd (held s.phase e free);
    in_wait = λ e. inr (omega arith);
  }
    where
      held : (p : Phase) → p ≡ going_to_sleep → holds_mutex p ≢ false
      held p e f = cc (ap holds_mutex e)
  Step-IsAttended (notify_one s n h) a = record {
    on_the_way = λ e. a.on_the_way (notified-going_to_sleep s.phase e);
    in_wait = λ e. absurd (notified-asleep s.phase e);
  }
  Step-IsAttended (stop s) a = record { on_the_way = a.on_the_way; in_wait = a.in_wait }
  Step-IsAttended (wake_up_all s r w) a = record {
    on_the_way = λ e. a.on_the_way (notified-going_to_sleep s.phase e);
    in_wait = λ e. absurd (notified-asleep s.phase e);
  }

  Steps-IsAttended :
      {s t : Monitor T} {items : List T} → Steps s items t → IsAttended s → IsAttended t
  Steps-IsAttended none_yet a = a
  Steps-IsAttended (then steps step) a = Step-IsAttended step (Steps-IsAttended steps a)

  -- When the consumer starts outside of a call, then however the threads interleave, it never
  -- sleeps on an item that nobody is going to tell it of: asleep, with items in the queue, there is
  -- a producer on the way to its `notify_one`.
  pub no_lost_item :
      {s t : Monitor T} {items : List T}
      → s.phase ≡ outside
      → Steps s items t
      → t.phase ≡ asleep
      → t.manager.shared_data ≢ []
      → 1 ≤ t.notifications
  no_lost_item {s} start steps sleeps ne =
      elim ((Steps-IsAttended steps (awake s (λ e. cc) (λ e. cc))).in_wait sleeps) [
        | inl e ↦ absurd (ne e)
        | inr n ↦ n
      ]
