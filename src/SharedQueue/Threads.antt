-- ===== src/SharedQueue/Threads.antt =====
-- include/ThreadsSharedDataManager.h: the steps of the threads that share a queue. One consumer
-- calls `pop_all` again and again, any number of producers call `push_data`, and one thread calls
-- `wake_up_all` after the flag `g_keep_running_system` has been cleared. Each constructor of `Step`
-- is what happens between two points where another thread can come in.
pub mod Wake
pub mod Hang
use counter_drone_server.Base.{
  ℕ, zero, suc, ◌+◌, ◌≤◌, ◌≡◌, ◌⊎◌, inl, inr, refl, sym, ap, ◌∙◌, arith, List, [], ◌∷◌, ◌++◌,
  append-nil, append_assoc, Bool, true, false, not, ◌||◌,
}
use counter_drone_server.SharedQueue.{SharedDataManager, is_empty, push_data, may_go_on, pop_all}
use counter_drone_server.SharedQueue.Fifo.{pop_all_lem}

-- Where the consumer is. It holds `m_mutex` in `checking`, `going_to_sleep` and `leaving`. The
-- predicate of the wait is evaluated at the end of `checking`; `asleep` is inside the wait, with
-- the mutex released, and `woken` waits for the mutex. `leaving` is what follows the wait.
pub data Phase : Type 0 where
  outside checking going_to_sleep asleep woken leaving : Phase

abbrev pub holds_mutex : Phase → Bool
holds_mutex outside = false
holds_mutex checking = true
holds_mutex going_to_sleep = true
holds_mutex asleep = false
holds_mutex woken = false
holds_mutex leaving = true

-- A notification reaches the consumer only inside the wait.
abbrev pub notified : Phase → Phase
notified outside = outside
notified checking = checking
notified going_to_sleep = going_to_sleep
notified asleep = woken
notified woken = woken
notified leaving = leaving

-- `notifications` counts the producers between the end of their lock and their `notify_one`,
-- `woke_all` says that `wake_up_all` has been called, and `received` is what the calls of `pop_all`
-- have returned.
pub record Monitor {ℓ} (T : Type ℓ) : Type ℓ where
  pub manager : SharedDataManager T
  pub keep_running : Bool
  pub woke_all : Bool
  pub notifications : ℕ
  pub phase : Phase
  pub received : List T

module _ {ℓ} {T : Type ℓ} where
  -- The end of a call: `items` starts empty, and what it holds is received.
  unfoldable pub finish : Monitor T → Monitor T
  finish s =
      let (done, items, manager) = pop_all s.keep_running s.manager [] in
      record s { manager = manager; phase = outside; received = s.received ++ items }

  pub data Step : Monitor T → List T → Monitor T → Type ℓ where
    call_pop_all : (s : Monitor T) → s.phase ≡ outside → Step s [] (record s { phase = checking })
    predicate_true :
        (s : Monitor T)
        → s.phase ≡ checking
        → may_go_on s.keep_running s.manager ≡ true
        → Step s [] (record s { phase = leaving })
    predicate_false :
        (s : Monitor T)
        → s.phase ≡ checking
        → may_go_on s.keep_running s.manager ≡ false
        → Step s [] (record s { phase = going_to_sleep })
    fall_asleep :
        (s : Monitor T) → s.phase ≡ going_to_sleep → Step s [] (record s { phase = asleep })
    spurious : (s : Monitor T) → s.phase ≡ asleep → Step s [] (record s { phase = woken })
    lock_again : (s : Monitor T) → s.phase ≡ woken → Step s [] (record s { phase = checking })
    return : (s : Monitor T) → s.phase ≡ leaving → Step s [] (finish s)
    push :
        (s : Monitor T) (item : T)
        → holds_mutex s.phase ≡ false
        → Step s
            (item ∷ [])
            (record s { manager = push_data s.manager item; notifications = suc s.notifications })
    notify_one :
        (s : Monitor T) (n : ℕ)
        → s.notifications ≡ suc n
        → Step s [] (record s { notifications = n; phase = notified s.phase })
    stop : (s : Monitor T) → Step s [] (record s { keep_running = false })
    wake_up_all :
        (s : Monitor T)
        → s.keep_running ≡ false
        → s.woke_all ≡ false
        → Step s [] (record s { woke_all = true; phase = notified s.phase })

  -- The steps taken so far, and the items pushed by them.
  pub data Steps (s : Monitor T) : List T → Monitor T → Type ℓ where
    none_yet : Steps s [] s
    then :
        {items more : List T} {t u : Monitor T}
        → Steps s items t
        → Step t more u
        → Steps s (items ++ more) u

  -- What was received, and behind it what is in the queue.
  abbrev pub content : Monitor T → List T
  content s = s.received ++ s.manager.shared_data

  finish-content : (s : Monitor T) → content (finish s) ≡ content s
  unfolding finish
  finish-content s =
      let (items, emptied, done) = pop_all_lem s.keep_running s.manager [] in
      rw (items, emptied) (append-nil (s.received ++ s.manager.shared_data))

  Step-content :
      {s t : Monitor T} {items : List T} → Step s items t → content t ≡ content s ++ items
  unfolding push_data
  Step-content (call_pop_all s h) = sym (append-nil (content s))
  Step-content (predicate_true s h p) = sym (append-nil (content s))
  Step-content (predicate_false s h p) = sym (append-nil (content s))
  Step-content (fall_asleep s h) = sym (append-nil (content s))
  Step-content (spurious s h) = sym (append-nil (content s))
  Step-content (lock_again s h) = sym (append-nil (content s))
  Step-content (return s h) = finish-content s ∙ sym (append-nil (content s))
  Step-content (push s item h) = sym (append_assoc s.received s.manager.shared_data (item ∷ []))
  Step-content (notify_one s n h) = sym (append-nil (content s))
  Step-content (stop s) = sym (append-nil (content s))
  Step-content (wake_up_all s r w) = sym (append-nil (content s))

  -- However the threads interleave, what the consumer has received, with what is left in the queue
  -- behind it, is what there was at the start with all that was pushed behind it.
  pub interleaved_content :
      {s t : Monitor T} {items : List T} → Steps s items t → content t ≡ content s ++ items
  interleaved_content {s} none_yet = sym (append-nil (content s))
  interleaved_content {s} (then {items} {more} steps step) =
      Step-content step
      ∙ ap (λ (l : List T). l ++ more) (interleaved_content steps)
      ∙ append_assoc (content s) items more
