-- ===== src/SharedQueue/Tests.antt =====
-- The queue's theorems at small queues.
use counter_drone_server.Base.{◌≡◌, ◌≤◌, refl, ℕ, List, [], ◌∷◌, ◌++◌, true, false}
use counter_drone_server.SharedQueue.{SharedDataManager, push_data}
use counter_drone_server.SharedQueue.Fifo
use counter_drone_server.SharedQueue.Threads.{
  Monitor, Steps, outside, asleep, content, call_pop_all, predicate_false, fall_asleep, push,
  none_yet, then, interleaved_content,
}
use counter_drone_server.SharedQueue.Threads.Wake.{no_lost_item}
use counter_drone_server.SharedQueue.Threads.Hang.{IsHung, shutdown_can_hang}
use counter_drone_server.SharedQueue.Fifo.{Call, pop, take_all, calls, pushed, calls-pushed}

abbrev one_item : SharedDataManager ℕ
one_item = record { shared_data = 7 ∷ [] }

abbrev five_calls : List (Call ℕ)
five_calls = Fifo.push 8 ∷ pop true true ∷ Fifo.push 9 ∷ take_all false ∷ Fifo.push 10 ∷ []

calls-pushed_example :
    let (items, m) = calls five_calls one_item in
    items ++ m.shared_data ≡ (7 ∷ []) ++ 8 ∷ 9 ∷ 10 ∷ []
calls-pushed_example = calls-pushed five_calls one_item

abbrev idle : Monitor ℕ
idle = record {
  manager = record { shared_data = [] };
  keep_running = true;
  woke_all = false;
  notifications = 0;
  phase = outside;
  received = [];
}

-- The consumer falls asleep, and an item arrives.
abbrev sleeping : Monitor ℕ
sleeping = record idle { phase = asleep }

abbrev due : Monitor ℕ
due = record sleeping { manager = record { shared_data = 5 ∷ [] }; notifications = 1 }

arrival : Steps idle (5 ∷ []) due
unfolding push_data
arrival =
    then
      (then (then (then none_yet (call_pop_all idle refl)) (predicate_false _ refl refl))
        (fall_asleep _ refl))
      (push sleeping 5 refl)

interleaved_content_example : content due ≡ content idle ++ 5 ∷ []
interleaved_content_example = interleaved_content arrival

no_lost_item_example : 1 ≤ 1
no_lost_item_example = no_lost_item refl arrival refl (λ e. cc)

shutdown_can_hang_example : (t : Monitor ℕ) × Steps idle [] t × IsHung t
shutdown_can_hang_example = shutdown_can_hang idle refl refl refl refl refl
