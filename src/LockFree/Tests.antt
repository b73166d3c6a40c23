-- ===== src/LockFree/Tests.antt =====
-- SPSCQueue's theorems on a short run of its threads.
use counter_drone_server.Base.{
  ℕ, ◌+◌, ◌≤◌, ◌<◌, ◌≡◌, ◌≢◌, refl, arith, List, [], ◌∷◌, ◌++◌, true, ok, fault, length,
}
use counter_drone_server.LockFree.Spsc.{
  SpscQueue, Producer, loading_tail, checking_full, writing, storing_tail, pushed, Consumer,
  checking_empty, reading, all_loading_head, drained, available_items, new_queue, producer_step,
  consumer_step, consumer_run, System, call_push, produce, push_returns, call_pop, consume, Reach,
  start, later,
}
use counter_drone_server.LockFree.Spsc.Fifo.{
  received_in_order, no_race, refused_when_full, empty_when_refused,
}
use counter_drone_server.LockFree.Spsc.Drain.{pop_all_takes_all}

-- A move leaves zero behind.
abbrev moved : ℕ → ℕ
moved item = 0

abbrev empty_queue : SpscQueue ℕ
empty_queue = record { buffer = 0 ∷ 0 ∷ []; capacity = 2; head = 0; tail = 0 }

abbrev one_item : SpscQueue ℕ
one_item = record { buffer = 7 ∷ 0 ∷ []; capacity = 2; head = 0; tail = 1 }

abbrev system : SpscQueue ℕ → Producer ℕ → Consumer ℕ → System ℕ
system q p c = record { queue = q; producer = p; consumer = c; received = [] }

begun : Reach moved 0 1 [] (system empty_queue (loading_tail 7) Consumer.outside)
unfolding new_queue
begun = later start (call_push (system empty_queue Producer.outside Consumer.outside) 7 refl)

-- Room for one item: it is pushed, and a second push comes to its comparison.
full_comes : Reach moved 0 1 (7 ∷ []) (system one_item (checking_full 8 1) Consumer.outside)
unfolding producer_step
full_comes =
    later
      (later
        (later
          (later
            (later
              (later (later begun (produce _ empty_queue (checking_full 7 0) refl))
                (produce _ empty_queue (writing 7 0 1) refl))
              (produce _ (record one_item { tail = 0 }) (storing_tail 7 1) refl))
            (produce _ one_item (pushed true) refl))
          (push_returns _ true refl))
        (call_push _ 8 refl))
      (produce _ one_item (checking_full 8 1) refl)

full_system : System ℕ
full_system = system one_item (checking_full 8 1) Consumer.outside

received_in_order_example :
    (rest : List ℕ) × (7 ∷ [] ≡ [] ++ rest)
    × (length rest ≤ 1)
    × (producer_step (checking_full 8 1) one_item ≢ fault)
    × (consumer_step moved Consumer.outside one_item ≢ fault)
received_in_order_example = received_in_order (omega arith) full_comes

refused_when_full_example : ◌≡◌ {A = ℕ} 1 (0 + 1)
unfolding producer_step
refused_when_full_example = refused_when_full (omega arith) full_comes 8 1 refl refl

-- `pop` on a queue where nothing has been put in.
empty_comes : Reach moved 0 1 [] (system empty_queue (loading_tail 7) (checking_empty 0))
unfolding consumer_step
empty_comes = later (later begun (call_pop _ refl)) (consume _ empty_queue (checking_empty 0) refl)

empty_when_refused_example : ◌≡◌ {A = List ℕ} [] []
unfolding consumer_step
empty_when_refused_example = empty_when_refused (omega arith) empty_comes 0 refl refl

pop_all_takes_all_example :
    (q : SpscQueue ℕ) × ((all : List ℕ) × (consumer_run moved 5 all_loading_head one_item
        ≡ ok (q, drained all))
      × (7 ∷ [] ≡ [] ++ all)
      × (length all ≡ available_items 2 0 1))
pop_all_takes_all_example = pop_all_takes_all 5 (omega arith) full_comes refl (omega arith)

-- Room for two: one item is in the queue, and both threads are at the buffer.
abbrev wide : SpscQueue ℕ
wide = record { buffer = 7 ∷ 0 ∷ 0 ∷ []; capacity = 3; head = 0; tail = 1 }

abbrev wide_empty : SpscQueue ℕ
wide_empty = record { buffer = 0 ∷ 0 ∷ 0 ∷ []; capacity = 3; head = 0; tail = 0 }

one_stored : Reach moved 0 2 (7 ∷ []) (system wide (pushed true) Consumer.outside)
unfolding producer_step new_queue
one_stored =
    later
      (later
        (later
          (later
            (later start (call_push (system wide_empty Producer.outside Consumer.outside) 7 refl))
            (produce _ wide_empty (checking_full 7 0) refl))
          (produce _ wide_empty (writing 7 0 1) refl))
        (produce _ (record wide { tail = 0 }) (storing_tail 7 1) refl))
      (produce _ wide (pushed true) refl)

both_at_buffer : Reach moved 0 2 (7 ∷ []) (system wide (writing 8 1 2) (reading 0))
unfolding producer_step consumer_step
both_at_buffer =
    later
      (later
        (later
          (later
            (later (later (later one_stored (push_returns _ true refl)) (call_push _ 8 refl))
              (produce _ wide (checking_full 8 1) refl))
            (produce _ wide (writing 8 1 2) refl))
          (call_pop _ refl))
        (consume _ wide (checking_empty 0) refl))
      (consume _ wide (reading 0) refl)

no_race_example : (◌≡◌ {A = ℕ} 1 0 → ⊥) × (1 < 3) × (0 < 3)
no_race_example = no_race (omega arith) both_at_buffer 1 0 refl refl
