-- ===== src/LockFree/Mpmc/Tests.antt =====
-- MPMCQueue's theorems on short runs of its threads, with two cells.
use counter_drone_server.Base.{
  ℕ, ◌+◌, ◌≤◌, ◌≡◌, ◌≢◌, ◌⊎◌, inl, inr, refl, arith, bit_and, List, [], ◌∷◌, ◌++◌, some, Bool,
  false, Outcome, ok, fault, out_of_fuel, get_elem?, All,
}
use counter_drone_server.LockFree.Mpmc.{
  MpmcQueue, Thread, outside, new_queue, thread_step, System, call_push, call_pop, run, Reach,
  start, later,
}
use counter_drone_server.LockFree.Mpmc.Valid.{writes, reads}
use counter_drone_server.LockFree.Mpmc.Exclusive.{Owns, no_shared_cell, nothing_to_pop}
use counter_drone_server.LockFree.Mpmc.Full.{refused_when_occupied}
use counter_drone_server.LockFree.Mpmc.Takes.{Once, Out}
use counter_drone_server.LockFree.Mpmc.Delivered.{each_item-Once, taken_is_handed-Out}

-- A system that the steps reach.
abbrev Run : Type 0
Run = (items : List ℕ) × ((s : System ℕ) × Reach 0 2 items s)

abbrev begun : Run
begun = ([], (_, start))

abbrev pushes : (r : Run) (i x : ℕ) → r.1.0.threads i ≡ outside → Run
pushes (items, (s, steps)) i x here = (items ++ [], (_, later steps (call_push s i x here)))

abbrev pops : (r : Run) (i : ℕ) → r.1.0.threads i ≡ outside → Run
pops (items, (s, steps)) i here = (items ++ [], (_, later steps (call_pop s i here)))

abbrev after :
    (r : Run) (i : ℕ) (o : Outcome (MpmcQueue ℕ × Thread ℕ))
    → thread_step false (r.1.0.threads i) (r.1.0.queue) ≡ o
    → Run
after (items, (s, steps)) i (ok (q, p)) e = (_, (_, later steps (run s i false q p e)))
after r i fault e = r
after r i out_of_fuel e = r

abbrev goes : Run → ℕ → Run
goes r i = after r i (thread_step false (r.1.0.threads i) (r.1.0.queue)) refl

-- Thread 0 has reserved a cell for 7.
abbrev reserved_one : Run
reserved_one = goes (goes (goes (pushes begun 0 7 refl) 0) 0) 0

-- It has written 7 and passed the cell on.
abbrev one_in : Run
one_in = goes (goes reserved_one 0) 0

thread_1_idle : one_in.1.0.threads 1 ≡ outside
unfolding thread_step new_queue
thread_1_idle = refl

-- Thread 1 has reserved the item to read it.
abbrev one_reading : Run
one_reading = goes (goes (goes (pops one_in 1 thread_1_idle) 1) 1) 1

thread_2_idle : one_reading.1.0.threads 2 ≡ outside
unfolding thread_step new_queue
thread_2_idle = refl

-- Thread 2 has reserved the other cell for 8.
abbrev both_at_buffer : Run
both_at_buffer = goes (goes (goes (pushes one_reading 2 8 thread_2_idle) 2) 2) 2

no_shared_cell_example : bit_and 0 1 ≢ bit_and 1 1
unfolding thread_step new_queue
no_shared_cell_example =
    no_shared_cell 1 (omega arith) (omega arith) (both_at_buffer.1.1) 1 2 0 1 (omega arith)
      (inr refl) (inl refl)

abbrev seven_out : List (ℕ × ℕ)
seven_out = (0, 7) ∷ []

-- The item is out.
abbrev one_out : Run
one_out = goes (goes one_reading 1) 1

each_item-Once_example :
    All (λ (d : ℕ × ℕ). get_elem? (7 ∷ []) (d.0) ≡ some (d.1)) seven_out
    × Once seven_out
    × (1 ≤ 1)
    × ((i : ℕ) (spurious : Bool)
        → thread_step spurious (one_out.1.0.threads i) (one_out.1.0.queue) ≢ fault)
unfolding thread_step new_queue
each_item-Once_example = each_item-Once 1 (omega arith) (omega arith) (one_out.1.1)

taken_is_handed-Out_example : Out seven_out 0 ⊎ ((j : ℕ) × (reads (one_out.1.0.threads j) ≡ some 0))
unfolding thread_step new_queue
taken_is_handed-Out_example =
    taken_is_handed-Out 1 0 (omega arith) (omega arith) (one_out.1.1) (omega arith)

-- A second item, then a third that finds both cells full.
abbrev two_in : Run
two_in = goes (goes (goes (goes (goes (pushes one_in 1 8 thread_1_idle) 1) 1) 1) 1) 1

thread_3_idle : two_in.1.0.threads 2 ≡ outside
unfolding thread_step new_queue
thread_3_idle = refl

abbrev third_checks : Run
third_checks = goes (pushes two_in 2 9 thread_3_idle) 2

refused_when_occupied_example :
    (2 ≤ 2) × ((0 + 2 ≤ 2) ⊎ ((j : ℕ) × Owns (third_checks.1.0.threads j) 0))
unfolding thread_step new_queue
refused_when_occupied_example =
    refused_when_occupied 1 (omega arith) (omega arith) (third_checks.1.1) 2 false 9 2 refl refl

abbrev one_pops : Run
one_pops = goes (pops begun 1 refl) 1

nothing_to_pop_example : ◌≡◌ {A = ℕ} 0 0 ⊎ ((j : ℕ) × (writes (one_pops.1.0.threads j) ≡ some 0))
unfolding thread_step new_queue
nothing_to_pop_example =
    nothing_to_pop 1 (omega arith) (omega arith) (one_pops.1.1) 1 false 0 refl refl
