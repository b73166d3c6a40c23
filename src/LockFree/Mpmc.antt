-- ===== src/LockFree/Mpmc.antt =====
-- MPMCQueue of include/LockFreeSharedDataManager.h: any number of threads push and pop, and each
-- cell carries the sequence number that says whose turn it is. Each step of a thread ends with one
-- access to what the threads share. Memory is taken as sequentially consistent: a sequence number is
-- stored with release after the access to the item that it covers, and loaded with acquire before.
pub mod Valid
pub mod Replace
pub mod Reserve
pub mod Change
pub mod Store
pub mod Sound
pub mod Advance
pub mod Steps
pub mod Runs
pub mod Exclusive
pub mod Full
pub mod Takes
pub mod Delivered
mod Tests
use counter_drone_server.Base.{
  ℕ, zero, suc, ◌+◌, ◌-◌, ◌^◌, ◌<◌, ◌≡◌, bit_and, List, [], ◌∷◌, ◌++◌, Bool, true, false, not, ◌&&◌,
  ◌||◌, Option, none, some, if◌then◌else◌, ltb, ◌==◌, Outcome, ok, fault, ◌>>=◌, get_elem?, set,
}
use counter_drone_server.Packet.{u64}

-- `item` is the source's `data`.
pub record Cell {ℓ} (T : Type ℓ) : Type ℓ where
  pub sequence : ℕ
  pub item : T

pub record MpmcQueue {ℓ} (T : Type ℓ) : Type ℓ where
  pub buffer : List (Cell T)
  pub capacity_mask : ℕ
  pub enqueue_pos : ℕ
  pub dequeue_pos : ℕ

-- Where a thread is. In `push`: before it loads the position, before it loads the sequence number
-- and branches, before the exchange, before it writes the item, before it stores the sequence
-- number, and with the result. In `pop` likewise, with the item that it has read.
pub data Thread {ℓ} (T : Type ℓ) : Type ℓ where
  outside : Thread T
  push_loading : (data_in : T) → Thread T
  push_checking : (data_in : T) (pos : ℕ) → Thread T
  push_swapping : (data_in : T) (pos : ℕ) → Thread T
  push_writing : (data_in : T) (pos : ℕ) → Thread T
  push_releasing : (pos : ℕ) → Thread T
  pushed : (done : Bool) → Thread T
  pop_loading : Thread T
  pop_checking : (pos : ℕ) → Thread T
  pop_swapping : (pos : ℕ) → Thread T
  pop_reading : (pos : ℕ) → Thread T
  pop_releasing : (out_data : T) (pos : ℕ) → Thread T
  popped : (out_data : Option T) → Thread T

-- The sign of `dif`.
pub data Sign : Type 0 where
  negative null positive : Sign

-- A `size_t` as `intptr_t`, moved up by 2^63.
abbrev pub biased : ℕ → ℕ
biased n = u64 (n + 2 ^ 63)

-- `(intptr_t)a - (intptr_t)b`, whose overflow is undefined.
abbrev pub dif : ℕ → ℕ → Outcome Sign
dif a b =
    if ltb (biased b + (2 ^ 63 - 1)) (biased a) || ltb (biased a + 2 ^ 63) (biased b)
    then fault
    else if a == b
    then ok null
    else if ltb (biased a) (biased b)
    then ok negative
    else ok positive

-- `compare_exchange_weak`, which may also fail for no reason.
abbrev pub exchanges : Bool → ℕ → ℕ → Bool
exchanges spurious expected current = not spurious && (current == expected)

module _ {ℓ} {T : Type ℓ} where
  -- The constructor: `resize` makes the cells, and the loop numbers them.
  abbrev pub numbered : T → ℕ → ℕ → List (Cell T)
  numbered value i zero = []
  numbered value i (suc n) = record { sequence = i; item = value } ∷ numbered value (i + 1) n

  unfoldable pub new_queue : T → ℕ → MpmcQueue T
  new_queue value capacity = record {
    buffer = numbered value 0 capacity;
    capacity_mask = u64 (capacity + (2 ^ 64 - 1));
    enqueue_pos = 0;
    dequeue_pos = 0;
  }

  abbrev with_some {κ} : {B : Type κ} → Option (Cell T) → (Cell T → Outcome B) → Outcome B
  with_some none f = fault
  with_some (some c) f = f c

  -- The cell of a position; outside of the buffer it is undefined.
  abbrev with_cell {κ} : {B : Type κ} → MpmcQueue T → ℕ → (ℕ → Cell T → Outcome B) → Outcome B
  with_cell q pos f =
      let place = bit_and pos q.capacity_mask in with_some (get_elem? q.buffer place) (f place)

  abbrev pub push_branch : T → ℕ → Sign → Thread T
  push_branch data_in pos negative = pushed false
  push_branch data_in pos null = push_swapping data_in pos
  push_branch data_in pos positive = push_loading data_in

  abbrev pub pop_branch : ℕ → Sign → Thread T
  pop_branch pos negative = popped none
  pop_branch pos null = pop_swapping pos
  pop_branch pos positive = pop_loading

  -- `push` and `pop`
  unfoldable pub thread_step : Bool → Thread T → MpmcQueue T → Outcome (MpmcQueue T × Thread T)
  thread_step spurious outside q = ok (q, outside)
  thread_step spurious (push_loading data_in) q = ok (q, push_checking data_in q.enqueue_pos)
  thread_step spurious (push_checking data_in pos) q =
      with_cell q pos
        (λ place c. dif c.sequence pos >>= λ sign. ok (q, push_branch data_in pos sign))
  thread_step spurious (push_swapping data_in pos) q =
      if exchanges spurious pos q.enqueue_pos
      then ok (record q { enqueue_pos = u64 (pos + 1) }, push_writing data_in pos)
      else ok (q, push_checking data_in q.enqueue_pos)
  thread_step spurious (push_writing data_in pos) q = with_cell q pos (λ place c.
      ok (
        record q { buffer = set q.buffer place (record c { item = data_in }) },
        push_releasing pos,
      ))
  thread_step spurious (push_releasing pos) q = with_cell q pos (λ place c. ok (
    record q { buffer = set q.buffer place (record c { sequence = u64 (pos + 1) }) },
    pushed true,
  ))
  thread_step spurious (pushed done) q = ok (q, pushed done)
  thread_step spurious pop_loading q = ok (q, pop_checking q.dequeue_pos)
  thread_step spurious (pop_checking pos) q =
      with_cell q pos
        (λ place c. dif c.sequence (u64 (pos + 1)) >>= λ sign. ok (q, pop_branch pos sign))
  thread_step spurious (pop_swapping pos) q =
      if exchanges spurious pos q.dequeue_pos
      then ok (record q { dequeue_pos = u64 (pos + 1) }, pop_reading pos)
      else ok (q, pop_checking q.dequeue_pos)
  thread_step spurious (pop_reading pos) q =
      with_cell q pos (λ place c. ok (q, pop_releasing c.item pos))
  thread_step spurious (pop_releasing out_data pos) q = with_cell q pos (λ place c. ok (
    record q {
      buffer = set q.buffer place (record c { sequence = u64 (u64 (pos + q.capacity_mask) + 1) });
    },
    popped (some out_data),
  ))
  thread_step spurious (popped out_data) q = ok (q, popped out_data)

  -- The item that a step reserves a place for, and the position and item that a step hands out.
  abbrev pub reserved : Bool → Thread T → MpmcQueue T → List T
  reserved spurious (push_swapping data_in pos) q =
      if exchanges spurious pos q.enqueue_pos then data_in ∷ [] else []
  reserved spurious p q = []

  abbrev pub handed_out : Thread T → List (ℕ × T)
  handed_out (pop_releasing out_data pos) = (pos, out_data) ∷ []
  handed_out p = []

  abbrev pub at_thread : ℕ → Thread T → (ℕ → Thread T) → ℕ → Thread T
  at_thread i p threads j = if j == i then p else threads j

-- The queue with its threads, and what has been handed out, with its positions.
pub record System {ℓ} (T : Type ℓ) : Type ℓ where
  pub queue : MpmcQueue T
  pub threads : ℕ → Thread T
  pub delivered : List (ℕ × T)

module _ {ℓ} {T : Type ℓ} where
  -- A step of thread `i`, with the item that it reserves a place for.
  pub data Step : System T → List T → System T → Type ℓ where
    call_push :
        (s : System T) (i : ℕ) (data_in : T)
        → s.threads i ≡ outside
        → Step s [] (record s { threads = at_thread i (push_loading data_in) s.threads })
    call_pop :
        (s : System T) (i : ℕ)
        → s.threads i ≡ outside
        → Step s [] (record s { threads = at_thread i pop_loading s.threads })
    run :
        (s : System T) (i : ℕ) (spurious : Bool) (q : MpmcQueue T) (p : Thread T)
        → thread_step spurious (s.threads i) s.queue ≡ ok (q, p)
        → Step s (reserved spurious (s.threads i) s.queue) (record s {
          queue = q;
          threads = at_thread i p s.threads;
          delivered = s.delivered ++ handed_out (s.threads i);
        })
    push_returns :
        (s : System T) (i : ℕ) (done : Bool)
        → s.threads i ≡ pushed done
        → Step s [] (record s { threads = at_thread i outside s.threads })
    pop_returns :
        (s : System T) (i : ℕ) (out_data : Option T)
        → s.threads i ≡ popped out_data
        → Step s [] (record s { threads = at_thread i outside s.threads })

  -- The steps from a new queue, with all the items that places have been reserved for, in order.
  pub data Reach (value : T) (capacity : ℕ) : List T → System T → Type ℓ where
    start :
        Reach value capacity []
          (record { queue = new_queue value capacity; threads = λ i. outside; delivered = [] })
    later :
        {items more : List T} {s t : System T}
        → Reach value capacity items s
        → Step s more t
        → Reach value capacity (items ++ more) t
