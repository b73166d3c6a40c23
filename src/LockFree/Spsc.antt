-- ===== src/LockFree/Spsc.antt =====
-- SPSCQueue of include/LockFreeSharedDataManager.h: one producer, one consumer, and a ring whose two
-- indices are atomic. Each step of a thread ends with one access to what the threads share. Memory
-- is taken as sequentially consistent: an index is stored with release after the accesses to the
-- buffer that it covers, and loaded with acquire before those of the other thread.
pub mod Cells
pub mod Valid
pub mod Produce
pub mod Consume
pub mod Sound
pub mod Fifo
pub mod Drain
use counter_drone_server.Base.{
  ℕ, zero, suc, ◌+◌, ◌-◌, ◌%◌, ◌<◌, ◌≡◌, List, [], ◌∷◌, ◌++◌, Bool, true, false, Option, none, some,
  if◌then◌else◌, ltb, leb, ◌==◌, Outcome, ok, fault, out_of_fuel, ◌>>=◌, length, get_elem?, set,
}
use counter_drone_server.Packet.{u64}

pub record SpscQueue {ℓ} (T : Type ℓ) : Type ℓ where
  pub buffer : List T
  pub capacity : ℕ
  pub head : ℕ
  pub tail : ℕ

-- Where the producer is in `push`: before it loads the tail, before it loads the head and compares,
-- before it writes the buffer, before it stores the tail, and with the result.
pub data Producer {ℓ} (T : Type ℓ) : Type ℓ where
  outside : Producer T
  loading_tail : (item : T) → Producer T
  checking_full : (item : T) (current_tail : ℕ) → Producer T
  writing : (item : T) (current_tail next_tail : ℕ) → Producer T
  storing_tail : (item : T) (next_tail : ℕ) → Producer T
  pushed : (done : Bool) → Producer T

-- Where the consumer is in `pop`: before it loads the head, before it loads the tail and compares,
-- before it reads the buffer, before it stores the head, and with the result. In `pop_all`: before
-- it loads the head, before it loads the tail and compares, before each test of its loop, and with
-- what it has appended to `out_data`.
pub data Consumer {ℓ} (T : Type ℓ) : Type ℓ where
  outside : Consumer T
  loading_head : Consumer T
  checking_empty : (current_head : ℕ) → Consumer T
  reading : (current_head : ℕ) → Consumer T
  storing_head : (item : T) (next_head : ℕ) → Consumer T
  popped : (item : Option T) → Consumer T
  all_loading_head : Consumer T
  all_checking_empty : (current_head : ℕ) → Consumer T
  draining : (current_head current_tail : ℕ) (items : List T) → Consumer T
  drained : (items : List T) → Consumer T

abbrev pub replicate {ℓ} : {A : Type ℓ} → ℕ → A → List A
replicate zero x = []
replicate (suc n) x = x ∷ replicate n x

-- `(index + 1) % m_capacity` on `size_t`
abbrev pub next_index : ℕ → ℕ → ℕ
next_index capacity index = u64 (index + 1) % capacity

-- `available_items` of `pop_all`, on `size_t`; it is what the loop's output is reserved for.
abbrev pub available_items : ℕ → ℕ → ℕ → ℕ
available_items capacity current_head current_tail =
    if leb current_head current_tail
    then current_tail - current_head
    else u64 (capacity - current_head + current_tail)

module _ {ℓ} {T : Type ℓ} where
  -- The constructor: `resize` fills the buffer with `T()`.
  unfoldable pub new_queue : T → ℕ → SpscQueue T
  new_queue value capacity =
      let size = u64 (capacity + 1) in
      record { buffer = replicate size value; capacity = size; head = 0; tail = 0 }

  -- `push`
  unfoldable pub producer_step : Producer T → SpscQueue T → Outcome (SpscQueue T × Producer T)
  producer_step outside q = ok (q, outside)
  producer_step (loading_tail item) q = ok (q, checking_full item q.tail)
  producer_step (checking_full item current_tail) q =
      let next_tail = next_index q.capacity current_tail in
      if next_tail == q.head
      then ok (q, pushed false)
      else ok (q, writing item current_tail next_tail)
  producer_step (writing item current_tail next_tail) q =
      if ltb current_tail (length q.buffer)
      then ok (record q { buffer = set q.buffer current_tail item }, storing_tail item next_tail)
      else fault
  producer_step (storing_tail item next_tail) q = ok (record q { tail = next_tail }, pushed true)
  producer_step (pushed done) q = ok (q, pushed done)

  -- What the read of an index gives to the rest of a step.
  abbrev with_item {κ} : {B : Type κ} → Option T → (T → B) → Outcome B
  with_item none f = fault
  with_item (some item) f = ok (f item)

  -- `pop` and `pop_all`; `moved` is what `std::move` leaves of an item in the buffer.
  unfoldable pub consumer_step :
      (T → T) → Consumer T → SpscQueue T → Outcome (SpscQueue T × Consumer T)
  consumer_step moved outside q = ok (q, outside)
  consumer_step moved loading_head q = ok (q, checking_empty q.head)
  consumer_step moved (checking_empty current_head) q =
      if current_head == q.tail then ok (q, popped none) else ok (q, reading current_head)
  consumer_step moved (reading current_head) q =
      with_item (get_elem? q.buffer current_head)
        (λ item. (q, storing_head item (next_index q.capacity current_head)))
  consumer_step moved (storing_head item next_head) q =
      ok (record q { head = next_head }, popped (some item))
  consumer_step moved (popped item) q = ok (q, popped item)
  consumer_step moved all_loading_head q = ok (q, all_checking_empty q.head)
  consumer_step moved (all_checking_empty current_head) q =
      if current_head == q.tail then ok (q, drained []) else ok (q, draining current_head q.tail [])
  consumer_step moved (draining current_head current_tail items) q =
      if current_head == current_tail
      then ok (record q { head = current_head }, drained items)
      else with_item (get_elem? q.buffer current_head) (λ item. (
        record q { buffer = set q.buffer current_head (moved item) },
        draining (next_index q.capacity current_head) current_tail (items ++ item ∷ []),
      ))
  consumer_step moved (drained items) q = ok (q, drained items)

  abbrev pub has_returned : Consumer T → Bool
  has_returned (popped item) = true
  has_returned (drained items) = true
  has_returned c = false

  -- A call of the consumer with no step of the producer in between, on fuel.
  unfoldable pub consumer_run :
      (T → T) → ℕ → Consumer T → SpscQueue T → Outcome (SpscQueue T × Consumer T)
  consumer_run moved zero c q = out_of_fuel
  consumer_run moved (suc f) c q =
      if has_returned c
      then ok (q, c)
      else (consumer_step moved c q >>= λ r. consumer_run moved f r.1 r.0)

  -- The item that the producer's step makes visible, and those that the consumer's step gives back
  -- the room of.
  abbrev pub stored : Producer T → List T
  stored (storing_tail item next_tail) = item ∷ []
  stored p = []

  abbrev pub released : Consumer T → List T
  released (storing_head item next_head) = item ∷ []
  released (draining current_head current_tail items) =
      if current_head == current_tail then items else []
  released c = []

-- The queue with its two threads; `received` is what the consumer has taken out and given back.
pub record System {ℓ} (T : Type ℓ) : Type ℓ where
  pub queue : SpscQueue T
  pub producer : Producer T
  pub consumer : Consumer T
  pub received : List T

module _ {ℓ} {T : Type ℓ} (moved : T → T) where
  -- A step of the system, with the item that it adds to the queue.
  pub data Step : System T → List T → System T → Type ℓ where
    call_push :
        (s : System T) (item : T)
        → s.producer ≡ outside
        → Step s [] (record s { producer = loading_tail item })
    produce :
        (s : System T) (q : SpscQueue T) (p : Producer T)
        → producer_step s.producer s.queue ≡ ok (q, p)
        → Step s (stored s.producer) (record s { queue = q; producer = p })
    push_returns :
        (s : System T) (done : Bool)
        → s.producer ≡ pushed done
        → Step s [] (record s { producer = outside })
    call_pop :
        (s : System T) → s.consumer ≡ outside → Step s [] (record s { consumer = loading_head })
    call_pop_all :
        (s : System T) → s.consumer ≡ outside → Step s [] (record s { consumer = all_loading_head })
    consume :
        (s : System T) (q : SpscQueue T) (c : Consumer T)
        → consumer_step moved s.consumer s.queue ≡ ok (q, c)
        → Step s []
            (record s { queue = q; consumer = c; received = s.received ++ released s.consumer })
    pop_returns :
        (s : System T) (item : Option T)
        → s.consumer ≡ popped item
        → Step s [] (record s { consumer = outside })
    pop_all_returns :
        (s : System T) (items : List T)
        → s.consumer ≡ drained items
        → Step s [] (record s { consumer = outside })

  -- The steps from a new queue, with all the items that they add.
  pub data Reach (value : T) (capacity : ℕ) : List T → System T → Type ℓ where
    start : Reach value capacity [] (record {
      queue = new_queue value capacity;
      producer = outside;
      consumer = outside;
      received = [];
    })
    later :
        {items more : List T} {s t : System T}
        → Reach value capacity items s
        → Step s more t
        → Reach value capacity (items ++ more) t
