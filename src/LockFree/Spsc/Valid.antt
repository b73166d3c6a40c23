-- ===== src/LockFree/Spsc/Valid.antt =====
-- The invariant of SPSCQueue: the indices are counts of all the items released and stored, taken
-- round the ring.
use counter_drone_server.Base.{
  ℕ, ◌+◌, ◌-◌, ◌%◌, ◌^◌, ◌≤◌, ◌<◌, ◌≡◌, List, [], ◌∷◌, ◌++◌, length, get_or, All,
}
use counter_drone_server.LockFree.Spsc.{
  SpscQueue, Producer, loading_tail, checking_full, writing, storing_tail, pushed, Consumer,
  loading_head, checking_empty, reading, storing_head, popped, all_loading_head, all_checking_empty,
  draining, drained, stored,
}
use counter_drone_server.LockFree.Spsc.Cells.{cells}

-- What the locals of a thread hold, for a ring of `cap` places, `H` items released and `S` stored.
-- The producer may write the place of count `S` once it has seen that it is free.
abbrev pub ProducerAt {ℓ} : {T : Type ℓ} → (cap H S : ℕ) → Producer T → Type 0
ProducerAt cap H S Producer.outside = Unit
ProducerAt cap H S (loading_tail item) = Unit
ProducerAt cap H S (checking_full item tail) = tail ≡ S % cap
ProducerAt cap H S (writing item tail next) =
    (tail ≡ S % cap) × (next ≡ (S + 1) % cap) × (S + 1 < H + cap)
ProducerAt cap H S (storing_tail item next) = (next ≡ (S + 1) % cap) × (S + 1 < H + cap)
ProducerAt cap H S (pushed done) = Unit

-- `C` items have been read, and `E` is the count up to which `pop_all` reads.
abbrev pub ConsumerAt {ℓ} : {T : Type ℓ} → (cap H C E S : ℕ) → Consumer T → Type 0
ConsumerAt cap H C E S Consumer.outside = C ≡ H
ConsumerAt cap H C E S loading_head = C ≡ H
ConsumerAt cap H C E S (checking_empty head) = (C ≡ H) × (head ≡ H % cap)
ConsumerAt cap H C E S (reading head) = (C ≡ H) × (head ≡ H % cap) × (H < S)
ConsumerAt cap H C E S (storing_head item next) = (C ≡ H + 1) × (next ≡ (H + 1) % cap) × (H < S)
ConsumerAt cap H C E S (popped item) = C ≡ H
ConsumerAt cap H C E S all_loading_head = C ≡ H
ConsumerAt cap H C E S (all_checking_empty head) = (C ≡ H) × (head ≡ H % cap)
ConsumerAt cap H C E S (draining head tail items) =
    (head ≡ C % cap) × (tail ≡ E % cap) × (C ≤ E) × (E ≤ S) × (length items ≡ C - H)
ConsumerAt cap H C E S (drained items) = C ≡ H

-- What the consumer has read and not released.
abbrev pub held {ℓ} : {T : Type ℓ} → Consumer T → List T
held (storing_head item next) = item ∷ []
held (draining head tail items) = items
held c = []

pub record IsValid {ℓ} {T : Type ℓ} (value : T) (q : SpscQueue T) (p : Producer T) (c : Consumer T)
    (received sent : List T) (H C E S : ℕ) : Type ℓ where
  pub size : length q.buffer ≡ q.capacity
  pub positive : 0 < q.capacity
  pub small : q.capacity < 2 ^ 64
  pub head_at : q.head ≡ H % q.capacity
  pub tail_at : q.tail ≡ S % q.capacity
  pub read : H ≤ C
  pub behind : C ≤ S
  pub room : S < H + q.capacity
  pub producer_at : ProducerAt q.capacity H S p
  pub consumer_at : ConsumerAt q.capacity H C E S c
  pub written : All (λ item. get_or q.buffer (S % q.capacity) value ≡ item) (stored p)
  pub log : sent ≡ received ++ held c ++ cells q.capacity value q.buffer C (S - C)
