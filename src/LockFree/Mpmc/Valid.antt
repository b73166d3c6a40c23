-- ===== src/LockFree/Mpmc/Valid.antt =====
-- The invariant of MPMCQueue: a position that a thread has reserved is its own, and the sequence
-- number of its cell says so.
use counter_drone_server.Base.{
  ℕ, ◌+◌, ◌%◌, ◌≤◌, ◌<◌, ◌≡◌, ◌⊎◌, List, Option, none, some, length, get_elem?,
}
use counter_drone_server.LockFree.Mpmc.{
  Cell, Thread, outside, push_loading, push_checking, push_swapping, push_writing, push_releasing,
  pushed, pop_loading, pop_checking, pop_swapping, pop_reading, pop_releasing, popped,
}

-- The position that a thread has reserved: to write, and to read.
abbrev pub writes {ℓ} : {T : Type ℓ} → Thread T → Option ℕ
writes (push_writing data_in pos) = some pos
writes (push_releasing pos) = some pos
writes p = none

abbrev pub reads {ℓ} : {T : Type ℓ} → Thread T → Option ℕ
reads (pop_reading pos) = some pos
reads (pop_releasing out_data pos) = some pos
reads p = none

module _ {ℓ} {T : Type ℓ} (cap : ℕ) (cells : ℕ → Cell T) where
  -- What the locals of a thread say of the cells, when `E` places are reserved and `D` items taken.
  -- An exchange that meets the position it expects finds the cell as it was checked.
  abbrev pub ThreadAt : ℕ → ℕ → Thread T → Type 0
  ThreadAt E D outside = Unit
  ThreadAt E D (push_loading data_in) = Unit
  ThreadAt E D (push_checking data_in pos) = pos ≤ E
  ThreadAt E D (push_swapping data_in pos) =
      (pos ≤ E) × (E ≤ pos → (cells (pos % cap)).sequence ≡ pos)
  ThreadAt E D (push_writing data_in pos) = (pos < E) × ((cells (pos % cap)).sequence ≡ pos)
  ThreadAt E D (push_releasing pos) = (pos < E) × ((cells (pos % cap)).sequence ≡ pos)
  ThreadAt E D (pushed done) = Unit
  ThreadAt E D pop_loading = Unit
  ThreadAt E D (pop_checking pos) = pos ≤ D
  ThreadAt E D (pop_swapping pos) = (pos ≤ D) × (D ≤ pos → (cells (pos % cap)).sequence ≡ pos + 1)
  ThreadAt E D (pop_reading pos) = (pos < D) × ((cells (pos % cap)).sequence ≡ pos + 1)
  ThreadAt E D (pop_releasing out_data pos) = (pos < D) × ((cells (pos % cap)).sequence ≡ pos + 1)
  ThreadAt E D (popped out_data) = Unit

  -- The item that a thread has for its position.
  abbrev pub holds : Thread T → Option (ℕ × T)
  holds (push_writing data_in pos) = some (pos, data_in)
  holds (push_releasing pos) = some (pos, (cells (pos % cap)).item)
  holds (pop_releasing out_data pos) = some (pos, out_data)
  holds p = none

  pub record IsValid (items : List T) (D : ℕ) (threads : ℕ → Thread T) : Type ℓ where
    pub order : D ≤ length items
    pub thread_at : (i : ℕ) → ThreadAt (length items) D (threads i)
    pub held : (i n : ℕ) (x : T) → holds (threads i) ≡ some (n, x) → get_elem? items n ≡ some x
    pub one_writer : (i j n : ℕ) → writes (threads i) ≡ some n → writes (threads j) ≡ some n → i ≡ j
    pub one_reader : (i j n : ℕ) → reads (threads i) ≡ some n → reads (threads j) ≡ some n → i ≡ j
    pub full :
        (n : ℕ)
        → (cells (n % cap)).sequence ≡ n + 1
        → (n < length items) × (get_elem? items n ≡ some ((cells (n % cap)).item))
    pub reserved_from : (n : ℕ) → n < length items → n ≤ (cells (n % cap)).sequence
    pub taken_from : (n : ℕ) → n < D → n + 1 ≤ (cells (n % cap)).sequence
    pub bounded : (n : ℕ) → n < cap → (cells n).sequence ≤ length items + cap
    pub phase :
        (n : ℕ)
        → n < cap
        → ((cells n).sequence % cap ≡ n) ⊎ ((m : ℕ) × ((cells n).sequence ≡ m + 1) × (m % cap ≡ n))
    pub write_owned :
        (n : ℕ)
        → n < length items
        → (cells (n % cap)).sequence ≡ n
        → (i : ℕ) × (writes (threads i) ≡ some n)
    pub read_owned :
        (n : ℕ)
        → n < D
        → (cells (n % cap)).sequence ≡ n + 1
        → (i : ℕ) × (reads (threads i) ≡ some n)
