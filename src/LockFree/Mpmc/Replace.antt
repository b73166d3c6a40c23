-- ===== src/LockFree/Mpmc/Replace.antt =====
-- MPMCQueue's invariant when one thread moves on.
use mathlib.Core.Path.{subst}
use counter_drone_server.Base.{
  ℕ, ◌+◌, ◌%◌, ◌≤◌, ◌<◌, ◌≡◌, ◌≢◌, ◌⊎◌, inl, inr, refl, arith, List, some, true, ◌==◌, ==_iff,
  Bool-cases, length,
}
use counter_drone_server.LockFree.Mpmc.{
  Cell, Thread, outside, push_loading, push_checking, push_swapping, push_writing, push_releasing,
  pushed, pop_loading, pop_checking, pop_swapping, pop_reading, pop_releasing, popped, at_thread,
}
use counter_drone_server.LockFree.Mpmc.Valid.{writes, reads, ThreadAt, IsValid}

pub at_thread-cases {ℓ κ} :
    {T : Type ℓ} (P : ℕ → Thread T → Type κ) (i : ℕ) (p : Thread T) (threads : ℕ → Thread T)
    → P i p
    → ((j : ℕ) → j ≢ i → P j (threads j))
    → (j : ℕ) → P j (at_thread i p threads j)
at_thread-cases P i p threads here there j = elim (Bool-cases (j == i)) [
  | inl same ↦ let e : j ≡ i = (==_iff j i).0 same in rw (e, (==_iff i i).1 refl) here
  | inr other ↦ rw other (there j (λ e. cc ((==_iff j i).1 e, other)))
]

pub at_thread_self {ℓ} :
    {T : Type ℓ} (i : ℕ) (p : Thread T) (threads : ℕ → Thread T) → at_thread i p threads i ≡ p
at_thread_self i p threads = let e : (i == i) ≡ true = (==_iff i i).1 refl in rw e refl

-- What a thread has reserved is below the position that the next one gets, and its cell's turn is
-- that of the thread.
pub writes_turn {ℓ} :
    {T : Type ℓ} (cap : ℕ) (cells : ℕ → Cell T) (E D n : ℕ) (p : Thread T)
    → ThreadAt cap cells E D p
    → writes p ≡ some n
    → (n < E) × ((cells (n % cap)).sequence ≡ n)
writes_turn cap cells E D n outside at e = cc
writes_turn cap cells E D n (push_loading data_in) at e = cc
writes_turn cap cells E D n (push_checking data_in pos) at e = cc
writes_turn cap cells E D n (push_swapping data_in pos) at e = cc
writes_turn cap cells E D n (push_writing data_in pos) at e =
    let same : pos ≡ n = cc in subst (λ m. (m < E) × ((cells (m % cap)).sequence ≡ m)) same at
writes_turn cap cells E D n (push_releasing pos) at e =
    let same : pos ≡ n = cc in subst (λ m. (m < E) × ((cells (m % cap)).sequence ≡ m)) same at
writes_turn cap cells E D n (pushed done) at e = cc
writes_turn cap cells E D n pop_loading at e = cc
writes_turn cap cells E D n (pop_checking pos) at e = cc
writes_turn cap cells E D n (pop_swapping pos) at e = cc
writes_turn cap cells E D n (pop_reading pos) at e = cc
writes_turn cap cells E D n (pop_releasing out_data pos) at e = cc
writes_turn cap cells E D n (popped out_data) at e = cc

pub reads_turn {ℓ} :
    {T : Type ℓ} (cap : ℕ) (cells : ℕ → Cell T) (E D n : ℕ) (p : Thread T)
    → ThreadAt cap cells E D p
    → reads p ≡ some n
    → (n < D) × ((cells (n % cap)).sequence ≡ n + 1)
reads_turn cap cells E D n outside at e = cc
reads_turn cap cells E D n (push_loading data_in) at e = cc
reads_turn cap cells E D n (push_checking data_in pos) at e = cc
reads_turn cap cells E D n (push_swapping data_in pos) at e = cc
reads_turn cap cells E D n (push_writing data_in pos) at e = cc
reads_turn cap cells E D n (push_releasing pos) at e = cc
reads_turn cap cells E D n (pushed done) at e = cc
reads_turn cap cells E D n pop_loading at e = cc
reads_turn cap cells E D n (pop_checking pos) at e = cc
reads_turn cap cells E D n (pop_swapping pos) at e = cc
reads_turn cap cells E D n (pop_reading pos) at e =
    let same : pos ≡ n = cc in subst (λ m. (m < D) × ((cells (m % cap)).sequence ≡ m + 1)) same at
reads_turn cap cells E D n (pop_releasing out_data pos) at e =
    let same : pos ≡ n = cc in subst (λ m. (m < D) × ((cells (m % cap)).sequence ≡ m + 1)) same at
reads_turn cap cells E D n (popped out_data) at e = cc

module _ {ℓ} {T : Type ℓ} {cap : ℕ} {cells : ℕ → Cell T} {items : List T} {D : ℕ}
    {threads : ℕ → Thread T} (v : IsValid cap cells items D threads) (i : ℕ) (p : Thread T) where
  -- A position that is new, or that the thread had already, is reserved by no other thread.
  pub still_one_writer :
      ((n : ℕ) → writes p ≡ some n → (writes (threads i) ≡ some n) ⊎ (length items ≤ n))
      → (j k n : ℕ) → writes (at_thread i p threads j) ≡ some n
      → writes (at_thread i p threads k) ≡ some n
      → j ≡ k
  still_one_writer mine j k n =
      at_thread-cases (λ j x. writes x ≡ some n → writes (at_thread i p threads k) ≡ some n → j ≡ k)
        i p threads
        (λ w.
          at_thread-cases (λ k x. writes x ≡ some n → i ≡ k) i p threads (λ u. refl)
            (λ l other u. absurd (clash l other u (mine n w))) k)
        (λ m apart w.
          at_thread-cases (λ k x. writes x ≡ some n → m ≡ k) i p threads
            (λ u. absurd (clash m apart w (mine n u))) (λ l other u. v.one_writer m l n w u) k)
        j
    where
      clash :
          (l : ℕ)
          → l ≢ i
          → writes (threads l) ≡ some n
          → (writes (threads i) ≡ some n) ⊎ (length items ≤ n)
          → ⊥
      clash l other u (inl had) = other (v.one_writer l i n u had)
      clash l other u (inr fresh) =
          let below : n < length items =
            (writes_turn cap cells (length items) D n (threads l) (v.thread_at l) u).0 in
          omega arith

  pub still_one_reader :
      ((n : ℕ) → reads p ≡ some n → (reads (threads i) ≡ some n) ⊎ (D ≤ n))
      → (j k n : ℕ) → reads (at_thread i p threads j) ≡ some n
      → reads (at_thread i p threads k) ≡ some n
      → j ≡ k
  still_one_reader mine j k n =
      at_thread-cases (λ j x. reads x ≡ some n → reads (at_thread i p threads k) ≡ some n → j ≡ k) i
        p threads
        (λ w.
          at_thread-cases (λ k x. reads x ≡ some n → i ≡ k) i p threads (λ u. refl)
            (λ l other u. absurd (clash l other u (mine n w))) k)
        (λ m apart w.
          at_thread-cases (λ k x. reads x ≡ some n → m ≡ k) i p threads
            (λ u. absurd (clash m apart w (mine n u))) (λ l other u. v.one_reader m l n w u) k)
        j
    where
      clash :
          (l : ℕ) → l ≢ i → reads (threads l) ≡ some n → (reads (threads i) ≡ some n) ⊎ (D ≤ n) → ⊥
      clash l other u (inl had) = other (v.one_reader l i n u had)
      clash l other u (inr fresh) =
          let below : n < D =
            (reads_turn cap cells (length items) D n (threads l) (v.thread_at l) u).0 in
          omega arith

  -- A position that another thread had, or that the thread keeps, is still owned.
  pub still_write_owned :
      (n : ℕ)
      → (writes (threads i) ≡ some n → writes p ≡ some n)
      → (j : ℕ) × (writes (threads j) ≡ some n)
      → (j : ℕ) × (writes (at_thread i p threads j) ≡ some n)
  still_write_owned n kept (j, w) = (
    j,
    at_thread-cases (λ j x. writes (threads j) ≡ some n → writes x ≡ some n) i p threads kept
        (λ l other u. u) j w,
  )

  pub still_read_owned :
      (n : ℕ)
      → (reads (threads i) ≡ some n → reads p ≡ some n)
      → (j : ℕ) × (reads (threads j) ≡ some n)
      → (j : ℕ) × (reads (at_thread i p threads j) ≡ some n)
  still_read_owned n kept (j, w) = (
    j,
    at_thread-cases (λ j x. reads (threads j) ≡ some n → reads x ≡ some n) i p threads kept
        (λ l other u. u) j w,
  )
