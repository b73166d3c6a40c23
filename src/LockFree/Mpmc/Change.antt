-- ===== src/LockFree/Mpmc/Change.antt =====
-- MPMCQueue's invariant when one cell changes.
use counter_drone_server.Base.{
  ℕ, ◌+◌, ◌%◌, ◌≤◌, ◌<◌, ◌≡◌, ◌≢◌, ◌⊎◌, inl, inr, refl, sym, ap, ◌∙◌, arith, List, some, ◌==◌,
  ==_iff, Bool-cases, length, get_elem?,
}
use counter_drone_server.LockFree.Mpmc.{
  Cell, Thread, outside, push_loading, push_checking, push_swapping, push_writing, push_releasing,
  pushed, pop_loading, pop_checking, pop_swapping, pop_reading, pop_releasing, popped, at_thread,
}
use counter_drone_server.LockFree.Mpmc.Valid.{writes, reads, ThreadAt, holds, IsValid}
use counter_drone_server.LockFree.Mpmc.Replace.{
  at_thread_self, at_thread-cases, still_one_writer, still_one_reader, still_write_owned,
  still_read_owned,
}

-- The thread relies on no cell at the place `c`.
abbrev pub Away {ℓ} : {T : Type ℓ} → (cap c E D : ℕ) → Thread T → Type 0
Away cap c E D outside = Unit
Away cap c E D (push_loading data_in) = Unit
Away cap c E D (push_checking data_in pos) = Unit
Away cap c E D (push_swapping data_in pos) = E ≤ pos → pos % cap ≢ c
Away cap c E D (push_writing data_in pos) = pos % cap ≢ c
Away cap c E D (push_releasing pos) = pos % cap ≢ c
Away cap c E D (pushed done) = Unit
Away cap c E D pop_loading = Unit
Away cap c E D (pop_checking pos) = Unit
Away cap c E D (pop_swapping pos) = D ≤ pos → pos % cap ≢ c
Away cap c E D (pop_reading pos) = pos % cap ≢ c
Away cap c E D (pop_releasing out_data pos) = pos % cap ≢ c
Away cap c E D (popped out_data) = Unit

module _ {ℓ} {T : Type ℓ} (cap E D : ℕ) {c : ℕ} {cells cells' : ℕ → Cell T}
    (elsewhere : (j : ℕ) → j ≢ c → cells' j ≡ cells j) where
  same_turn : (j n : ℕ) → j ≢ c → (cells j).sequence ≡ n → (cells' j).sequence ≡ n
  same_turn j n apart e = ap (λ (x : Cell T). x.sequence) (elsewhere j apart) ∙ e

  at_kept : (p : Thread T) → ThreadAt cap cells E D p → Away cap c E D p → ThreadAt cap cells' E D p
  at_kept outside at far = at
  at_kept (push_loading data_in) at far = at
  at_kept (push_checking data_in pos) at far = at
  at_kept (push_swapping data_in pos) at far =
      (at.0, λ low. same_turn (pos % cap) pos (far low) (at.1 low))
  at_kept (push_writing data_in pos) at far = (at.0, same_turn (pos % cap) pos far (at.1))
  at_kept (push_releasing pos) at far = (at.0, same_turn (pos % cap) pos far (at.1))
  at_kept (pushed done) at far = at
  at_kept pop_loading at far = at
  at_kept (pop_checking pos) at far = at
  at_kept (pop_swapping pos) at far =
      (at.0, λ low. same_turn (pos % cap) (pos + 1) (far low) (at.1 low))
  at_kept (pop_reading pos) at far = (at.0, same_turn (pos % cap) (pos + 1) far (at.1))
  at_kept (pop_releasing out_data pos) at far = (at.0, same_turn (pos % cap) (pos + 1) far (at.1))
  at_kept (popped out_data) at far = at

  holds_kept : (p : Thread T) → Away cap c E D p → holds cap cells' p ≡ holds cap cells p
  holds_kept outside far = refl
  holds_kept (push_loading data_in) far = refl
  holds_kept (push_checking data_in pos) far = refl
  holds_kept (push_swapping data_in pos) far = refl
  holds_kept (push_writing data_in pos) far = refl
  holds_kept (push_releasing pos) far =
      ap (λ (x : Cell T). some (pos, x.item)) (elsewhere (pos % cap) far)
  holds_kept (pushed done) far = refl
  holds_kept pop_loading far = refl
  holds_kept (pop_checking pos) far = refl
  holds_kept (pop_swapping pos) far = refl
  holds_kept (pop_reading pos) far = refl
  holds_kept (pop_releasing out_data pos) far = refl
  holds_kept (popped out_data) far = refl

module _ {ℓ} {T : Type ℓ} {cap : ℕ} {cells : ℕ → Cell T} {items : List T} {D : ℕ}
    {threads : ℕ → Thread T} (v : IsValid cap cells items D threads) (i : ℕ) where
  -- The thread `i` changes the cell at `c`, to a later turn or the same one.
  pub change :
      (c : ℕ) (cells' : ℕ → Cell T) (p : Thread T)
      → ((j : ℕ) → j ≢ c → cells' j ≡ cells j)
      → ((j : ℕ) → j ≢ i → Away cap c (length items) D (threads j))
      → ThreadAt cap cells' (length items) D p
      → ((n : ℕ) (x : T) → holds cap cells' p ≡ some (n, x) → get_elem? items n ≡ some x)
      → ((n : ℕ) → writes p ≡ some n → writes (threads i) ≡ some n)
      → ((n : ℕ) → reads p ≡ some n → reads (threads i) ≡ some n)
      → ((n : ℕ) → n % cap ≢ c → writes (threads i) ≡ some n → writes p ≡ some n)
      → ((n : ℕ) → n % cap ≢ c → reads (threads i) ≡ some n → reads p ≡ some n)
      → (cells c).sequence ≤ (cells' c).sequence
      → (cells' c).sequence ≤ length items + cap
      → ((cells' c).sequence % cap ≡ c) ⊎ ((m : ℕ) × ((cells' c).sequence ≡ m + 1) × (m % cap ≡ c))
      → ((n : ℕ)
          → n % cap ≡ c
          → (cells' c).sequence ≡ n + 1
          → (n < length items) × (get_elem? items n ≡ some ((cells' c).item)))
      → ((n : ℕ) → n < length items → n % cap ≡ c → (cells' c).sequence ≡ n → writes p ≡ some n)
      → ((n : ℕ) → n < D → n % cap ≡ c → (cells' c).sequence ≡ n + 1 → reads p ≡ some n)
      → IsValid cap cells' items D (at_thread i p threads)
  change c cells' p elsewhere away at holding had_written had_read write_kept read_kept grows within
        phased filled write_left read_left =
      record {
        order = v.order;
        thread_at =
            at_thread-cases (λ j x. ThreadAt cap cells' (length items) D x) i p threads at
              (λ j other.
                at_kept cap (length items) D elsewhere (threads j) (v.thread_at j) (away j other));
        held =
            at_thread-cases
              (λ j x.
                (n : ℕ) (y : T) → holds cap cells' x ≡ some (n, y) → get_elem? items n ≡ some y)
              i p threads holding
              (λ j other n y e.
                v.held j n y
                  (sym (holds_kept cap (length items) D elsewhere (threads j) (away j other)) ∙ e));
        one_writer = still_one_writer v i p (λ n w. inl (had_written n w));
        one_reader = still_one_reader v i p (λ n w. inl (had_read n w));
        full = λ n e. elim (place n) [
          | inl here ↦
              let (less, is) = filled n here (ap turn (sym here) ∙ e) in
              (less, is ∙ ap (λ j. some ((cells' j).item)) (sym here))
          | inr there ↦
              let (less, is) = v.full n (ap sequence_of (sym (elsewhere (n % cap) there)) ∙ e) in
              (less, is ∙ ap (λ (x : Cell T). some (x.item)) (sym (elsewhere (n % cap) there)))
        ];
        reserved_from = λ n less. omega (arith, v.reserved_from n less, later (n % cap));
        taken_from = λ n less. omega (arith, v.taken_from n less, later (n % cap));
        bounded = λ n less. elim (Bool-cases (n == c)) [
          | inl here ↦ let e : n ≡ c = (==_iff n c).0 here in rw e within
          | inr there ↦
              let e : (cells' n).sequence ≡ (cells n).sequence =
                ap sequence_of (elsewhere n (λ q. cc ((==_iff n c).1 q, there))) in
              omega (arith, v.bounded n less)
        ];
        phase = λ n less. elim (Bool-cases (n == c)) [
          | inl here ↦ let e : n ≡ c = (==_iff n c).0 here in rw e phased
          | inr there ↦
              let e : (cells' n).sequence ≡ (cells n).sequence =
                ap sequence_of (elsewhere n (λ q. cc ((==_iff n c).1 q, there))) in
              rw e (v.phase n less)
        ];
        write_owned = λ n less e. elim (place n) [
          | inl here ↦ (
            i,
            ap writes (at_thread_self i p threads)
                ∙ write_left n less here (ap turn (sym here) ∙ e),
          )
          | inr there ↦
              still_write_owned v i p n (write_kept n there)
                (v.write_owned n less (ap sequence_of (sym (elsewhere (n % cap) there)) ∙ e))
        ];
        read_owned = λ n less e. elim (place n) [
          | inl here ↦ (
            i,
            ap reads (at_thread_self i p threads) ∙ read_left n less here (ap turn (sym here) ∙ e),
          )
          | inr there ↦
              still_read_owned v i p n (read_kept n there)
                (v.read_owned n less (ap sequence_of (sym (elsewhere (n % cap) there)) ∙ e))
        ];
      }
    where
      turn : ℕ → ℕ
      turn j = (cells' j).sequence

      sequence_of : Cell T → ℕ
      sequence_of x = x.sequence

      place : (n : ℕ) → (n % cap ≡ c) ⊎ (n % cap ≢ c)
      place n = elim (Bool-cases (n % cap == c)) [
        | inl here ↦ inl ((==_iff (n % cap) c).0 here)
        | inr there ↦ inr (λ e. cc ((==_iff (n % cap) c).1 e, there))
      ]

      later : (j : ℕ) → (cells j).sequence ≤ (cells' j).sequence
      later j = elim (Bool-cases (j == c)) [
        | inl here ↦ let e : j ≡ c = (==_iff j c).0 here in rw e grows
        | inr there ↦
            let e : (cells' j).sequence ≡ (cells j).sequence =
              ap sequence_of (elsewhere j (λ q. cc ((==_iff j c).1 q, there))) in
            omega arith
      ]
