-- ===== src/LockFree/Mpmc/Store.antt =====
-- MPMCQueue's invariant when a thread writes an item, and when it passes a cell on.
use mathlib.Core.Path.{subst}
use native.Mathlib.Nat.{add-mod_right}
use counter_drone_server.Base.{
  ℕ, ◌+◌, ◌%◌, ◌≤◌, ◌<◌, ◌≡◌, ◌≢◌, inl, inr, refl, sym, ap, ◌∙◌, arith, List, some, true, length,
  get_elem?,
}
use counter_drone_server.LockFree.Mpmc.{
  Cell, Thread, outside, push_loading, push_checking, push_swapping, push_writing, push_releasing,
  pushed, pop_loading, pop_checking, pop_swapping, pop_reading, pop_releasing, popped, at_thread,
}
use counter_drone_server.LockFree.Mpmc.Valid.{writes, reads, ThreadAt, holds, IsValid}
use counter_drone_server.LockFree.Spsc.Cells.{mod_ne}
use counter_drone_server.LockFree.Mpmc.Change.{Away, change}

module _ {ℓ} {T : Type ℓ} (cap : ℕ) (two : 2 ≤ cap) (cells : ℕ → Cell T) (E D n : ℕ) where
  same_cell :
      (pos : ℕ) → pos % cap ≡ n % cap → (cells (pos % cap)).sequence ≡ (cells (n % cap)).sequence
  same_cell pos e = ap (λ j. (cells j).sequence) e

  -- Nobody else relies on the cell of a position that a thread writes.
  writer-Away :
      n < E
      → (cells (n % cap)).sequence ≡ n
      → (p : Thread T) → ThreadAt cap cells E D p
      → writes p ≢ some n
      → Away cap (n % cap) E D p
  writer-Away less turn outside at apart = tt
  writer-Away less turn (push_loading data_in) at apart = tt
  writer-Away less turn (push_checking data_in pos) at apart = tt
  writer-Away less turn (push_swapping data_in pos) at apart =
      λ low e. omega (arith, at.1 low, same_cell pos e)
  writer-Away less turn (push_writing data_in pos) at apart =
      λ e. apart (let is : pos ≡ n = omega (arith, at.1, same_cell pos e) in ap some is)
  writer-Away less turn (push_releasing pos) at apart =
      λ e. apart (let is : pos ≡ n = omega (arith, at.1, same_cell pos e) in ap some is)
  writer-Away less turn (pushed done) at apart = tt
  writer-Away less turn pop_loading at apart = tt
  writer-Away less turn (pop_checking pos) at apart = tt
  writer-Away less turn (pop_swapping pos) at apart = λ low e.
      mod_ne cap pos n (omega (arith, at.1 low, same_cell pos e))
        (omega (arith, at.1 low, same_cell pos e)) e
  writer-Away less turn (pop_reading pos) at apart = λ e.
      mod_ne cap pos n (omega (arith, at.1, same_cell pos e)) (omega (arith, at.1, same_cell pos e))
        e
  writer-Away less turn (pop_releasing out_data pos) at apart = λ e.
      mod_ne cap pos n (omega (arith, at.1, same_cell pos e)) (omega (arith, at.1, same_cell pos e))
        e
  writer-Away less turn (popped out_data) at apart = tt

  -- Nobody else relies on the cell of a position that a thread reads.
  reader-Away :
      n < D
      → (cells (n % cap)).sequence ≡ n + 1
      → (p : Thread T) → ThreadAt cap cells E D p
      → reads p ≢ some n
      → Away cap (n % cap) E D p
  reader-Away less turn outside at apart = tt
  reader-Away less turn (push_loading data_in) at apart = tt
  reader-Away less turn (push_checking data_in pos) at apart = tt
  reader-Away less turn (push_swapping data_in pos) at apart = λ low e.
      mod_ne cap n pos (omega (arith, at.1 low, same_cell pos e))
        (omega (arith, at.1 low, same_cell pos e)) (sym e)
  reader-Away less turn (push_writing data_in pos) at apart = λ e.
      mod_ne cap n pos (omega (arith, at.1, same_cell pos e)) (omega (arith, at.1, same_cell pos e))
        (sym e)
  reader-Away less turn (push_releasing pos) at apart = λ e.
      mod_ne cap n pos (omega (arith, at.1, same_cell pos e)) (omega (arith, at.1, same_cell pos e))
        (sym e)
  reader-Away less turn (pushed done) at apart = tt
  reader-Away less turn pop_loading at apart = tt
  reader-Away less turn (pop_checking pos) at apart = tt
  reader-Away less turn (pop_swapping pos) at apart =
      λ low e. omega (arith, at.1 low, same_cell pos e)
  reader-Away less turn (pop_reading pos) at apart =
      λ e. apart (let is : pos ≡ n = omega (arith, at.1, same_cell pos e) in ap some is)
  reader-Away less turn (pop_releasing out_data pos) at apart =
      λ e. apart (let is : pos ≡ n = omega (arith, at.1, same_cell pos e) in ap some is)
  reader-Away less turn (popped out_data) at apart = tt

module _ {ℓ} {T : Type ℓ} {cap : ℕ} (two : 2 ≤ cap) {cells : ℕ → Cell T} {items : List T} {D : ℕ}
    {threads : ℕ → Thread T} (v : IsValid cap cells items D threads) (i pos : ℕ)
    (cells' : ℕ → Cell T) (elsewhere : (j : ℕ) → j ≢ pos % cap → cells' j ≡ cells j) where
  other_writer :
      writes (threads i) ≡ some pos
      → pos < length items
      → (cells (pos % cap)).sequence ≡ pos
      → (j : ℕ) → j ≢ i
      → Away cap (pos % cap) (length items) D (threads j)
  other_writer here less turn j other =
      writer-Away cap two cells (length items) D pos less turn (threads j) (v.thread_at j)
        (λ w. other (v.one_writer j i pos w here))

  other_reader :
      reads (threads i) ≡ some pos
      → pos < D
      → (cells (pos % cap)).sequence ≡ pos + 1
      → (j : ℕ) → j ≢ i
      → Away cap (pos % cap) (length items) D (threads j)
  other_reader here less turn j other =
      reader-Away cap two cells (length items) D pos less turn (threads j) (v.thread_at j)
        (λ w. other (v.one_reader j i pos w here))

  clash : (n : ℕ) → n % cap ≡ pos % cap → n + 1 ≡ pos → ⊥
  clash n e next = mod_ne cap n pos (omega arith) (omega arith) e

  elsewhere_ne : (n : ℕ) → n % cap ≢ pos % cap → some pos ≢ some n
  elsewhere_ne n apart e = apart (let is : n ≡ pos = cc in ap (λ k. k % cap) is)

  -- `cell->data = data`
  pub write_item :
      (x : T)
      → threads i ≡ push_writing x pos
      → (cells' (pos % cap)).sequence ≡ (cells (pos % cap)).sequence
      → (cells' (pos % cap)).item ≡ x
      → IsValid cap cells' items D (at_thread i (push_releasing pos) threads)
  write_item x here same now =
      let (less, turn) = subst (ThreadAt cap cells (length items) D) here (v.thread_at i) in
      let known : get_elem? items pos ≡ some x = v.held i pos x (ap (holds cap cells) here) in
      change v i (pos % cap) cells' (push_releasing pos) elsewhere
        (other_writer (ap writes here) less turn) (less, same ∙ turn) (λ n y e. cc (e, now, known))
        (λ n w. ap writes here ∙ w) (λ n w. cc) (λ n far w. sym (ap writes here) ∙ w)
        (λ n far w. cc (ap reads here)) (omega arith) (omega (arith))
        (inl (ap (λ m. m % cap) (same ∙ turn))) (λ n at e. absurd (clash n at (omega arith)))
        (λ n below at e. let is : pos ≡ n = omega arith in ap some is)
        (λ n below at e. absurd (clash n at (omega arith)))

  -- `cell->sequence.store(pos + 1)`
  pub publish :
      threads i ≡ push_releasing pos
      → (cells' (pos % cap)).sequence ≡ pos + 1
      → (cells' (pos % cap)).item ≡ (cells (pos % cap)).item
      → IsValid cap cells' items D (at_thread i (pushed true) threads)
  publish here next same =
      let (less, turn) = subst (ThreadAt cap cells (length items) D) here (v.thread_at i) in
      let known : get_elem? items pos ≡ some ((cells (pos % cap)).item) =
        v.held i pos ((cells (pos % cap)).item) (ap (holds cap cells) here) in
      change v i (pos % cap) cells' (pushed true) elsewhere
        (other_writer (ap writes here) less turn) tt (λ n y e. cc) (λ n w. cc) (λ n w. cc)
        (λ n far w. absurd (elsewhere_ne n far (sym (ap writes here) ∙ w)))
        (λ n far w. cc (ap reads here)) (omega arith) (omega arith) (inr (pos, next, refl))
        (λ n at e. let is : n ≡ pos = omega arith in (omega arith, cc))
        (λ n below at e. absurd (clash' n at (omega arith)))
        (λ n below at e.
          absurd (omega (arith, v.taken_from n below, ap (λ j. (cells j).sequence) at)))
    where
      clash' : (n : ℕ) → n % cap ≡ pos % cap → n ≡ pos + 1 → ⊥
      clash' n e next = mod_ne cap pos n (omega arith) (omega arith) (sym e)

  -- `cell->sequence.store(pos + m_capacitymask_ + 1)`
  pub give_back :
      (x : T)
      → threads i ≡ pop_releasing x pos
      → (cells' (pos % cap)).sequence ≡ pos + cap
      → IsValid cap cells' items D (at_thread i (popped (some x)) threads)
  give_back x here next =
      let (less, turn) = subst (ThreadAt cap cells (length items) D) here (v.thread_at i) in
      change v i (pos % cap) cells' (popped (some x)) elsewhere
        (other_reader (ap reads here) less turn) tt (λ n y e. cc) (λ n w. cc) (λ n w. cc)
        (λ n far w. cc (ap writes here))
        (λ n far w. absurd (elsewhere_ne n far (sym (ap reads here) ∙ w))) (omega arith)
        (omega (arith, v.order)) (inl (ap (λ m. m % cap) next ∙ add-mod_right pos cap))
        (λ n at e. absurd (mod_ne cap pos n (omega arith) (omega arith) (sym at)))
        (λ n below at e.
          absurd (omega (arith, v.reserved_from n below, ap (λ j. (cells j).sequence) at)))
        (λ n below at e. absurd (mod_ne cap pos n (omega arith) (omega arith) (sym at)))
