-- ===== src/LockFree/Mpmc/Exclusive.antt =====
-- What MPMCQueue promises to its threads, however their steps interleave.
use native.Mathlib.Decide.{dec_lt}
use counter_drone_server.Base.{
  ℕ, ◌+◌, ◌%◌, ◌^◌, ◌≤◌, ◌<◌, ◌≡◌, ◌≢◌, ◌⊎◌, inl, inr, refl, sym, ap, ◌∙◌, arith, bit_and, List,
  none, some, Bool, false, ok, fault, length,
}
use counter_drone_server.LockFree.Spsc.Cells.{mod_ne}
use counter_drone_server.LockFree.Mpmc.{
  Thread, push_loading, push_checking, push_swapping, pushed, pop_loading, pop_checking,
  pop_swapping, popped, thread_step, System, Reach,
}
use counter_drone_server.LockFree.Mpmc.Valid.{writes, reads}
use counter_drone_server.LockFree.Mpmc.Replace.{writes_turn, reads_turn}
use counter_drone_server.LockFree.Mpmc.Sound.{dif_lem, cells_of, IsSound, index, found}
use counter_drone_server.LockFree.Mpmc.Advance.{at_place, turn_small}
use counter_drone_server.LockFree.Mpmc.Steps.{advance}
use counter_drone_server.LockFree.Mpmc.Runs.{reach-IsSound}

-- The thread has reserved the position, to write or to read its cell.
abbrev pub Owns {ℓ} : {T : Type ℓ} → Thread T → ℕ → Type 0
Owns p n = (writes p ≡ some n) ⊎ (reads p ≡ some n)

module _ {ℓ} {T : Type ℓ} (k : ℕ) {value : T} {items : List T} {s : System T} (two : 2 ≤ 2 ^ k)
    (small : length items + 2 ^ k < 2 ^ 63) (steps : Reach value (2 ^ k) items s) where
  pub sound : IsSound k value items s.queue s.threads
  sound = reach-IsSound k value two small steps

  -- Whose turn it is at a place.
  abbrev pub turn : ℕ → ℕ
  turn c = (cells_of k value s.queue c).sequence

  written : (l p : ℕ) → writes (s.threads l) ≡ some p → turn (p % 2 ^ k) ≡ p
  written l p w =
      (writes_turn (2 ^ k) (cells_of k value s.queue) (length items) s.queue.dequeue_pos p
        (s.threads l) (sound.valid.thread_at l) w).1

  read : (l p : ℕ) → reads (s.threads l) ≡ some p → turn (p % 2 ^ k) ≡ p + 1
  read l p r =
      (reads_turn (2 ^ k) (cells_of k value s.queue) (length items) s.queue.dequeue_pos p
        (s.threads l) (sound.valid.thread_at l) r).1

  owners_apart :
      (i j m n : ℕ) → i ≢ j → Owns (s.threads i) m → Owns (s.threads j) n → m % 2 ^ k ≢ n % 2 ^ k
  owners_apart i j m n apart (inl w) (inl u) e =
      let same : n ≡ m = sym (written j n u) ∙ ap turn (sym e) ∙ written i m w in
      apart (sound.valid.one_writer i j m w (u ∙ ap some same))
  owners_apart i j m n apart (inr r) (inr u) e =
      let same : n + 1 ≡ m + 1 = sym (read j n u) ∙ ap turn (sym e) ∙ read i m r in
      let is : n ≡ m = omega arith in apart (sound.valid.one_reader i j m r (u ∙ ap some is))
  owners_apart i j m n apart (inl w) (inr u) e =
      let next : m ≡ n + 1 = sym (written i m w) ∙ ap turn e ∙ read j n u in
      mod_ne (2 ^ k) n m (omega arith) (omega arith) (sym e)
  owners_apart i j m n apart (inr r) (inl u) e =
      let next : n ≡ m + 1 = sym (written j n u) ∙ ap turn (sym e) ∙ read i m r in
      mod_ne (2 ^ k) m n (omega arith) (omega arith) e

  -- With at least two cells and fewer than 2^63 items and cells, two threads never have the same
  -- cell, however the threads interleave: a thread that has reserved a cell has it for itself.
  pub no_shared_cell :
      (i j m n : ℕ)
      → i ≢ j
      → Owns (s.threads i) m
      → Owns (s.threads j) n
      → bit_and m s.queue.capacity_mask ≢ bit_and n s.queue.capacity_mask
  no_shared_cell i j m n apart one other e =
      owners_apart i j m n apart one other
        (sym (index k value two sound small i m) ∙ e ∙ index k value two sound small i n)

  -- No step of any thread meets undefined behaviour.
  pub no_step_faults :
      (i : ℕ) (spurious : Bool) → thread_step spurious (s.threads i) s.queue ≢ fault
  no_step_faults i spurious f =
      let (r, e, v) = advance k value two sound small i spurious (s.threads i) refl in cc

  pub refused_turn :
      (i : ℕ) (spurious : Bool) (x : T) (pos : ℕ)
      → s.threads i ≡ push_checking x pos
      → thread_step spurious (push_checking x pos) s.queue ≡ ok (s.queue, pushed false)
      → turn (pos % 2 ^ k) < pos
  unfolding thread_step
  refused_turn i spurious x pos here refused =
      let low : pos ≤ length items =
        at_place k value two sound small i (push_checking x pos) here in
      elim (dif_lem (turn (pos % 2 ^ k)) pos (turn_small k value two sound small i pos)
        (omega arith)) [
          | inl (e, less) ↦ less
          | inr (inl (e, same)) ↦
              let goes : thread_step spurious (push_checking x pos) s.queue
                  ≡ ok (s.queue, push_swapping x pos) =
                rw (index k value two sound small i pos, found k value two sound small i pos, e)
                  refl in
              cc
          | inr (inr (e, more)) ↦
              let goes : thread_step spurious (push_checking x pos) s.queue
                  ≡ ok (s.queue, push_loading x) =
                rw (index k value two sound small i pos, found k value two sound small i pos, e)
                  refl in
              cc
        ]

  empty_turn :
      (i : ℕ) (spurious : Bool) (pos : ℕ)
      → s.threads i ≡ pop_checking pos
      → thread_step spurious (pop_checking pos) s.queue ≡ ok (s.queue, popped none)
      → turn (pos % 2 ^ k) < pos + 1
  unfolding thread_step
  empty_turn i spurious pos here refused =
      let low : pos ≤ s.queue.dequeue_pos =
        at_place k value two sound small i (pop_checking pos) here in
      let next : (pos + 1) % 2 ^ 64 ≡ pos + 1 = omega (arith, sound.valid.order) in
      elim (dif_lem (turn (pos % 2 ^ k)) (pos + 1) (turn_small k value two sound small i pos)
        (omega (arith, sound.valid.order))) [
          | inl (e, less) ↦ less
          | inr (inl (e, same)) ↦
              let goes : thread_step spurious (pop_checking pos) s.queue
                  ≡ ok (s.queue, pop_swapping pos) =
                rw
                  (
                    index k value two sound small i pos,
                    found k value two sound small i pos,
                    next,
                    e,
                  )
                  refl in
              cc
          | inr (inr (e, more)) ↦
              let goes : thread_step spurious (pop_checking pos) s.queue
                  ≡ ok (s.queue, pop_loading) =
                rw
                  (
                    index k value two sound small i pos,
                    found k value two sound small i pos,
                    next,
                    e,
                  )
                  refl in
              cc
        ]

  -- With at least two cells and fewer than 2^63 items and cells, `pop` gives up only when there is
  -- nothing to take: at its comparison every reserved position is taken, or the oldest that is not is
  -- still with the thread that writes it.
  pub nothing_to_pop :
      (i : ℕ) (spurious : Bool) (pos : ℕ)
      → s.threads i ≡ pop_checking pos
      → thread_step spurious (pop_checking pos) s.queue ≡ ok (s.queue, popped none)
      → (length items ≡ s.queue.dequeue_pos)
        ⊎ ((j : ℕ) × (writes (s.threads j) ≡ some s.queue.dequeue_pos))
  nothing_to_pop i spurious pos here refused =
      let v = sound.valid in
      let D : ℕ = s.queue.dequeue_pos in
      let low : pos ≤ D = at_place k value two sound small i (pop_checking pos) here in
      let early : turn (pos % 2 ^ k) < pos + 1 = empty_turn i spurious pos here refused in
      elim (dec_lt pos D) [
        | yes stale ↦ absurd (omega (arith, v.taken_from pos stale))
        | no fresh ↦ elim (dec_lt D (length items)) [
          | yes more ↦
              let now : pos ≡ D = omega arith in
              inr (
                v.write_owned D more (
                  let at : turn (pos % 2 ^ k) ≡ turn (D % 2 ^ k) = ap (λ c. turn (c % 2 ^ k)) now in
                  omega (arith, v.reserved_from D more)))
          | no none_left ↦ inl (omega (arith, v.order))
        ]
      ]
