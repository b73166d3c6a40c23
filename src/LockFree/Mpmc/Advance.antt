-- ===== src/LockFree/Mpmc/Advance.antt =====
-- MPMCQueue's invariant holds after each step of a thread.
use mathlib.Core.Path.{subst}
use native.Mathlib.Nat.{mod-lt}
use counter_drone_server.Base.{
  ℕ, ◌+◌, ◌%◌, ◌^◌, ◌≤◌, ◌<◌, ◌≡◌, inl, inr, refl, arith, List, none, Bool, false, length,
}
use counter_drone_server.LockFree.Mpmc.{
  MpmcQueue, Thread, push_loading, push_checking, push_swapping, pushed, pop_loading, pop_checking,
  pop_swapping, popped, thread_step,
}
use counter_drone_server.LockFree.Mpmc.Valid.{ThreadAt}
use counter_drone_server.LockFree.Mpmc.Sound.{
  dif_lem, cells_of, IsSound, index, found, Advances, idles,
}

module _ {ℓ} {T : Type ℓ} (k : ℕ) (value : T) (two : 2 ≤ 2 ^ k) {items : List T} {q : MpmcQueue T}
    {threads : ℕ → Thread T} (s : IsSound k value items q threads)
    (small : length items + 2 ^ k < 2 ^ 63) (i : ℕ) where
  pub at_place :
      (p : Thread T)
      → threads i ≡ p
      → ThreadAt (2 ^ k) (cells_of k value q) (length items) q.dequeue_pos p
  at_place p here =
      subst (ThreadAt (2 ^ k) (cells_of k value q) (length items) q.dequeue_pos) here
        (s.valid.thread_at i)

  pub turn_small : (pos : ℕ) → (cells_of k value q (pos % 2 ^ k)).sequence < 2 ^ 63
  turn_small pos =
      let inside : pos % 2 ^ k < 2 ^ k = mod-lt pos (omega arith) in
      omega (arith, s.valid.bounded (pos % 2 ^ k) inside)

  pub advance_push_loading :
      (spurious : Bool) (x : T)
      → threads i ≡ push_loading x
      → Advances k value two s small i spurious (push_loading x)
  unfolding thread_step
  advance_push_loading spurious x here = (
    _,
    refl,
    idles k value two s small i (push_loading x) (push_checking x q.enqueue_pos) here
        (omega (arith, s.next)) refl refl refl refl refl,
  )

  pub advance_pop_loading :
      (spurious : Bool)
      → threads i ≡ pop_loading
      → Advances k value two s small i spurious pop_loading
  unfolding thread_step
  advance_pop_loading spurious here = (
    _,
    refl,
    idles k value two s small i pop_loading (pop_checking q.dequeue_pos) here (omega arith) refl
        refl refl refl refl,
  )

  pub advance_push_checking :
      (spurious : Bool) (x : T) (pos : ℕ)
      → threads i ≡ push_checking x pos
      → Advances k value two s small i spurious (push_checking x pos)
  unfolding thread_step
  advance_push_checking spurious x pos here =
      let low : pos ≤ length items = at_place (push_checking x pos) here in
      elim (dif_lem ((cells_of k value q (pos % 2 ^ k)).sequence) pos (turn_small pos)
        (omega arith)) [
          | inl (e, less) ↦ (
            (q, pushed false),
            rw (index k value two s small i pos, found k value two s small i pos, e) refl,
            idles k value two s small i (push_checking x pos) (pushed false) here tt refl refl refl
                refl refl,
          )
          | inr (inl (e, same)) ↦ (
            (q, push_swapping x pos),
            rw (index k value two s small i pos, found k value two s small i pos, e) refl,
            idles k value two s small i (push_checking x pos) (push_swapping x pos) here
                (low, λ h. same) refl refl refl refl refl,
          )
          | inr (inr (e, more)) ↦ (
            (q, push_loading x),
            rw (index k value two s small i pos, found k value two s small i pos, e) refl,
            idles k value two s small i (push_checking x pos) (push_loading x) here tt refl refl
                refl refl refl,
          )
        ]

  pub advance_pop_checking :
      (spurious : Bool) (pos : ℕ)
      → threads i ≡ pop_checking pos
      → Advances k value two s small i spurious (pop_checking pos)
  unfolding thread_step
  advance_pop_checking spurious pos here =
      let low : pos ≤ q.dequeue_pos = at_place (pop_checking pos) here in
      let next : (pos + 1) % 2 ^ 64 ≡ pos + 1 = omega (arith, s.valid.order) in
      elim (dif_lem ((cells_of k value q (pos % 2 ^ k)).sequence) (pos + 1) (turn_small pos)
        (omega (arith, s.valid.order))) [
          | inl (e, less) ↦ (
            (q, popped none),
            rw (index k value two s small i pos, found k value two s small i pos, next, e) refl,
            idles k value two s small i (pop_checking pos) (popped none) here tt refl refl refl refl
                refl,
          )
          | inr (inl (e, same)) ↦ (
            (q, pop_swapping pos),
            rw (index k value two s small i pos, found k value two s small i pos, next, e) refl,
            idles k value two s small i (pop_checking pos) (pop_swapping pos) here (low, λ h. same)
                refl refl refl refl refl,
          )
          | inr (inr (e, more)) ↦ (
            (q, pop_loading),
            rw (index k value two s small i pos, found k value two s small i pos, next, e) refl,
            idles k value two s small i (pop_checking pos) pop_loading here tt refl refl refl refl
                refl,
          )
        ]
