-- ===== src/LockFree/Mpmc/Steps.antt =====
-- MPMCQueue: the exchanges and the writes of a thread, and all its steps.
use mathlib.Core.Path.{subst}
use counter_drone_server.Base.{
  ℕ, ◌+◌, ◌%◌, ◌^◌, ◌≤◌, ◌<◌, ◌≡◌, inl, inr, refl, sym, ap, ◌∙◌, arith, List, [], ◌∷◌, ◌++◌,
  append-nil, some, Bool, true, Bool-cases, length, set,
}
use counter_drone_server.LockFree.Mpmc.{
  Cell, MpmcQueue, Thread, outside, push_loading, push_checking, push_swapping, push_writing,
  push_releasing, pushed, pop_loading, pop_checking, pop_swapping, pop_reading, pop_releasing,
  popped, exchanges, thread_step, at_thread,
}
use counter_drone_server.LockFree.Mpmc.Valid.{writes, reads, IsValid}
use counter_drone_server.LockFree.Mpmc.Reserve.{moved, reserve, take_place}
use counter_drone_server.LockFree.Mpmc.Store.{write_item, publish, give_back}
use counter_drone_server.Base.{length-append}
use counter_drone_server.LockFree.Mpmc.Sound.{
  cells_of, IsSound, index, found, Advances, idles, stores, stored, changed,
}
use counter_drone_server.LockFree.Mpmc.Advance.{
  at_place, advance_push_loading, advance_pop_loading, advance_push_checking, advance_pop_checking,
}

exchanges_lem :
    (spurious : Bool) (pos current : ℕ) → exchanges spurious pos current ≡ true → pos ≡ current
exchanges_lem spurious pos current e = ground arith

module _ {ℓ} {T : Type ℓ} (k : ℕ) (value : T) (two : 2 ≤ 2 ^ k) {items : List T} {q : MpmcQueue T}
    {threads : ℕ → Thread T} (s : IsSound k value items q threads)
    (small : length items + 2 ^ k < 2 ^ 63) (i : ℕ) where
  advance_push_swapping :
      (spurious : Bool) (x : T) (pos : ℕ)
      → threads i ≡ push_swapping x pos
      → Advances k value two s small i spurious (push_swapping x pos)
  unfolding thread_step
  advance_push_swapping spurious x pos here =
      elim (Bool-cases (exchanges spurious pos q.enqueue_pos)) [
        | inl won ↦
            let last : pos ≡ length items = exchanges_lem spurious pos q.enqueue_pos won ∙ s.next in
            let grown : length (items ++ x ∷ []) ≡ length items + 1 =
              length-append items (x ∷ []) in
            rw won (
              _,
              refl,
              record {
                size = s.size;
                mask = s.mask;
                next = omega arith;
                valid = reserve s.valid i x pos here last;
              },
            )
        | inr lost ↦ rw lost (
          (q, push_checking x q.enqueue_pos),
          refl,
          idles k value two s small i (push_swapping x pos) (push_checking x q.enqueue_pos) here
              (omega (arith, s.next)) refl refl refl refl refl,
        )
      ]

  advance_pop_swapping :
      (spurious : Bool) (pos : ℕ)
      → threads i ≡ pop_swapping pos
      → Advances k value two s small i spurious (pop_swapping pos)
  unfolding thread_step
  advance_pop_swapping spurious pos here =
      elim (Bool-cases (exchanges spurious pos q.dequeue_pos)) [
        | inl won ↦
            let last : pos ≡ q.dequeue_pos = exchanges_lem spurious pos q.dequeue_pos won in
            let taken : (pos + 1) % 2 ^ 64 ≡ q.dequeue_pos + 1 = omega (arith, s.valid.order) in
            rw (won, append-nil items)
              (
                _,
                refl,
                record {
                  size = s.size;
                  mask = s.mask;
                  next = s.next;
                  valid =
                      subst
                        (λ D.
                          IsValid (2 ^ k) (cells_of k value q) items D
                            (at_thread i (pop_reading pos) threads))
                        (sym taken) (take_place s.valid i pos here last);
                },
              )
        | inr lost ↦ rw lost (
          (q, pop_checking q.dequeue_pos),
          refl,
          idles k value two s small i (pop_swapping pos) (pop_checking q.dequeue_pos) here
              (omega arith) refl refl refl refl refl,
        )
      ]

  advance_push_writing :
      (spurious : Bool) (x : T) (pos : ℕ)
      → threads i ≡ push_writing x pos
      → Advances k value two s small i spurious (push_writing x pos)
  unfolding thread_step
  advance_push_writing spurious x pos here =
      let c : Cell T = record (cells_of k value q (pos % 2 ^ k)) { item = x } in
      let cells' : ℕ → Cell T =
        cells_of k value (record q { buffer = set q.buffer (pos % 2 ^ k) c }) in
      let now : cells' (pos % 2 ^ k) ≡ c = stored k value two s small i pos c in
      (
        _,
        rw (index k value two s small i pos, found k value two s small i pos) refl,
        changed k value two s small i pos c (push_releasing pos) (
            write_item two s.valid i pos cells' (stores k value two s small i pos c) x here
              (ap (λ (y : Cell T). y.sequence) now) (ap (λ (y : Cell T). y.item) now)),
      )

  advance_push_releasing :
      (spurious : Bool) (pos : ℕ)
      → threads i ≡ push_releasing pos
      → Advances k value two s small i spurious (push_releasing pos)
  unfolding thread_step
  advance_push_releasing spurious pos here =
      let c : Cell T = record (cells_of k value q (pos % 2 ^ k)) {
        sequence = (pos + 1) % 2 ^ 64;
      } in
      let cells' : ℕ → Cell T =
        cells_of k value (record q { buffer = set q.buffer (pos % 2 ^ k) c }) in
      let now : cells' (pos % 2 ^ k) ≡ c = stored k value two s small i pos c in
      let (less, turn) = at_place k value two s small i (push_releasing pos) here in
      let exact : (pos + 1) % 2 ^ 64 ≡ pos + 1 = omega arith in
      (
        _,
        rw (index k value two s small i pos, found k value two s small i pos) refl,
        changed k value two s small i pos c (pushed true) (
            publish two s.valid i pos cells' (stores k value two s small i pos c) here
              (ap (λ (y : Cell T). y.sequence) now ∙ exact) (ap (λ (y : Cell T). y.item) now)),
      )

  advance_pop_reading :
      (spurious : Bool) (pos : ℕ)
      → threads i ≡ pop_reading pos
      → Advances k value two s small i spurious (pop_reading pos)
  unfolding thread_step
  advance_pop_reading spurious pos here =
      let (less, turn) = at_place k value two s small i (pop_reading pos) here in
      let x : T = (cells_of k value q (pos % 2 ^ k)).item in
      let (below, is) = s.valid.full pos turn in
      rw (append-nil items) (
        (q, pop_releasing x pos),
        rw (index k value two s small i pos, found k value two s small i pos) refl,
        record {
          size = s.size;
          mask = s.mask;
          next = s.next;
          valid =
              moved s.valid i (pop_releasing x pos) (less, turn) (sym (ap writes here))
                (sym (ap reads here)) (λ n y e. cc (e, is));
        },
      )

  advance_pop_releasing :
      (spurious : Bool) (x : T) (pos : ℕ)
      → threads i ≡ pop_releasing x pos
      → Advances k value two s small i spurious (pop_releasing x pos)
  unfolding thread_step
  advance_pop_releasing spurious x pos here =
      let c : Cell T = record (cells_of k value q (pos % 2 ^ k)) {
        sequence = ((pos + q.capacity_mask) % 2 ^ 64 + 1) % 2 ^ 64;
      } in
      let cells' : ℕ → Cell T =
        cells_of k value (record q { buffer = set q.buffer (pos % 2 ^ k) c }) in
      let now : cells' (pos % 2 ^ k) ≡ c = stored k value two s small i pos c in
      let (less, turn) = at_place k value two s small i (pop_releasing x pos) here in
      let exact : ((pos + q.capacity_mask) % 2 ^ 64 + 1) % 2 ^ 64 ≡ pos + 2 ^ k =
        omega (arith, s.mask, s.valid.order) in
      (
        _,
        rw (index k value two s small i pos, found k value two s small i pos) refl,
        changed k value two s small i pos c (popped (some x)) (
            give_back two s.valid i pos cells' (stores k value two s small i pos c) x here
              (ap (λ (y : Cell T). y.sequence) now ∙ exact)),
      )

  -- Whatever place the thread is in.
  pub advance :
      (spurious : Bool) (p : Thread T) → threads i ≡ p → Advances k value two s small i spurious p
  unfolding thread_step
  advance spurious outside here =
      (_, refl, idles k value two s small i outside outside here tt refl refl refl refl refl)
  advance spurious (push_loading data_in) here =
      advance_push_loading k value two s small i spurious data_in here
  advance spurious (push_checking data_in pos) here =
      advance_push_checking k value two s small i spurious data_in pos here
  advance spurious (push_swapping data_in pos) here =
      advance_push_swapping spurious data_in pos here
  advance spurious (push_writing data_in pos) here = advance_push_writing spurious data_in pos here
  advance spurious (push_releasing pos) here = advance_push_releasing spurious pos here
  advance spurious (pushed done) here = (
    _,
    refl,
    idles k value two s small i (pushed done) (pushed done) here tt refl refl refl refl refl,
  )
  advance spurious pop_loading here = advance_pop_loading k value two s small i spurious here
  advance spurious (pop_checking pos) here =
      advance_pop_checking k value two s small i spurious pos here
  advance spurious (pop_swapping pos) here = advance_pop_swapping spurious pos here
  advance spurious (pop_reading pos) here = advance_pop_reading spurious pos here
  advance spurious (pop_releasing out_data pos) here =
      advance_pop_releasing spurious out_data pos here
  advance spurious (popped out_data) here = (
    _,
    refl,
    idles k value two s small i (popped out_data) (popped out_data) here tt refl refl refl refl
        refl,
  )
