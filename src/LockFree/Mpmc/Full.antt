-- ===== src/LockFree/Mpmc/Full.antt =====
-- When `push` of MPMCQueue gives up.
use native.Mathlib.Nat.{mod-lt, add-mod_right}
use native.Mathlib.Decide.{dec_lt}
use counter_drone_server.Base.{
  ℕ, ◌+◌, ◌-◌, ◌%◌, ◌^◌, ◌≤◌, ◌<◌, ◌≡◌, ◌⊎◌, inl, inr, sym, ap, ◌∙◌, arith, List, Bool, false, ok,
  length,
}
use counter_drone_server.LockFree.Spsc.Cells.{mod_ne}
use counter_drone_server.LockFree.Mpmc.{push_checking, pushed, thread_step, System, Reach}
use counter_drone_server.LockFree.Mpmc.Advance.{at_place}
use counter_drone_server.LockFree.Mpmc.Exclusive.{Owns, sound, turn, refused_turn}

module _ {ℓ} {T : Type ℓ} (k : ℕ) {value : T} {items : List T} {s : System T} (two : 2 ≤ 2 ^ k)
    (small : length items + 2 ^ k < 2 ^ 63) (steps : Reach value (2 ^ k) items s) where
  -- A round before the next position, when the cell has not come to it.
  abbrev Occupied : Type 0
  Occupied =
      (2 ^ k ≤ length items)
      × ((s.queue.dequeue_pos + 2 ^ k ≤ length items)
          ⊎ ((j : ℕ) × Owns (s.threads j) (length items - 2 ^ k)))

  occupied : turn k two small steps (length items % 2 ^ k) < length items → Occupied
  occupied late =
      let v = (sound k two small steps).valid in
      let E : ℕ = length items in
      let c : ℕ = E % 2 ^ k in
      let n : ℕ = E - 2 ^ k in
      elim (v.phase c (mod-lt E (omega arith))) [
        | inl same ↦
            let round : turn k two small steps c + 2 ^ k ≤ E =
              elim (dec_lt E (turn k two small steps c + 2 ^ k)) [
                | yes near ↦ absurd (mod_ne (2 ^ k) (turn k two small steps c) E late near same)
                | no far ↦ omega arith
              ] in
            let whole : n + 2 ^ k ≡ E = omega arith in
            let place : n % 2 ^ k ≡ c = sym (add-mod_right n (2 ^ k)) ∙ ap (λ m. m % 2 ^ k) whole in
            let at : turn k two small steps (n % 2 ^ k) ≡ turn k two small steps c =
              ap (turn k two small steps) place in
            let (j, w) =
              v.write_owned n (omega arith) (omega (arith, v.reserved_from n (omega arith))) in
            (omega arith, inr (j, inl w))
        | inr (m, next, here) ↦
            let round : m + 2 ^ k ≤ E = elim (dec_lt E (m + 2 ^ k)) [
              | yes near ↦ absurd (mod_ne (2 ^ k) m E (omega arith) near here)
              | no far ↦ omega arith
            ] in
            let whole : n + 2 ^ k ≡ E = omega arith in
            let place : n % 2 ^ k ≡ c = sym (add-mod_right n (2 ^ k)) ∙ ap (λ m. m % 2 ^ k) whole in
            let at : turn k two small steps (n % 2 ^ k) ≡ turn k two small steps c =
              ap (turn k two small steps) place in
            let before : n ≤ m = elim (dec_lt m n) [
              | yes less ↦ absurd (
                  mod_ne (2 ^ k) m n less (omega (arith, v.reserved_from n (omega arith)))
                    (here ∙ sym place))
              | no past ↦ omega arith
            ] in
            (
              omega arith,
              elim (dec_lt n s.queue.dequeue_pos) [
                | yes taken ↦ let (j, r) = v.read_owned n taken (omega arith) in inr (j, inr r)
                | no left ↦ inl (omega arith)
              ],
            )
      ]

  -- With at least two cells and fewer than 2^63 items and cells, `push` gives up only when the queue
  -- is full: at its comparison at least as many positions are reserved and not taken as there are
  -- cells, or a thread is still at the cell, a round before.
  pub refused_when_occupied :
      (i : ℕ) (spurious : Bool) (x : T) (pos : ℕ)
      → s.threads i ≡ push_checking x pos
      → thread_step spurious (push_checking x pos) s.queue ≡ ok (s.queue, pushed false)
      → (2 ^ k ≤ length items)
        × ((s.queue.dequeue_pos + 2 ^ k ≤ length items)
            ⊎ ((j : ℕ) × Owns (s.threads j) (length items - 2 ^ k)))
  refused_when_occupied i spurious x pos here refused =
      let v = (sound k two small steps).valid in
      let low : pos ≤ length items =
        at_place k value two (sound k two small steps) small i (push_checking x pos) here in
      let early : turn k two small steps (pos % 2 ^ k) < pos =
        refused_turn k two small steps i spurious x pos here refused in
      elim (dec_lt pos (length items)) [
        | yes stale ↦ absurd (omega (arith, v.reserved_from pos stale))
        | no fresh ↦
            let now : pos ≡ length items = omega arith in
            let at : turn k two small steps (pos % 2 ^ k)
                ≡ turn k two small steps (length items % 2 ^ k) =
              ap (λ c. turn k two small steps (c % 2 ^ k)) now in
            occupied (omega arith)
      ]
