-- ===== src/LockFree/Mpmc/Sound.antt =====
-- MPMCQueue's invariant holds however the steps of its threads interleave.
use native.Mathlib.Nat.{mod-lt}
use counter_drone_server.Base.{
  ℕ, ◌+◌, ◌-◌, ◌%◌, ◌^◌, ◌≤◌, ◌<◌, ◌≡◌, ◌≢◌, ◌⊎◌, sym, ap, ◌∙◌, arith, bit_and, List, [], ◌++◌,
  append-nil, none, some, Bool, ok, length, get_elem?, get_or, get_elem?-eq-get_or, set, length-set,
  get_or-set_self, get_or-set_ne,
}
use counter_drone_server.Bits.Mask.{bit_and-low}
use counter_drone_server.LockFree.Mpmc.{
  Cell, MpmcQueue, Thread, negative, null, positive, dif, thread_step, reserved, at_thread,
}
use counter_drone_server.LockFree.Mpmc.Valid.{writes, reads, ThreadAt, holds, IsValid}
use counter_drone_server.LockFree.Mpmc.Reserve.{moved}

-- Below 2^63 the sign is that of the comparison.
pub dif_lem :
    (a b : ℕ)
    → a < 2 ^ 63
    → b < 2 ^ 63
    → ((dif a b ≡ ok negative) × (a < b))
      ⊎ (((dif a b ≡ ok null) × (a ≡ b)) ⊎ ((dif a b ≡ ok positive) × (b < a)))
dif_lem a b small_a small_b =
    let ea : (a + 2 ^ 63) % 2 ^ 64 ≡ a + 2 ^ 63 = omega arith in
    let eb : (b + 2 ^ 63) % 2 ^ 64 ≡ b + 2 ^ 63 = omega arith in rw (ea, eb) (ground arith)

module _ {ℓ} {T : Type ℓ} (k : ℕ) (value : T) where
  -- The cells of the queue; outside of the buffer there is none.
  abbrev pub cells_of : MpmcQueue T → ℕ → Cell T
  cells_of q j = get_or q.buffer j (record { sequence = 0; item = value })

  pub record IsSound (items : List T) (q : MpmcQueue T) (threads : ℕ → Thread T) : Type ℓ where
    pub size : length q.buffer ≡ 2 ^ k
    pub mask : q.capacity_mask ≡ 2 ^ k - 1
    pub next : q.enqueue_pos ≡ length items
    pub valid : IsValid (2 ^ k) (cells_of q) items q.dequeue_pos threads

  module _ (two : 2 ≤ 2 ^ k) {items : List T} {q : MpmcQueue T} {threads : ℕ → Thread T}
      (s : IsSound items q threads) (small : length items + 2 ^ k < 2 ^ 63) (i : ℕ) where
    pub index : (pos : ℕ) → bit_and pos q.capacity_mask ≡ pos % 2 ^ k
    index pos = ap (bit_and pos) s.mask ∙ bit_and-low k pos

    inside : (pos : ℕ) → pos % 2 ^ k < length q.buffer
    inside pos = let l : pos % 2 ^ k < 2 ^ k = mod-lt pos (omega arith) in omega (arith, s.size)

    pub found : (pos : ℕ) → get_elem? q.buffer (pos % 2 ^ k) ≡ some (cells_of q (pos % 2 ^ k))
    found pos = get_elem?-eq-get_or q.buffer (pos % 2 ^ k) _ (inside pos)

    -- A step of the thread from `p`.
    abbrev pub Advances : Bool → Thread T → Type ℓ
    Advances spurious p =
        (r : MpmcQueue T × Thread T) × (thread_step spurious p q ≡ ok r)
        × IsSound (items ++ reserved spurious p q) (r.0) (at_thread i (r.1) threads)

    still :
        (p : Thread T)
        → IsValid (2 ^ k) (cells_of q) items q.dequeue_pos (at_thread i p threads)
        → IsSound (items ++ []) q (at_thread i p threads)
    still p v =
        rw (append-nil items) (record { size = s.size; mask = s.mask; next = s.next; valid = v })

    -- A step that changes neither what is shared nor what the thread has reserved.
    pub idles :
        (p p' : Thread T)
        → threads i ≡ p
        → ThreadAt (2 ^ k) (cells_of q) (length items) q.dequeue_pos p'
        → writes p' ≡ none
        → reads p' ≡ none
        → holds (2 ^ k) (cells_of q) p' ≡ none
        → writes p ≡ none
        → reads p ≡ none
        → IsSound (items ++ []) q (at_thread i p' threads)
    idles p p' here at w' r' h' w r = still p' (
        moved s.valid i p' at (w' ∙ sym (ap writes here ∙ w)) (r' ∙ sym (ap reads here ∙ r))
          (λ n x e. cc))

    pub stores :
        (pos : ℕ) (c : Cell T)
        → (j : ℕ) → j ≢ pos % 2 ^ k
        → cells_of (record q { buffer = set q.buffer (pos % 2 ^ k) c }) j ≡ cells_of q j
    stores pos c j far = get_or-set_ne q.buffer (pos % 2 ^ k) j c _ (λ e. far (sym e))

    pub stored :
        (pos : ℕ) (c : Cell T)
        → cells_of (record q { buffer = set q.buffer (pos % 2 ^ k) c }) (pos % 2 ^ k) ≡ c
    stored pos c = get_or-set_self q.buffer (pos % 2 ^ k) c _ (inside pos)

    pub changed :
        (pos : ℕ) (c : Cell T) (p : Thread T)
        → IsValid
            (2 ^ k)
            (cells_of (record q { buffer = set q.buffer (pos % 2 ^ k) c }))
            items
            q.dequeue_pos
            (at_thread i p threads)
        → IsSound
            (items ++ [])
            (record q { buffer = set q.buffer (pos % 2 ^ k) c })
            (at_thread i p threads)
    changed pos c p v = rw (append-nil items) (record {
      size = length-set q.buffer (pos % 2 ^ k) c ∙ s.size;
      mask = s.mask;
      next = s.next;
      valid = v;
    })
