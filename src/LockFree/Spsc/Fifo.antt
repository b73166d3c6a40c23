-- ===== src/LockFree/Spsc/Fifo.antt =====
-- What SPSCQueue promises to its two threads, however their steps interleave.
use mathlib.Core.Path.{subst}
use native.Mathlib.Nat.{mod-lt}
use native.Mathlib.Decide.{dec_lt}
use counter_drone_server.Base.{
  ℕ, ◌+◌, ◌-◌, ◌%◌, ◌^◌, ◌≤◌, ◌<◌, ◌≡◌, ◌≢◌, inl, inr, refl, sym, ap, ◌∙◌, arith, List, [], ◌∷◌,
  ◌++◌, append-nil, append_assoc, false, Option, none, some, if◌then◌else◌, ◌==◌, ==_iff,
  Bool-cases, ok, fault, length, length-append,
}
use counter_drone_server.LockFree.Spsc.{
  SpscQueue, Producer, loading_tail, checking_full, writing, storing_tail, pushed, Consumer,
  loading_head, checking_empty, reading, storing_head, popped, all_loading_head, all_checking_empty,
  draining, drained, next_index, producer_step, consumer_step, System, Reach,
}
use counter_drone_server.LockFree.Spsc.Cells.{mod_ne, next_index_lem, cells, length-cells}
use counter_drone_server.LockFree.Spsc.Valid.{ProducerAt, ConsumerAt, held}
use counter_drone_server.LockFree.Spsc.Produce.{produce}
use counter_drone_server.LockFree.Spsc.Consume.{consume}
use counter_drone_server.LockFree.Spsc.Sound.{IsSound, reach-IsSound}

-- The place of the buffer that the producer's step writes, and that the consumer's step reads.
abbrev pub written_place {ℓ} : {T : Type ℓ} → Producer T → Option ℕ
written_place (writing item tail next) = some tail
written_place p = none

abbrev pub read_place {ℓ} : {T : Type ℓ} → Consumer T → Option ℕ
read_place (reading head) = some head
read_place (draining head tail items) = if head == tail then none else some head
read_place c = none

length-held {ℓ} :
    {T : Type ℓ} (cap H C E S : ℕ) (c : Consumer T)
    → H ≤ C
    → ConsumerAt cap H C E S c
    → length (held c) ≡ C - H
length-held cap H C E S Consumer.outside read at = omega arith
length-held cap H C E S loading_head read at = omega arith
length-held cap H C E S (checking_empty head) read at = omega arith
length-held cap H C E S (reading head) read at = omega arith
length-held cap H C E S (storing_head item next) read at = omega arith
length-held cap H C E S (popped item) read at = omega arith
length-held cap H C E S all_loading_head read at = omega arith
length-held cap H C E S (all_checking_empty head) read at = omega arith
length-held cap H C E S (draining head tail items) read at = at.4
length-held cap H C E S (drained items) read at = omega arith

written_place_lem {ℓ} :
    {T : Type ℓ} (cap H S i : ℕ) (p : Producer T)
    → ProducerAt cap H S p
    → written_place p ≡ some i
    → i ≡ S % cap
written_place_lem cap H S i (writing item tail next) at e = cc (at.0)
written_place_lem cap H S i Producer.outside at e = cc
written_place_lem cap H S i (loading_tail item) at e = cc
written_place_lem cap H S i (checking_full item tail) at e = cc
written_place_lem cap H S i (storing_tail item next) at e = cc
written_place_lem cap H S i (pushed done) at e = cc

read_place_lem {ℓ} :
    {T : Type ℓ} (cap H C E S i : ℕ) (c : Consumer T)
    → ConsumerAt cap H C E S c
    → read_place c ≡ some i
    → (i ≡ C % cap) × (C < S)
read_place_lem cap H C E S i (reading head) (none_read, at, more) e =
    let place : i ≡ H % cap = cc in (place ∙ ap (λ k. k % cap) (sym none_read), omega arith)
read_place_lem cap H C E S i (draining head tail items) (at, stop, low, high, taken) e =
    elim (Bool-cases (head == tail)) [
      | inl done ↦ cc (ap (λ b. if b then none else some head) (sym done) ∙ e)
      | inr more ↦
          let place : i ≡ head = cc (ap (λ b. if b then none else some head) (sym more) ∙ e) in
          let apart : C ≢ E =
            λ q. cc ((==_iff head tail).1 (at ∙ ap (λ k. k % cap) q ∙ sym stop), more) in
          (place ∙ at, omega arith)
    ]
read_place_lem cap H C E S i Consumer.outside at e = cc
read_place_lem cap H C E S i loading_head at e = cc
read_place_lem cap H C E S i (checking_empty head) at e = cc
read_place_lem cap H C E S i (storing_head item next) at e = cc
read_place_lem cap H C E S i (popped item) at e = cc
read_place_lem cap H C E S i all_loading_head at e = cc
read_place_lem cap H C E S i (all_checking_empty head) at e = cc
read_place_lem cap H C E S i (drained items) at e = cc

empty_list {ℓ} : {T : Type ℓ} (xs : List T) → length xs ≡ 0 → xs ≡ []
empty_list [] e = refl
empty_list (x ∷ xs) e = absurd (omega arith)

refused_compare {ℓ} :
    {T : Type ℓ} (item : T) (tail : ℕ) (q : SpscQueue T)
    → producer_step (checking_full item tail) q ≡ ok (q, pushed false)
    → next_index q.capacity tail ≡ q.head
unfolding producer_step
refused_compare item tail q refused = ground arith

empty_compare {ℓ} :
    {T : Type ℓ} (moved : T → T) (head : ℕ) (q : SpscQueue T)
    → consumer_step moved (checking_empty head) q ≡ ok (q, popped none)
    → head ≡ q.tail
unfolding consumer_step
empty_compare moved head q refused = ground arith

module _ {ℓ} {T : Type ℓ} {moved : T → T} {value : T} {capacity : ℕ} {items : List T} {s : System T}
    (small : capacity + 1 < 2 ^ 64) (steps : Reach moved value capacity items s) where
  sound : IsSound moved value capacity items s
  sound = reach-IsSound moved value capacity small steps

  in_ring : List T
  in_ring =
      held s.consumer ++ cells s.queue.capacity value s.queue.buffer sound.C (sound.S - sound.C)

  length-in_ring : length in_ring ≡ sound.S - sound.H
  unfolding in_ring
  length-in_ring = omega (
    arith,
    length-append (held s.consumer)
        (cells s.queue.capacity value s.queue.buffer sound.C (sound.S - sound.C)),
    length-cells s.queue.capacity value s.queue.buffer sound.C (sound.S - sound.C),
    length-held s.queue.capacity sound.H sound.C sound.E sound.S s.consumer sound.valid.read
        sound.valid.consumer_at,
    sound.valid.read,
    sound.valid.behind,
  )

  contents : items ≡ s.received ++ in_ring
  unfolding in_ring
  contents = sound.valid.log ∙ append_assoc s.received _ _

  -- No step of either thread meets undefined behaviour.
  no_faults :
      (producer_step s.producer s.queue ≢ fault) × (consumer_step moved s.consumer s.queue ≢ fault)
  no_faults =
      let (r, e, v) =
        produce value s.queue s.consumer s.received items sound.H sound.C sound.E sound.S s.producer
          sound.valid in
      let (r', e', w) =
        consume value moved s.queue s.producer s.received items sound.H sound.C sound.E sound.S
          s.consumer sound.valid in
      (λ f. cc, λ f. cc)

  -- However the threads interleave, what the consumer has taken out is the beginning of what the
  -- producer has put in, in order and without loss or repetition, and what is still in the queue is
  -- never more than the capacity that the queue was made with, which is below 2^64 - 1. No step of
  -- either thread meets undefined behaviour.
  pub received_in_order :
      (rest : List T) × (items ≡ s.received ++ rest)
      × (length rest ≤ capacity)
      × (producer_step s.producer s.queue ≢ fault)
      × (consumer_step moved s.consumer s.queue ≢ fault)
  received_in_order = (
    in_ring,
    contents,
    omega (arith, length-in_ring, sound.valid.room, sound.places),
    no_faults.0,
    no_faults.1,
  )

  -- The producer never writes the place that the consumer reads, and both stay inside the buffer.
  pub no_race :
      (i j : ℕ)
      → written_place s.producer ≡ some i
      → read_place s.consumer ≡ some j
      → (i ≢ j) × (i < length s.queue.buffer) × (j < length s.queue.buffer)
  no_race i j writes reads =
      let v = sound.valid in
      let at : i ≡ sound.S % s.queue.capacity =
        written_place_lem s.queue.capacity sound.H sound.S i s.producer v.producer_at writes in
      let (from, less) =
        read_place_lem s.queue.capacity sound.H sound.C sound.E sound.S j s.consumer v.consumer_at
          reads in
      (
        λ e.
            mod_ne s.queue.capacity sound.C sound.S less (omega (arith, v.room, v.read))
              (sym from ∙ sym e ∙ at),
        omega (arith, v.size, mod-lt sound.S v.positive),
        omega (arith, v.size, mod-lt sound.C v.positive),
      )

  -- `push` gives up only when the queue is full: at its comparison there are as many items in the
  -- queue as its capacity.
  pub refused_when_full :
      (item : T) (tail : ℕ)
      → s.producer ≡ checking_full item tail
      → producer_step s.producer s.queue ≡ ok (s.queue, pushed false)
      → length items ≡ length s.received + capacity
  refused_when_full item tail at refused =
      let v = sound.valid in
      let cap : ℕ = s.queue.capacity in
      let tail_at : tail ≡ sound.S % cap =
        subst (ProducerAt cap sound.H sound.S) at v.producer_at in
      let compared : next_index cap tail ≡ s.queue.head =
        refused_compare item tail s.queue
          (subst (λ p. producer_step p s.queue ≡ ok (s.queue, pushed false)) at refused) in
      let met : (sound.S + 1) % cap ≡ sound.H % cap =
        sym (next_index_lem cap sound.S v.positive v.small)
        ∙ ap (next_index cap) (sym tail_at)
        ∙ compared
        ∙ v.head_at in
      let full : sound.S + 1 ≡ sound.H + cap = elim (dec_lt (sound.S + 1) (sound.H + cap)) [
        | yes less ↦
            absurd
              (mod_ne cap sound.H (sound.S + 1) (omega (arith, v.read, v.behind)) less (sym met))
        | no past ↦ omega (arith, v.room)
      ] in
      omega (
        arith,
        ap length contents,
        length-append s.received in_ring,
        length-in_ring,
        sound.places,
        full,
      )

  -- `pop` gives up only when the queue is empty: at its comparison everything has been taken out.
  pub empty_when_refused :
      (head : ℕ)
      → s.consumer ≡ checking_empty head
      → consumer_step moved s.consumer s.queue ≡ ok (s.queue, popped none)
      → items ≡ s.received
  empty_when_refused head at refused =
      let v = sound.valid in
      let cap : ℕ = s.queue.capacity in
      let (none_read, head_at) =
        subst (ConsumerAt cap sound.H sound.C sound.E sound.S) at v.consumer_at in
      let compared : head ≡ s.queue.tail =
        empty_compare moved head s.queue
          (subst (λ c. consumer_step moved c s.queue ≡ ok (s.queue, popped none)) at refused) in
      let met : sound.H % cap ≡ sound.S % cap = sym head_at ∙ compared ∙ v.tail_at in
      let none_left : sound.S ≡ sound.H = elim (dec_lt sound.H sound.S) [
        | yes less ↦ absurd (mod_ne cap sound.H sound.S less v.room met)
        | no past ↦ omega (arith, v.read, v.behind)
      ] in
      contents
      ∙ ap (λ (l : List T). s.received ++ l) (empty_list in_ring (omega (arith, length-in_ring)))
      ∙ append-nil s.received
