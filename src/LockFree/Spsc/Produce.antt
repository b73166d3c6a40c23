-- ===== src/LockFree/Spsc/Produce.antt =====
-- SPSCQueue: a step of the producer.
use native.Mathlib.Nat.{mod-lt, add-mod_right, add-zero}
use native.Mathlib.Decide.{dec_lt}
use counter_drone_server.Base.{
  ℕ, suc, ◌+◌, ◌-◌, ◌%◌, ◌<◌, ◌≡◌, ◌≢◌, inl, inr, refl, sym, ap, ◌∙◌, arith, List, [], ◌∷◌, ◌++◌,
  append-nil, append_assoc, false, lt→ltb, ◌==◌, ==_iff, Bool-cases, Outcome, ok, length, get_or,
  set, length-set, get_or-set_self,
}
use counter_drone_server.LockFree.Spsc.{
  SpscQueue, Producer, loading_tail, checking_full, writing, storing_tail, pushed, Consumer,
  loading_head, checking_empty, reading, storing_head, popped, all_loading_head, all_checking_empty,
  draining, drained, next_index, producer_step, stored,
}
use counter_drone_server.LockFree.Spsc.Cells.{mod_ne, next_index_lem, cells, cells_snoc, cells-set}
use counter_drone_server.LockFree.Spsc.Valid.{ProducerAt, ConsumerAt, held, IsValid}

-- The place behind the last item is free when it is not the head's.
free_place : (cap H S : ℕ) → S < H + cap → (S + 1) % cap ≢ H % cap → S + 1 < H + cap
free_place cap H S room ne = elim (dec_lt (S + 1) (H + cap)) [
  | yes less ↦ less
  | no full ↦
      let e : S + 1 ≡ H + cap = omega arith in
      absurd (ne (ap (λ k. k % cap) e ∙ add-mod_right H cap))
]

-- The consumer's locals stay right when an item is stored.
ConsumerAt-store {ℓ} :
    {T : Type ℓ} (cap H C E S : ℕ) (c : Consumer T)
    → ConsumerAt cap H C E S c
    → ConsumerAt cap H C E (S + 1) c
ConsumerAt-store cap H C E S Consumer.outside at = at
ConsumerAt-store cap H C E S loading_head at = at
ConsumerAt-store cap H C E S (checking_empty head) at = at
ConsumerAt-store cap H C E S (reading head) at = omega arith
ConsumerAt-store cap H C E S (storing_head item next) at = omega arith
ConsumerAt-store cap H C E S (popped item) at = at
ConsumerAt-store cap H C E S all_loading_head at = at
ConsumerAt-store cap H C E S (all_checking_empty head) at = at
ConsumerAt-store cap H C E S (draining head tail items) at = omega arith
ConsumerAt-store cap H C E S (drained items) at = at

module _ {ℓ} {T : Type ℓ} (value : T) (q : SpscQueue T) (c : Consumer T) (received sent : List T)
    (H C E S : ℕ) where
  -- A step of the producer is defined, and keeps the invariant.
  abbrev pub Produced : Outcome (SpscQueue T × Producer T) → Producer T → Type ℓ
  Produced o p =
      (r : SpscQueue T × Producer T) × (o ≡ ok r)
      × IsValid value r.0 r.1 c received (sent ++ stored p) H C E (S + length (stored p))

  -- A step that stores nothing.
  quiet :
      (r : SpscQueue T) (p : Producer T)
      → IsValid value r p c received sent H C E S
      → IsValid value r p c received (sent ++ []) H C E (S + 0)
  quiet r p v = rw (append-nil sent, add-zero S) v

  -- Only the producer's locals change.
  pub with_producer :
      (p p' : Producer T)
      → IsValid value q p c received sent H C E S
      → ProducerAt q.capacity H S p'
      → stored p' ≡ []
      → IsValid value q p' c received sent H C E S
  with_producer p p' v at none_stored = record {
    size = v.size;
    positive = v.positive;
    small = v.small;
    head_at = v.head_at;
    tail_at = v.tail_at;
    read = v.read;
    behind = v.behind;
    room = v.room;
    producer_at = at;
    consumer_at = v.consumer_at;
    written = rw none_stored tt;
    log = v.log;
  }

  local :
      (p p' : Producer T)
      → IsValid value q p c received sent H C E S
      → ProducerAt q.capacity H S p'
      → stored p' ≡ []
      → IsValid value q p' c received (sent ++ []) H C E (S + 0)
  local p p' v at none_stored = quiet q p' (with_producer p p' v at none_stored)

  pub produce :
      (p : Producer T) → IsValid value q p c received sent H C E S → Produced (producer_step p q) p
  unfolding producer_step
  produce Producer.outside v = (_, refl, local Producer.outside Producer.outside v tt refl)
  produce (loading_tail item) v =
      (_, refl, local (loading_tail item) (checking_full item q.tail) v v.tail_at refl)
  produce (checking_full item tail) v = elim (Bool-cases (next_index q.capacity tail == q.head)) [
    | inl full ↦ (_, rw full refl, local (checking_full item tail) (pushed false) v tt refl)
    | inr free ↦ (
      _,
      rw free refl,
      local (checking_full item tail) (writing item tail (next_index q.capacity tail)) v
          (v.producer_at, next, free_place q.capacity H S v.room (apart free)) refl,
    )
  ]
    where
      next : next_index q.capacity tail ≡ (S + 1) % q.capacity
      next =
          ap (next_index q.capacity) v.producer_at ∙ next_index_lem q.capacity S v.positive v.small

      apart : (next_index q.capacity tail == q.head) ≡ false → (S + 1) % q.capacity ≢ H % q.capacity
      apart free e = cc ((==_iff (next_index q.capacity tail) q.head).1 (next ∙ e ∙ sym v.head_at))
  produce (writing item tail next) v = (
    _,
    rw (lt→ltb tail (length q.buffer) inside) refl,
    quiet _ (storing_tail item next) record {
      size = length-set q.buffer tail item ∙ v.size;
      positive = v.positive;
      small = v.small;
      head_at = v.head_at;
      tail_at = v.tail_at;
      read = v.read;
      behind = v.behind;
      room = v.room;
      producer_at = (v.producer_at.1, v.producer_at.2);
      consumer_at = v.consumer_at;
      written = (here, tt);
      log = v.log ∙ ap (λ (l : List T). received ++ held c ++ l) (sym kept);
    },
  )
    where
      inside : tail < length q.buffer
      inside = omega (arith, v.size, v.producer_at.0, mod-lt S v.positive)

      here : get_or (set q.buffer tail item) (S % q.capacity) value ≡ item
      here =
          ap (λ k. get_or (set q.buffer tail item) k value) (sym v.producer_at.0)
          ∙ get_or-set_self q.buffer tail item value inside

      kept :
          cells q.capacity value (set q.buffer tail item) C (S - C)
          ≡ cells q.capacity value q.buffer C (S - C)
      kept = cells-set q.capacity value q.buffer C (S - C) tail item (λ k low high e.
          mod_ne q.capacity k S (omega (arith, v.behind)) (omega (arith, v.room, v.read))
            (sym e ∙ v.producer_at.0))
  produce (storing_tail item next) v = (
    _,
    refl,
    record {
      size = v.size;
      positive = v.positive;
      small = v.small;
      head_at = v.head_at;
      tail_at = v.producer_at.0;
      read = v.read;
      behind = omega (arith, v.behind);
      room = v.producer_at.1;
      producer_at = tt;
      consumer_at = ConsumerAt-store q.capacity H C E S c v.consumer_at;
      written = tt;
      log =
          ap (λ (l : List T). l ++ item ∷ []) v.log
          ∙ append_assoc (received ++ held c) (cells q.capacity value q.buffer C (S - C))
              (item ∷ [])
          ∙ ap (λ (l : List T). received ++ held c ++ l) (sym one_more);
    },
  )
    where
      last : get_or q.buffer ((C + (S - C)) % q.capacity) value ≡ item
      last =
          let e : C + (S - C) ≡ S = omega (arith, v.behind) in
          ap (λ k. get_or q.buffer (k % q.capacity) value) e ∙ v.written.0

      one_more :
          cells q.capacity value q.buffer C (S + 1 - C)
          ≡ cells q.capacity value q.buffer C (S - C) ++ item ∷ []
      one_more =
          let e : S + 1 - C ≡ suc (S - C) = omega (arith, v.behind) in
          ap (λ n. cells q.capacity value q.buffer C n) e
          ∙ cells_snoc q.capacity value q.buffer C (S - C)
          ∙ ap (λ x. cells q.capacity value q.buffer C (S - C) ++ x ∷ []) last
  produce (pushed done) v = (_, refl, local (pushed done) (pushed done) v tt refl)
