-- ===== src/LockFree/Spsc/Consume.antt =====
-- SPSCQueue: a step of the consumer.
use mathlib.Core.Path.{subst}
use native.Mathlib.Nat.{mod-lt}
use native.Mathlib.Decide.{dec_lt}
use counter_drone_server.Base.{
  ℕ, suc, ◌+◌, ◌-◌, ◌%◌, ◌≤◌, ◌<◌, ◌≡◌, ◌≢◌, inl, inr, refl, sym, ap, ◌∙◌, arith, List, [], ◌∷◌,
  ◌++◌, append-nil, append_assoc, false, none, some, ◌==◌, ==_iff, Bool-cases, Outcome, ok, length,
  length-append, get_elem?, get_or, set, All, length-set, get_or-set_ne, get_elem?-eq-get_or,
}
use counter_drone_server.LockFree.Spsc.{
  SpscQueue, Producer, loading_tail, checking_full, writing, storing_tail, pushed, Consumer,
  loading_head, checking_empty, reading, storing_head, popped, all_loading_head, all_checking_empty,
  draining, drained, next_index, consumer_step, stored, released,
}
use counter_drone_server.LockFree.Spsc.Cells.{mod_ne, next_index_lem, cells, cells-set}
use counter_drone_server.LockFree.Spsc.Valid.{ProducerAt, ConsumerAt, held, IsValid}

-- The producer's locals stay right when items are released.
ProducerAt-release {ℓ} :
    {T : Type ℓ} (cap H H' S : ℕ) (p : Producer T)
    → H ≤ H'
    → ProducerAt cap H S p
    → ProducerAt cap H' S p
ProducerAt-release cap H H' S Producer.outside more at = tt
ProducerAt-release cap H H' S (loading_tail item) more at = tt
ProducerAt-release cap H H' S (checking_full item tail) more at = at
ProducerAt-release cap H H' S (writing item tail next) more at = omega arith
ProducerAt-release cap H H' S (storing_tail item next) more at = omega arith
ProducerAt-release cap H H' S (pushed done) more at = tt

regroup {ℓ} :
    {T : Type ℓ} (a b : List T) (x : T) (r : List T) → a ++ b ++ x ∷ r ≡ a ++ (b ++ x ∷ []) ++ r
regroup a b x r = simp append_assoc

module _ {ℓ} {T : Type ℓ} (value : T) (moved : T → T) (q : SpscQueue T) (p : Producer T)
    (received sent : List T) (H C E S : ℕ) where
  -- A step of the consumer is defined, and keeps the invariant.
  abbrev pub Consumed : Outcome (SpscQueue T × Consumer T) → Consumer T → Type ℓ
  Consumed o c =
      (r : SpscQueue T × Consumer T) × (o ≡ ok r)
      × ((H' : ℕ) × (C' : ℕ) × (E' : ℕ) × IsValid value r.0 p r.1 (received ++ released c) sent H'
            C' E' S)

  -- Only the consumer's locals change.
  pub with_consumer :
      (E' : ℕ) (c c' : Consumer T)
      → IsValid value q p c received sent H C E S
      → ConsumerAt q.capacity H C E' S c'
      → held c ≡ held c'
      → IsValid value q p c' received sent H C E' S
  with_consumer E' c c' v at same = record {
    size = v.size;
    positive = v.positive;
    small = v.small;
    head_at = v.head_at;
    tail_at = v.tail_at;
    read = v.read;
    behind = v.behind;
    room = v.room;
    producer_at = v.producer_at;
    consumer_at = at;
    written = v.written;
    log =
        v.log
        ∙ ap (λ (h : List T). received ++ h ++ cells q.capacity value q.buffer C (S - C)) same;
  }

  module _ (c : Consumer T) (v : IsValid value q p c received sent H C E S) (less : C < S) where
    -- The place that is read next.
    abbrev place : ℕ
    place = C % q.capacity

    place_inside : place < length q.buffer
    place_inside = omega (arith, v.size, mod-lt C v.positive)

    place_read : get_elem? q.buffer place ≡ some (get_or q.buffer place value)
    place_read = get_elem?-eq-get_or q.buffer place value place_inside

    first_cell :
        cells q.capacity value q.buffer C (S - C)
        ≡ get_or q.buffer place value ∷ cells q.capacity value q.buffer (C + 1) (S - (C + 1))
    first_cell =
        let e : S - C ≡ suc (S - (C + 1)) = omega arith in
        ap (λ n. cells q.capacity value q.buffer C n) e

    -- What is moved out of it leaves the rest alone, and what the producer has just written.
    rest_kept :
        (x : T)
        → cells q.capacity value (set q.buffer place x) (C + 1) (S - (C + 1))
          ≡ cells q.capacity value q.buffer (C + 1) (S - (C + 1))
    rest_kept x =
        cells-set q.capacity value q.buffer (C + 1) (S - (C + 1)) place x
          (λ k low high. mod_ne q.capacity C k (omega arith) (omega (arith, v.room, v.read)))

    written_kept :
        (x : T)
        → All (λ item. get_or (set q.buffer place x) (S % q.capacity) value ≡ item) (stored p)
    written_kept x =
        subst (λ y. All (λ item. y ≡ item) (stored p))
          (sym (
            get_or-set_ne q.buffer place (S % q.capacity) x value
              (mod_ne q.capacity C S less (omega (arith, v.room, v.read)))))
          v.written

  -- The loop of `pop_all` at an item that is not the last.
  pub drain_step :
      (head tail : ℕ) (items : List T)
      → IsValid value q p (draining head tail items) received sent H C E S
      → (head == tail) ≡ false
      → (q' : SpscQueue T) × ((head' : ℕ) × ((items' : List T) × (consumer_step moved
                (draining head tail items)
                q
              ≡ ok (q', draining head' tail items'))
            × IsValid value q' p (draining head' tail items') received sent H (C + 1) E S))
  unfolding consumer_step
  drain_step head tail items v more =
      let (at, stop, low, high, taken) = v.consumer_at in
      let x : T = get_or q.buffer (C % q.capacity) value in
      let apart : C ≢ E =
        λ e. cc ((==_iff head tail).1 (at ∙ ap (λ k. k % q.capacity) e ∙ sym stop), more) in
      let before_stop : C < E = omega arith in
      let less : C < S = omega arith in
      let c : Consumer T = draining head tail items in
      (
        record q { buffer = set q.buffer (C % q.capacity) (moved x) },
        (
          next_index q.capacity (C % q.capacity),
          (
            items ++ x ∷ [],
            rw (more, at, place_read c v less) refl,
            record {
              size = length-set q.buffer (C % q.capacity) (moved x) ∙ v.size;
              positive = v.positive;
              small = v.small;
              head_at = v.head_at;
              tail_at = v.tail_at;
              read = omega (arith, v.read);
              behind = omega arith;
              room = v.room;
              producer_at = v.producer_at;
              consumer_at = (
                next_index_lem q.capacity C v.positive v.small,
                stop,
                omega arith,
                high,
                omega (arith, length-append items (x ∷ []), taken, v.read),
              );
              written = written_kept c v less (moved x);
              log =
                  v.log
                  ∙ ap (λ (l : List T). received ++ items ++ l) (first_cell c v less)
                  ∙ regroup received items x (cells q.capacity value q.buffer (C + 1) (S - (C + 1)))
                  ∙ ap (λ (l : List T). received ++ (items ++ x ∷ []) ++ l)
                      (sym (rest_kept c v less (moved x)));
            },
          ),
        ),
      )

  -- The read of `pop`.
  read_step :
      (head : ℕ)
      → IsValid value q p (reading head) received sent H C E S
      → (r : SpscQueue T × Consumer T) × (consumer_step moved (reading head) q ≡ ok r)
        × IsValid value r.0 p r.1 received sent H (C + 1) E S
  unfolding consumer_step
  read_step head v =
      let (none_read, at, more) = v.consumer_at in
      let x : T = get_or q.buffer (C % q.capacity) value in
      let at_count : head ≡ C % q.capacity = at ∙ ap (λ k. k % q.capacity) (sym none_read) in
      let less : C < S = omega arith in
      let c : Consumer T = reading head in
      (
        (q, storing_head x (next_index q.capacity (C % q.capacity))),
        rw (at_count, place_read c v less) refl,
        record {
          size = v.size;
          positive = v.positive;
          small = v.small;
          head_at = v.head_at;
          tail_at = v.tail_at;
          read = omega (arith, v.read);
          behind = omega arith;
          room = v.room;
          producer_at = v.producer_at;
          consumer_at = (
            omega arith,
            next_index_lem q.capacity C v.positive v.small
                ∙ ap (λ k. (k + 1) % q.capacity) none_read,
            more,
          );
          written = v.written;
          log =
              v.log
              ∙ ap (λ (l : List T). received ++ [] ++ l) (first_cell c v less)
              ∙ regroup received [] x (cells q.capacity value q.buffer (C + 1) (S - (C + 1)));
        },
      )

  -- The store of the head, by `pop` and at the end of `pop_all`: all that was read is released.
  release_step :
      (c c' : Consumer T) (head : ℕ)
      → IsValid value q p c received sent H C E S
      → head ≡ C % q.capacity
      → ConsumerAt q.capacity C C E S c'
      → held c' ≡ []
      → IsValid value (record q { head = head }) p c' (received ++ held c) sent C C E S
  release_step c c' head v at after none_held = record {
    size = v.size;
    positive = v.positive;
    small = v.small;
    head_at = at;
    tail_at = v.tail_at;
    read = omega arith;
    behind = v.behind;
    room = omega (arith, v.room, v.read);
    producer_at = ProducerAt-release q.capacity H C S p v.read v.producer_at;
    consumer_at = after;
    written = v.written;
    log =
        v.log
        ∙ ap (λ (l : List T). l ++ cells q.capacity value q.buffer C (S - C))
            (sym (append-nil (received ++ held c))
              ∙ ap (λ (l : List T). received ++ held c ++ l) (sym none_held));
  }

  -- A step whose result is known, and that changes only the locals and releases nothing.
  stays :
      (o : Outcome (SpscQueue T × Consumer T)) (E' : ℕ) (c c' : Consumer T)
      → o ≡ ok (q, c')
      → IsValid value q p c received sent H C E S
      → ConsumerAt q.capacity H C E' S c'
      → held c ≡ held c'
      → released c ≡ []
      → Consumed o c
  stays o E' c c' e v at same nothing =
      ((q, c'), e, (H, C, E', rw (nothing, append-nil received) (with_consumer E' c c' v at same)))

  -- Where the head and the tail are not at one place there are items.
  not_empty :
      (head : ℕ)
      → C ≡ H
      → head ≡ H % q.capacity
      → q.tail ≡ S % q.capacity
      → C ≤ S
      → (head == q.tail) ≡ false
      → H < S
  not_empty head none_read at tail_at behind more = elim (dec_lt H S) [
    | yes less ↦ less
    | no none_left ↦
        let e : H ≡ S = omega arith in
        cc ((==_iff head q.tail).1 (at ∙ ap (λ k. k % q.capacity) e ∙ sym tail_at), more)
  ]

  pub consume :
      (c : Consumer T)
      → IsValid value q p c received sent H C E S
      → Consumed (consumer_step moved c q) c
  unfolding consumer_step
  consume Consumer.outside v =
      stays _ E Consumer.outside Consumer.outside refl v v.consumer_at refl refl
  consume loading_head v =
      stays _ E loading_head (checking_empty q.head) refl v (v.consumer_at, v.head_at) refl refl
  consume (checking_empty head) v = elim (Bool-cases (head == q.tail)) [
    | inl empty ↦
        stays _ E (checking_empty head) (popped none) (rw empty refl) v v.consumer_at.0 refl refl
    | inr more ↦
        let (none_read, at) = v.consumer_at in
        stays _ E (checking_empty head) (reading head) (rw more refl) v
          (none_read, at, not_empty head none_read at v.tail_at v.behind more) refl refl
  ]
  consume (reading head) v =
      let (r, e, valid) = read_step head v in (r, e, (H, C + 1, E, rw (append-nil received) valid))
  consume (storing_head item next) v =
      let (one_read, at, more) = v.consumer_at in
      (
        (record q { head = next }, popped (some item)),
        refl,
        (
          C,
          C,
          E,
          release_step (storing_head item next) (popped (some item)) next v
              (at ∙ ap (λ k. k % q.capacity) (sym one_read)) refl refl,
        ),
      )
  consume (popped item) v = stays _ E (popped item) (popped item) refl v v.consumer_at refl refl
  consume all_loading_head v =
      stays _ E all_loading_head (all_checking_empty q.head) refl v (v.consumer_at, v.head_at) refl
        refl
  consume (all_checking_empty head) v = elim (Bool-cases (head == q.tail)) [
    | inl empty ↦
        stays _ E (all_checking_empty head) (drained []) (rw empty refl) v v.consumer_at.0 refl refl
    | inr more ↦
        let (none_read, at) = v.consumer_at in
        stays _ S (all_checking_empty head) (draining head q.tail []) (rw more refl) v
          (
            at ∙ ap (λ k. k % q.capacity) (sym none_read),
            v.tail_at,
            v.behind,
            omega arith,
            omega arith,
          )
          refl refl
  ]
  consume (draining head tail items) v = elim (Bool-cases (head == tail)) [
    | inl stop ↦ (
      (record q { head = head }, drained items),
      rw stop refl,
      (
        C,
        C,
        E,
        rw stop (
            release_step (draining head tail items) (drained items) head v v.consumer_at.0 refl
              refl),
      ),
    )
    | inr more ↦
        let (q', (head', (items', e, valid))) = drain_step head tail items v more in
        ((q', draining head' tail items'), e, (H, C + 1, E, rw (more, append-nil received) valid))
  ]
  consume (drained items) v =
      stays _ E (drained items) (drained items) refl v v.consumer_at refl refl
