-- ===== src/LockFree/Spsc/Sound.antt =====
-- The invariant of SPSCQueue holds however the steps of its two threads interleave.
use mathlib.Core.Path.{subst}
use counter_drone_server.Base.{
  ℕ, zero, suc, ◌+◌, ◌%◌, ◌^◌, ◌<◌, ◌≡◌, refl, sym, ap, ◌∙◌, arith, List, [], ◌++◌, append-nil, ok,
  length,
}
use counter_drone_server.LockFree.Spsc.{
  SpscQueue, Producer, loading_tail, checking_full, writing, storing_tail, pushed, Consumer,
  loading_head, checking_empty, reading, storing_head, popped, all_loading_head, all_checking_empty,
  draining, drained, replicate, new_queue, producer_step, consumer_step, stored, released, System,
  Step, call_push, produce, push_returns, call_pop, call_pop_all, consume, pop_returns,
  pop_all_returns, Reach, start, later,
}
use counter_drone_server.LockFree.Spsc.Valid.{ProducerAt, ConsumerAt, held, IsValid}
use counter_drone_server.LockFree.Spsc.Produce
use counter_drone_server.LockFree.Spsc.Consume

length-replicate {ℓ} : {T : Type ℓ} (n : ℕ) (x : T) → length (replicate n x) ≡ n
length-replicate zero x = refl
length-replicate (suc n) x = ap suc (length-replicate n x)

producer_step-capacity {ℓ} :
    {T : Type ℓ} (p : Producer T) (q : SpscQueue T) (r : SpscQueue T × Producer T)
    → producer_step p q ≡ ok r
    → r.0.capacity ≡ q.capacity
unfolding producer_step
producer_step-capacity Producer.outside q r e = cc
producer_step-capacity (loading_tail item) q r e = cc
producer_step-capacity (checking_full item tail) q r e = ground arith
producer_step-capacity (writing item tail next) q r e = ground arith
producer_step-capacity (storing_tail item next) q r e = ground arith
producer_step-capacity (pushed done) q r e = cc

consumer_step-capacity {ℓ} :
    {T : Type ℓ} (moved : T → T) (c : Consumer T) (q : SpscQueue T) (r : SpscQueue T × Consumer T)
    → consumer_step moved c q ≡ ok r
    → r.0.capacity ≡ q.capacity
unfolding consumer_step
consumer_step-capacity moved Consumer.outside q r e = cc
consumer_step-capacity moved loading_head q r e = cc
consumer_step-capacity moved (checking_empty head) q r e = ground arith
consumer_step-capacity moved (reading head) q r e = ground arith
consumer_step-capacity moved (storing_head item next) q r e = ground arith
consumer_step-capacity moved (popped item) q r e = cc
consumer_step-capacity moved all_loading_head q r e = cc
consumer_step-capacity moved (all_checking_empty head) q r e = ground arith
consumer_step-capacity moved (draining head tail items) q r e = ground arith
consumer_step-capacity moved (drained items) q r e = cc

zero-mod : (n : ℕ) → 0 % n ≡ 0
zero-mod zero = omega arith
zero-mod (suc n) = omega arith

module _ {ℓ} {T : Type ℓ} (moved : T → T) (value : T) (capacity : ℕ) where
  -- The invariant of a system, for some counts.
  pub record IsSound (items : List T) (s : System T) : Type ℓ where
    pub H : ℕ
    pub C : ℕ
    pub E : ℕ
    pub S : ℕ
    pub places : s.queue.capacity ≡ capacity + 1
    pub valid : IsValid value s.queue s.producer s.consumer s.received items H C E S

  sound_start :
      capacity + 1 < 2 ^ 64
      → IsSound [] (record {
        queue = new_queue value capacity;
        producer = Producer.outside;
        consumer = Consumer.outside;
        received = [];
      })
  unfolding new_queue
  sound_start small =
      let exact : (capacity + 1) % 2 ^ 64 ≡ capacity + 1 = omega arith in
      record {
        H = 0;
        C = 0;
        E = 0;
        S = 0;
        places = exact;
        valid = record {
          size = length-replicate ((capacity + 1) % 2 ^ 64) value;
          positive = omega arith;
          small = omega arith;
          head_at = sym (zero-mod ((capacity + 1) % 2 ^ 64));
          tail_at = sym (zero-mod ((capacity + 1) % 2 ^ 64));
          read = omega arith;
          behind = omega arith;
          room = omega arith;
          producer_at = tt;
          consumer_at = refl;
          written = tt;
          log = refl;
        };
      }

  -- The consumer begins or ends a call.
  recall :
      (items : List T) (s : System T) (c c' : Consumer T)
      → s.consumer ≡ c
      → held c ≡ []
      → held c' ≡ []
      → ((cap H C E S : ℕ) → ConsumerAt cap H C E S c → ConsumerAt cap H C E S c')
      → IsSound items s
      → IsSound (items ++ []) (record s { consumer = c' })
  recall items s c c' e none_before none_after at k = rw (append-nil items) record {
    H = k.H;
    C = k.C;
    E = k.E;
    S = k.S;
    places = k.places;
    valid =
        Consume.with_consumer value (moved) s.queue s.producer s.received items k.H k.C k.E k.S k.E
          s.consumer c' k.valid
          (at s.queue.capacity k.H k.C k.E k.S
            (subst (ConsumerAt s.queue.capacity k.H k.C k.E k.S) e k.valid.consumer_at))
          (ap held e ∙ none_before ∙ sym none_after);
  }

  -- The producer begins or ends a call.
  recall_producer :
      (items : List T) (s : System T) (p' : Producer T)
      → ((cap H S : ℕ) → ProducerAt cap H S p')
      → stored p' ≡ []
      → IsSound items s
      → IsSound (items ++ []) (record s { producer = p' })
  recall_producer items s p' at none_stored k = rw (append-nil items) record {
    H = k.H;
    C = k.C;
    E = k.E;
    S = k.S;
    places = k.places;
    valid =
        Produce.with_producer value s.queue s.consumer s.received items k.H k.C k.E k.S s.producer
          p' k.valid (at s.queue.capacity k.H k.S) none_stored;
  }

  sound_step :
      {s t : System T} {items more : List T}
      → Step moved s more t
      → IsSound items s
      → IsSound (items ++ more) t
  sound_step {items} (call_push s item h) k =
      recall_producer items s (loading_tail item) (λ cap H S. tt) refl k
  sound_step {items} (produce s q p h) k =
      let (r, e, v) =
        Produce.produce value s.queue s.consumer s.received items k.H k.C k.E k.S s.producer
          k.valid in
      let same : r ≡ (q, p) = cc in
      record {
        H = k.H;
        C = k.C;
        E = k.E;
        S = k.S + length (stored s.producer);
        places = producer_step-capacity s.producer s.queue (q, p) h ∙ k.places;
        valid =
            subst
              (λ (x : SpscQueue T × Producer T).
                IsValid value x.0 x.1 s.consumer s.received (items ++ stored s.producer) k.H k.C k.E
                  (k.S + length (stored s.producer)))
              same v;
      }
  sound_step {items} (push_returns s done h) k =
      recall_producer items s Producer.outside (λ cap H S. tt) refl k
  sound_step {items} (call_pop s h) k =
      recall items s Consumer.outside loading_head h refl refl (λ cap H C E S at. at) k
  sound_step {items} (call_pop_all s h) k =
      recall items s Consumer.outside all_loading_head h refl refl (λ cap H C E S at. at) k
  sound_step {items} (consume s q c h) k =
      let (r, e, (H', C', E', v)) =
        Consume.consume value moved s.queue s.producer s.received items k.H k.C k.E k.S s.consumer
          k.valid in
      let same : r ≡ (q, c) = cc in
      rw (append-nil items) record {
        H = H';
        C = C';
        E = E';
        S = k.S;
        places = consumer_step-capacity moved s.consumer s.queue (q, c) h ∙ k.places;
        valid =
            subst
              (λ (x : SpscQueue T × Consumer T).
                IsValid value x.0 s.producer x.1 (s.received ++ released s.consumer) items H' C' E'
                  k.S)
              same v;
      }
  sound_step {items} (pop_returns s item h) k =
      recall items s (popped item) Consumer.outside h refl refl (λ cap H C E S at. at) k
  sound_step {items} (pop_all_returns s out h) k =
      recall items s (drained out) Consumer.outside h refl refl (λ cap H C E S at. at) k

  pub reach-IsSound :
      {items : List T} {s : System T}
      → capacity + 1 < 2 ^ 64
      → Reach moved value capacity items s
      → IsSound items s
  reach-IsSound small start = sound_start small
  reach-IsSound small (later steps step) = sound_step step (reach-IsSound small steps)
