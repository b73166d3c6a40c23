-- ===== src/LockFree/Mpmc/Delivered.antt =====
-- What MPMCQueue hands out.
use mathlib.Core.Path.{subst}
use counter_drone_server.Base.{
  ℕ, ◌+◌, ◌^◌, ◌≤◌, ◌<◌, ◌≡◌, ◌≢◌, ◌⊎◌, inl, inr, refl, sym, ap, ◌∙◌, arith, List, [], ◌∷◌, ◌++◌,
  append-nil, none, some, Bool, fault, length, length-append, get_elem?, get_elem?-longer, All-map,
  All, All-append,
}
use counter_drone_server.LockFree.Mpmc.{
  MpmcQueue, Thread, outside, push_loading, pushed, pop_loading, popped, new_queue, thread_step,
  reserved, handed_out, at_thread, System, Step, call_push, call_pop, run, push_returns,
  pop_returns, Reach, start, later,
}
use counter_drone_server.LockFree.Mpmc.Valid.{reads, ThreadAt, holds}
use counter_drone_server.LockFree.Mpmc.Replace.{at_thread-cases, at_thread_self}
use counter_drone_server.LockFree.Mpmc.Sound.{cells_of, IsSound}
use counter_drone_server.LockFree.Mpmc.Runs.{reach-IsSound}
use counter_drone_server.LockFree.Mpmc.Exclusive.{no_step_faults}
use counter_drone_server.LockFree.Mpmc.Takes.{
  Out, Out-left, Out-right, Takes, takes, Once, Once-snoc, hands,
}

module _ {ℓ} {T : Type ℓ} where
  -- What is known of a position and an item that were handed out.
  abbrev Handed : List T → ℕ → (ℕ → Thread T) → ℕ × T → Type ℓ
  Handed items D threads d =
      (d.0 < D) × (get_elem? items (d.0) ≡ some (d.1)) × ((j : ℕ) → reads (threads j) ≢ some (d.0))

  record IsHanded (items : List T) (D : ℕ) (threads : ℕ → Thread T) (delivered : List (ℕ × T))
      : Type ℓ where
    pub facts : All (Handed items D threads) delivered
    pub once : Once delivered
    pub complete : (n : ℕ) → n < D → Out delivered n ⊎ ((j : ℕ) × (reads (threads j) ≡ some n))

  -- The thread has taken a step that reads no position, or only a new one, and gives none up.
  kept :
      (items : List T) (D : ℕ) (threads : ℕ → Thread T) (more : List T) (D' : ℕ) (i : ℕ)
      (p : Thread T)
      → D ≤ D'
      → ((n : ℕ) → reads p ≡ some n → (reads (threads i) ≡ some n) ⊎ (D ≤ n))
      → (d : ℕ × T) → Handed items D threads d
      → Handed (items ++ more) D' (at_thread i p threads) d
  kept items D threads more D' i p grows new d (below, is, unread) = (
    omega arith,
    get_elem?-longer items more (d.0) (d.1) is,
    at_thread-cases (λ j x. reads x ≢ some (d.0)) i p threads (λ r. old (new (d.0) r))
        (λ j other. unread j),
  )
    where
      old : (reads (threads i) ≡ some (d.0)) ⊎ (D ≤ d.0) → ⊥
      old (inl r) = unread i r
      old (inr past) = omega arith

  Handed-step :
      (items : List T) (q q' : MpmcQueue T) (threads : ℕ → Thread T) (delivered : List (ℕ × T))
      (more : List T) (i : ℕ) (p : Thread T) (out : List (ℕ × T))
      → IsHanded items q.dequeue_pos threads delivered
      → handed_out (threads i) ≡ out
      → Takes (threads i) q (q', p)
      → All (Handed (items ++ more) q'.dequeue_pos (at_thread i p threads)) out
      → Once (delivered ++ out)
      → IsHanded (items ++ more) q'.dequeue_pos (at_thread i p threads) (delivered ++ out)
  Handed-step items q q' threads delivered more i p out h here (grows, new, gives, takes_one, gone)
        fresh once =
      record {
        facts =
            All-append (Handed (items ++ more) q'.dequeue_pos (at_thread i p threads)) delivered out
              (All-map (Handed items q.dequeue_pos threads)
                (Handed (items ++ more) q'.dequeue_pos (at_thread i p threads))
                (kept items q.dequeue_pos threads more q'.dequeue_pos i p grows new) delivered
                h.facts)
              fresh;
        once = once;
        complete = λ n less. whose n (takes_one n less);
      }
    where
      Whose : ℕ → Type 0
      Whose n = Out (delivered ++ out) n ⊎ ((j : ℕ) × (reads (at_thread i p threads j) ≡ some n))

      mine : (n : ℕ) → (reads p ≡ some n) → Whose n
      mine n r = inr (i, ap reads (at_thread_self i p threads) ∙ r)

      given : (n : ℕ) → (reads p ≡ some n) ⊎ Out (handed_out (threads i)) n → Whose n
      given n (inl r) = mine n r
      given n (inr o) = inl (Out-right delivered out n (subst (λ ds. Out ds n) here o))

      passed : (n j : ℕ) → reads (threads j) ≡ some n → Whose n
      passed n j r =
          at_thread-cases
            (λ l x. l ≡ j → reads (threads l) ≡ some n → (reads x ≡ some n → Whose n) → Whose n) i p
            threads (λ same r'. λ go. given n (gives n r')) (λ l other same r' go. go r') j refl r
            (λ r'. inr (j, r'))

      before : (n : ℕ) → Out delivered n ⊎ ((j : ℕ) × (reads (threads j) ≡ some n)) → Whose n
      before n (inl o) = inl (Out-left delivered out n o)
      before n (inr (j, r)) = passed n j r

      whose : (n : ℕ) → (n < q.dequeue_pos) ⊎ (reads p ≡ some n) → Whose n
      whose n (inl old) = before n (h.complete n old)
      whose n (inr r) = mine n r

  -- A step of a thread that hands out nothing, or the item that it has read.
  run-IsHanded :
      (k : ℕ) (value : T) (items more : List T) (q q' : MpmcQueue T) (threads : ℕ → Thread T)
      (delivered : List (ℕ × T)) (i : ℕ) (p : Thread T)
      → IsSound k value items q threads
      → IsHanded items q.dequeue_pos threads delivered
      → Takes (threads i) q (q', p)
      → IsHanded
          (items ++ more)
          q'.dequeue_pos
          (at_thread i p threads)
          (delivered ++ handed_out (threads i))
  run-IsHanded k value items more q q' threads delivered i p v h step = elim (hands (threads i)) [
    | inl none_out ↦
        subst
          (λ out.
            IsHanded (items ++ more) q'.dequeue_pos (at_thread i p threads) (delivered ++ out))
          (sym none_out)
          (Handed-step items q q' threads delivered more i p [] h none_out step tt
            (subst Once (sym (append-nil delivered)) h.once))
    | inr (pos, x, releasing) ↦
        let out : handed_out (threads i) ≡ (pos, x) ∷ [] = ap handed_out releasing in
        let (below, turn) =
          subst (ThreadAt (2 ^ k) (cells_of k value q) (length items) q.dequeue_pos) releasing
            (v.valid.thread_at i) in
        let known : get_elem? items pos ≡ some x =
          v.valid.held i pos x (ap (holds (2 ^ k) (cells_of k value q)) releasing) in
        let reading : reads (threads i) ≡ some pos = ap reads releasing in
        let unread : (j : ℕ) → reads (at_thread i p threads j) ≢ some pos =
          at_thread-cases (λ j y. reads y ≢ some pos) i p threads
            (step.4 pos (subst (λ ds. Out ds pos) (sym out) (inl refl)))
            (λ j other r. other (v.valid.one_reader j i pos r reading)) in
        subst
          (λ out.
            IsHanded (items ++ more) q'.dequeue_pos (at_thread i p threads) (delivered ++ out))
          (sym out)
          (Handed-step items q q' threads delivered more i p ((pos, x) ∷ []) h out step
            ((omega (arith, step.0), get_elem?-longer items more pos x known, unread), tt)
            (Once-snoc delivered pos x h.once (
              All-map (Handed items q.dequeue_pos threads) (λ d. d.0 ≢ pos)
                (λ d known' e. known'.2 i (reading ∙ ap some (sym e))) delivered h.facts)))
  ]

  -- A call begins or ends.
  call-IsHanded :
      (items : List T) (q : MpmcQueue T) (threads : ℕ → Thread T) (delivered : List (ℕ × T)) (i : ℕ)
      (p p' : Thread T)
      → IsHanded items q.dequeue_pos threads delivered
      → threads i ≡ p
      → reads p ≡ none
      → handed_out p ≡ []
      → reads p' ≡ none
      → IsHanded (items ++ []) q.dequeue_pos (at_thread i p' threads) delivered
  call-IsHanded items q threads delivered i p p' h here none_read none_out none_new =
      subst (IsHanded (items ++ []) q.dequeue_pos (at_thread i p' threads)) (append-nil delivered) (
        Handed-step items q q threads delivered [] i p' [] h (ap handed_out here ∙ none_out)
          (
            omega arith,
            λ n r. cc,
            λ n r. cc (r, ap reads here, none_read),
            λ n less. inl less,
            λ n out r. cc,
          )
          tt (subst Once (sym (append-nil delivered)) h.once))

module _ {ℓ} {T : Type ℓ} (k : ℕ) (value : T) (two : 2 ≤ 2 ^ k) where
  step-IsHanded :
      {s t : System T} {items more : List T}
      → length items + 2 ^ k < 2 ^ 63
      → Step s more t
      → IsSound k value items s.queue s.threads
      → IsHanded items s.queue.dequeue_pos s.threads s.delivered
      → IsHanded (items ++ more) t.queue.dequeue_pos t.threads t.delivered
  step-IsHanded {items = items} small (call_push s i x here) v h =
      call-IsHanded items s.queue s.threads s.delivered i outside (push_loading x) h here refl refl
        refl
  step-IsHanded {items = items} small (call_pop s i here) v h =
      call-IsHanded items s.queue s.threads s.delivered i outside pop_loading h here refl refl refl
  step-IsHanded {items = items} small (run s i spurious q p e) v h =
      run-IsHanded k value items (reserved spurious (s.threads i) s.queue) s.queue q s.threads
        s.delivered i p v h
        (takes spurious (s.threads i) s.queue (q, p) (omega (arith, v.valid.order)) e)
  step-IsHanded {items = items} small (push_returns s i done here) v h =
      call-IsHanded items s.queue s.threads s.delivered i (pushed done) outside h here refl refl
        refl
  step-IsHanded {items = items} small (pop_returns s i x here) v h =
      call-IsHanded items s.queue s.threads s.delivered i (popped x) outside h here refl refl refl

  reach-IsHanded :
      {items : List T} {s : System T}
      → length items + 2 ^ k < 2 ^ 63
      → Reach value (2 ^ k) items s
      → IsHanded items s.queue.dequeue_pos s.threads s.delivered
  unfolding new_queue
  reach-IsHanded small start = record {
    facts = tt;
    once = tt;
    complete = λ n less. absurd (omega arith);
  }
  reach-IsHanded small (later {items} {more} steps step) =
      let less : length items + 2 ^ k < 2 ^ 63 = omega (arith, length-append items more) in
      step-IsHanded less step (reach-IsSound k value two less steps) (reach-IsHanded less steps)

-- However the threads interleave, with at least two cells and fewer than 2^63 items and cells, what
-- is handed out for a position is the item that was put in at it, no position is handed out twice,
-- no more positions are taken than have been reserved, and no step meets undefined behaviour.
pub each_item-Once {ℓ} :
    {T : Type ℓ} (k : ℕ) {value : T} {items : List T} {s : System T}
    → 2 ≤ 2 ^ k
    → length items + 2 ^ k < 2 ^ 63
    → Reach value (2 ^ k) items s
    → All (λ d. get_elem? items (d.0) ≡ some (d.1)) s.delivered
      × Once s.delivered
      × (s.queue.dequeue_pos ≤ length items)
      × ((i : ℕ) (spurious : Bool) → thread_step spurious (s.threads i) s.queue ≢ fault)
each_item-Once {T} k {value} {items} {s} two small steps =
    let h : IsHanded items s.queue.dequeue_pos s.threads s.delivered =
      reach-IsHanded k value two small steps in
    (
      All-map (Handed items s.queue.dequeue_pos s.threads) (λ d. get_elem? items (d.0) ≡ some (d.1))
          (λ d known. known.1) s.delivered h.facts,
      h.once,
      (reach-IsSound k value two small steps).valid.order,
      no_step_faults k two small steps,
    )

-- With at least two cells and fewer than 2^63 items and cells, nothing is lost: a position that has
-- been taken is handed out, or still with a thread that is to hand it out.
pub taken_is_handed-Out {ℓ} :
    {T : Type ℓ} (k : ℕ) {value : T} {items : List T} {s : System T} (n : ℕ)
    → 2 ≤ 2 ^ k
    → length items + 2 ^ k < 2 ^ 63
    → Reach value (2 ^ k) items s
    → n < s.queue.dequeue_pos
    → Out s.delivered n ⊎ ((j : ℕ) × (reads (s.threads j) ≡ some n))
taken_is_handed-Out k {value} n two small steps taken =
    (reach-IsHanded k value two small steps).complete n taken
