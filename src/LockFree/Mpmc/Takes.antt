-- ===== src/LockFree/Mpmc/Takes.antt =====
-- MPMCQueue: what a step takes and hands out.
use counter_drone_server.Base.{
  ℕ, ◌^◌, ◌≤◌, ◌<◌, ◌≡◌, ◌≢◌, ◌⊎◌, inl, inr, refl, sym, arith, List, [], ◌∷◌, ◌++◌, some, Bool, ok,
  All, All-append,
}
use counter_drone_server.LockFree.Mpmc.{
  MpmcQueue, Thread, outside, push_loading, push_checking, push_swapping, push_writing,
  push_releasing, pushed, pop_loading, pop_checking, pop_swapping, pop_reading, pop_releasing,
  popped, thread_step, handed_out,
}
use counter_drone_server.LockFree.Mpmc.Valid.{reads}

-- The position is among those handed out.
abbrev pub Out {ℓ} : {T : Type ℓ} → List (ℕ × T) → ℕ → Type 0
Out [] n = ⊥
Out ((m, x) ∷ ds) n = (m ≡ n) ⊎ Out ds n

pub Out-left {ℓ} : {T : Type ℓ} (ds es : List (ℕ × T)) (n : ℕ) → Out ds n → Out (ds ++ es) n
Out-left [] es n o = absurd o
Out-left ((m, x) ∷ ds) es n (inl e) = inl e
Out-left ((m, x) ∷ ds) es n (inr o) = inr (Out-left ds es n o)

pub Out-right {ℓ} : {T : Type ℓ} (ds es : List (ℕ × T)) (n : ℕ) → Out es n → Out (ds ++ es) n
Out-right [] es n o = o
Out-right ((m, x) ∷ ds) es n o = inr (Out-right ds es n o)

-- What a step does to the count of the items taken, and to the position that its thread reads.
abbrev pub Takes {ℓ} : {T : Type ℓ} → Thread T → MpmcQueue T → MpmcQueue T × Thread T → Type 0
Takes p q r =
    (q.dequeue_pos ≤ (r.0).dequeue_pos)
    × ((n : ℕ) → reads (r.1) ≡ some n → (reads p ≡ some n) ⊎ (q.dequeue_pos ≤ n))
    × ((n : ℕ) → reads p ≡ some n → (reads (r.1) ≡ some n) ⊎ Out (handed_out p) n)
    × ((n : ℕ) → n < (r.0).dequeue_pos → (n < q.dequeue_pos) ⊎ (reads (r.1) ≡ some n))
    × ((n : ℕ) → Out (handed_out p) n → reads (r.1) ≢ some n)

pub takes {ℓ} :
    {T : Type ℓ} (spurious : Bool) (p : Thread T) (q : MpmcQueue T) (r : MpmcQueue T × Thread T)
    → q.dequeue_pos < 2 ^ 63
    → thread_step spurious p q ≡ ok r
    → Takes p q r
unfolding thread_step
takes spurious outside q r small e = ground arith
takes spurious (push_loading x) q r small e = ground arith
takes spurious (push_checking x pos) q r small e = ground arith
takes spurious (push_swapping x pos) q r small e = ground arith
takes spurious (push_writing x pos) q r small e = ground arith
takes spurious (push_releasing pos) q r small e = ground arith
takes spurious (pushed done) q r small e = ground arith
takes spurious pop_loading q r small e = ground arith
takes spurious (pop_checking pos) q r small e = ground arith
takes spurious (pop_swapping pos) q r small e = ground arith
takes spurious (pop_reading pos) q r small e = ground arith
takes spurious (pop_releasing x pos) q r small e = ground arith
takes spurious (popped x) q r small e = ground arith

-- No position twice.
abbrev pub Once {ℓ} : {T : Type ℓ} → List (ℕ × T) → Type 0
Once [] = Unit
Once ((n, x) ∷ ds) = All (λ d. d.0 ≢ n) ds × Once ds

pub Once-snoc {ℓ} :
    {T : Type ℓ} (ds : List (ℕ × T)) (n : ℕ) (x : T)
    → Once ds
    → All (λ d. d.0 ≢ n) ds
    → Once (ds ++ (n, x) ∷ [])
Once-snoc [] n x once fresh = (tt, tt)
Once-snoc ((m, y) ∷ ds) n x once fresh = (
  All-append (λ d. d.0 ≢ m) ds ((n, x) ∷ []) (once.0) ((λ e. fresh.0 (sym e)), tt),
  Once-snoc ds n x (once.1) (fresh.1),
)

pub hands {ℓ} :
    {T : Type ℓ} (p : Thread T)
    → (handed_out p ≡ []) ⊎ ((pos : ℕ) × (x : T) × (p ≡ pop_releasing x pos))
hands outside = inl refl
hands (push_loading x) = inl refl
hands (push_checking x pos) = inl refl
hands (push_swapping x pos) = inl refl
hands (push_writing x pos) = inl refl
hands (push_releasing pos) = inl refl
hands (pushed done) = inl refl
hands pop_loading = inl refl
hands (pop_checking pos) = inl refl
hands (pop_swapping pos) = inl refl
hands (pop_reading pos) = inl refl
hands (pop_releasing x pos) = inr (pos, x, refl)
hands (popped x) = inl refl
