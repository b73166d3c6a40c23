-- ===== src/LockFree/Mpmc/Runs.antt =====
-- MPMCQueue's invariant holds in every system that the steps reach.
use mathlib.Core.Path.{subst}
use native.Mathlib.Nat.{mod-lt, mod-le, mod-eq_of_lt}
use counter_drone_server.Base.{
  ℕ, zero, suc, ◌+◌, ◌%◌, ◌^◌, ◌≤◌, ◌<◌, ◌≡◌, inl, refl, ap, ◌∙◌, arith, List, [], ◌++◌, length,
  length-append, get_or,
}
use counter_drone_server.LockFree.Mpmc.{
  Cell, MpmcQueue, Thread, outside, push_loading, pushed, pop_loading, popped, numbered, new_queue,
  reserved, at_thread, System, Step, call_push, call_pop, run, push_returns, pop_returns, Reach,
  start, later,
}
use counter_drone_server.LockFree.Mpmc.Sound.{cells_of, IsSound, idles}
use counter_drone_server.LockFree.Mpmc.Steps.{advance}

length-numbered {ℓ} : {T : Type ℓ} (value : T) (i n : ℕ) → length (numbered value i n) ≡ n
length-numbered value i zero = refl
length-numbered value i (suc n) = ap suc (length-numbered value (i + 1) n)

numbered_at {ℓ} :
    {T : Type ℓ} (value : T) (i n j : ℕ) (d : Cell T)
    → j < n
    → (get_or (numbered value i n) j d).sequence ≡ i + j
numbered_at value i zero j d less = absurd (omega arith)
numbered_at value i (suc n) zero d less = omega arith
numbered_at value i (suc n) (suc j) d less =
    omega (arith, numbered_at value (i + 1) n j d (omega arith))

module _ {ℓ} {T : Type ℓ} (k : ℕ) (value : T) (two : 2 ≤ 2 ^ k) where
  sound_start : 2 ^ k < 2 ^ 63 → IsSound k value [] (new_queue value (2 ^ k)) (λ i. outside)
  unfolding new_queue
  sound_start small = record {
    size = length-numbered value 0 (2 ^ k);
    mask = omega arith;
    next = refl;
    valid = record {
      order = omega arith;
      thread_at = λ i. tt;
      held = λ i n x e. cc;
      one_writer = λ i j n e. cc;
      one_reader = λ i j n e. cc;
      full =
          λ n e. absurd (omega (arith, at (n % 2 ^ k) (mod-lt n (omega arith)), mod-le n (2 ^ k)));
      reserved_from = λ n less. absurd (omega arith);
      taken_from = λ n less. absurd (omega arith);
      bounded = λ n less. omega (arith, at n less);
      phase = λ n less. inl (ap (λ m. m % 2 ^ k) (at n less ∙ z n) ∙ mod-eq_of_lt less);
      write_owned = λ n less. absurd (omega arith);
      read_owned = λ n less. absurd (omega arith);
    };
  }
    where
      z : (n : ℕ) → 0 + n ≡ n
      z n = omega arith

      at : (j : ℕ) → j < 2 ^ k → (cells_of k value (new_queue value (2 ^ k)) j).sequence ≡ 0 + j
      at j less = numbered_at value 0 (2 ^ k) j _ less

  sound_step :
      {s t : System T} {items more : List T}
      → length items + 2 ^ k < 2 ^ 63
      → Step s more t
      → IsSound k value items s.queue s.threads
      → IsSound k value (items ++ more) t.queue t.threads
  sound_step small (call_push s i x here) v =
      idles k value two v small i outside (push_loading x) here tt refl refl refl refl refl
  sound_step small (call_pop s i here) v =
      idles k value two v small i outside pop_loading here tt refl refl refl refl refl
  sound_step {items = items} small (run s i spurious q p e) v =
      let (r, e', w) = advance k value two v small i spurious (s.threads i) refl in
      let same : r ≡ (q, p) = cc in
      subst
        (λ (x : MpmcQueue T × Thread T).
          IsSound k value (items ++ reserved spurious (s.threads i) s.queue) x.0
            (at_thread i x.1 s.threads))
        same w
  sound_step small (push_returns s i done here) v =
      idles k value two v small i (pushed done) outside here tt refl refl refl refl refl
  sound_step small (pop_returns s i x here) v =
      idles k value two v small i (popped x) outside here tt refl refl refl refl refl

  pub reach-IsSound :
      {items : List T} {s : System T}
      → length items + 2 ^ k < 2 ^ 63
      → Reach value (2 ^ k) items s
      → IsSound k value items s.queue s.threads
  reach-IsSound small start = sound_start (omega arith)
  reach-IsSound small (later {items} {more} steps step) =
      let less : length items + 2 ^ k < 2 ^ 63 = omega (arith, length-append items more) in
      sound_step less step (reach-IsSound less steps)
