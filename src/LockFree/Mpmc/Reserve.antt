-- ===== src/LockFree/Mpmc/Reserve.antt =====
-- MPMCQueue's invariant when a thread moves without a write, and when it reserves a position.
use mathlib.Core.Path.{subst}
use native.Mathlib.Decide.{dec_lt}
use counter_drone_server.Base.{
  ℕ, ◌+◌, ◌%◌, ◌≡◌, inl, inr, refl, sym, ap, ◌∙◌, arith, List, [], ◌∷◌, ◌++◌, some, length,
  length-append, get_elem?, get_elem?-longer,
}
use counter_drone_server.LockFree.Mpmc.{
  Cell, Thread, outside, push_loading, push_checking, push_swapping, push_writing, push_releasing,
  pushed, pop_loading, pop_checking, pop_swapping, pop_reading, pop_releasing, popped, at_thread,
}
use counter_drone_server.LockFree.Mpmc.Valid.{writes, reads, ThreadAt, holds, IsValid}
use counter_drone_server.LockFree.Mpmc.Replace.{
  at_thread_self, at_thread-cases, still_one_writer, still_one_reader, still_write_owned,
  still_read_owned,
}

get_elem?-last {ℓ} :
    {T : Type ℓ} (items : List T) (y : T) → get_elem? (items ++ y ∷ []) (length items) ≡ some y
get_elem?-last [] y = refl
get_elem?-last (z ∷ items) y = get_elem?-last items y

module _ {ℓ} {T : Type ℓ} {cap : ℕ} {cells : ℕ → Cell T} {items : List T} {D : ℕ}
    {threads : ℕ → Thread T} (v : IsValid cap cells items D threads) (i : ℕ) where
  -- The thread keeps what it has reserved.
  pub moved :
      (p : Thread T)
      → ThreadAt cap cells (length items) D p
      → writes p ≡ writes (threads i)
      → reads p ≡ reads (threads i)
      → ((n : ℕ) (x : T) → holds cap cells p ≡ some (n, x) → get_elem? items n ≡ some x)
      → IsValid cap cells items D (at_thread i p threads)
  moved p at same_writes same_reads holding = record {
    order = v.order;
    thread_at =
        at_thread-cases (λ j x. ThreadAt cap cells (length items) D x) i p threads at
          (λ j other. v.thread_at j);
    held =
        at_thread-cases
          (λ j x. (n : ℕ) (y : T) → holds cap cells x ≡ some (n, y) → get_elem? items n ≡ some y) i
          p threads holding (λ j other. v.held j);
    one_writer = still_one_writer v i p (λ n w. inl (sym same_writes ∙ w));
    one_reader = still_one_reader v i p (λ n w. inl (sym same_reads ∙ w));
    full = v.full;
    reserved_from = v.reserved_from;
    taken_from = v.taken_from;
    bounded = v.bounded;
    phase = v.phase;
    write_owned =
        λ n less e. still_write_owned v i p n (λ w. same_writes ∙ w) (v.write_owned n less e);
    read_owned = λ n less e. still_read_owned v i p n (λ w. same_reads ∙ w) (v.read_owned n less e);
  }

  -- Another thread's locals, when a place is reserved.
  others_reserve :
      (E : ℕ) (p : Thread T) → ThreadAt cap cells E D p → ThreadAt cap cells (E + 1) D p
  others_reserve E outside at = at
  others_reserve E (push_loading data_in) at = at
  others_reserve E (push_checking data_in pos) at = omega arith
  others_reserve E (push_swapping data_in pos) at = (omega (arith, at.0), λ low. at.1 (omega arith))
  others_reserve E (push_writing data_in pos) at = (omega (arith, at.0), at.1)
  others_reserve E (push_releasing pos) at = (omega (arith, at.0), at.1)
  others_reserve E (pushed done) at = at
  others_reserve E pop_loading at = at
  others_reserve E (pop_checking pos) at = at
  others_reserve E (pop_swapping pos) at = at
  others_reserve E (pop_reading pos) at = at
  others_reserve E (pop_releasing out_data pos) at = at
  others_reserve E (popped out_data) at = at

  others_take : (E : ℕ) (p : Thread T) → ThreadAt cap cells E D p → ThreadAt cap cells E (D + 1) p
  others_take E outside at = at
  others_take E (push_loading data_in) at = at
  others_take E (push_checking data_in pos) at = at
  others_take E (push_swapping data_in pos) at = at
  others_take E (push_writing data_in pos) at = at
  others_take E (push_releasing pos) at = at
  others_take E (pushed done) at = at
  others_take E pop_loading at = at
  others_take E (pop_checking pos) at = omega arith
  others_take E (pop_swapping pos) at = (omega (arith, at.0), λ low. at.1 (omega arith))
  others_take E (pop_reading pos) at = (omega (arith, at.0), at.1)
  others_take E (pop_releasing out_data pos) at = (omega (arith, at.0), at.1)
  others_take E (popped out_data) at = at

  -- The exchange of `push`.
  pub reserve :
      (x : T) (pos : ℕ)
      → threads i ≡ push_swapping x pos
      → pos ≡ length items
      → IsValid cap cells (items ++ x ∷ []) D (at_thread i (push_writing x pos) threads)
  reserve x pos here last =
      let E : ℕ = length items in
      let grown : length (items ++ x ∷ []) ≡ E + 1 = length-append items (x ∷ []) in
      let (low, seen) = subst (ThreadAt cap cells E D) here (v.thread_at i) in
      let turn : (cells (pos % cap)).sequence ≡ pos = seen (omega arith) in
      record {
        order = omega (arith, v.order);
        thread_at = rw grown (
            at_thread-cases (λ j x. ThreadAt cap cells (E + 1) D x) i (push_writing x pos) threads
              (omega arith, turn) (λ j other. others_reserve E (threads j) (v.thread_at j)));
        held =
            at_thread-cases
              (λ j y.
                (n : ℕ) (z : T)
                → holds cap cells y ≡ some (n, z)
                → get_elem? (items ++ x ∷ []) n ≡ some z)
              i (push_writing x pos) threads (λ n z e. cc (e, last, get_elem?-last items x))
              (λ j other n z e. get_elem?-longer items (x ∷ []) n z (v.held j n z e));
        one_writer =
            still_one_writer v i (push_writing x pos) (λ n w. inr (omega (arith, last, same n w)));
        one_reader = still_one_reader v i (push_writing x pos) (λ n w. cc);
        full = λ n e.
            let (less, is) = v.full n e in
            (omega (arith, grown), get_elem?-longer items (x ∷ []) n _ is);
        reserved_from = λ n less. elim (dec_lt n E) [
          | yes old ↦ v.reserved_from n old
          | no new ↦ let e : n ≡ pos = omega (arith, grown) in rw e (omega (arith, turn))
        ];
        taken_from = v.taken_from;
        bounded = λ n less. omega (arith, grown, v.bounded n less);
        phase = v.phase;
        write_owned = λ n less e. elim (dec_lt n E) [
          | yes old ↦
              still_write_owned v i (push_writing x pos) n (λ w. cc (ap writes here))
                (v.write_owned n old e)
          | no new ↦
              let is : pos ≡ n = omega (arith, grown) in
              (i, ap writes (at_thread_self i (push_writing x pos) threads) ∙ ap some is)
        ];
        read_owned = λ n less e.
            still_read_owned v i (push_writing x pos) n (λ w. cc (ap reads here))
              (v.read_owned n less e);
      }
    where
      same : (n : ℕ) → some pos ≡ some n → pos ≡ n
      same n e = cc

  -- The exchange of `pop`.
  pub take_place :
      (pos : ℕ)
      → threads i ≡ pop_swapping pos
      → pos ≡ D
      → IsValid cap cells items (D + 1) (at_thread i (pop_reading pos) threads)
  take_place pos here last =
      let E : ℕ = length items in
      let (low, seen) = subst (ThreadAt cap cells E D) here (v.thread_at i) in
      let turn : (cells (pos % cap)).sequence ≡ pos + 1 = seen (omega arith) in
      let (below, item) = v.full pos turn in
      record {
        order = omega arith;
        thread_at =
            at_thread-cases (λ j x. ThreadAt cap cells E (D + 1) x) i (pop_reading pos) threads
              (omega arith, turn) (λ j other. others_take E (threads j) (v.thread_at j));
        held =
            at_thread-cases
              (λ j y.
                (n : ℕ) (z : T) → holds cap cells y ≡ some (n, z) → get_elem? items n ≡ some z)
              i (pop_reading pos) threads (λ n z e. cc) (λ j other. v.held j);
        one_writer = still_one_writer v i (pop_reading pos) (λ n w. cc);
        one_reader =
            still_one_reader v i (pop_reading pos) (λ n w. inr (omega (arith, last, same n w)));
        full = v.full;
        reserved_from = v.reserved_from;
        taken_from = λ n less. elim (dec_lt n D) [
          | yes old ↦ v.taken_from n old
          | no new ↦ let e : n ≡ pos = omega arith in rw e (omega (arith, turn))
        ];
        bounded = v.bounded;
        phase = v.phase;
        write_owned = λ n less e.
            still_write_owned v i (pop_reading pos) n (λ w. cc (ap writes here))
              (v.write_owned n less e);
        read_owned = λ n less e. elim (dec_lt n D) [
          | yes old ↦
              still_read_owned v i (pop_reading pos) n (λ w. cc (ap reads here))
                (v.read_owned n old e)
          | no new ↦
              let is : pos ≡ n = omega arith in
              (i, ap reads (at_thread_self i (pop_reading pos) threads) ∙ ap some is)
        ];
      }
    where
      same : (n : ℕ) → some pos ≡ some n → pos ≡ n
      same n e = cc
