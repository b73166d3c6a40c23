-- ===== src/Parser/Chunks.antt =====
-- A run of the loop that has stopped, and the same run with more bytes.
use counter_drone_server.Base.{
  ℕ, zero, suc, ◌+◌, ◌≤◌, ◌<◌, ◌≡◌, inl, inr, refl, sym, ap, ap₂, ◌∙◌, arith, [], ◌∷◌, ◌++◌, true,
  false, Outcome, ok, >>=-eq-ok, ◌>>=◌, Bool-cases, length,
}
use counter_drone_server.Parser.{
  ParserState, wait_for_sync, Machine, Turn, on_state, step, next_round, loop, enough_rounds,
}
use counter_drone_server.Parser.Deserialize.{View}
use counter_drone_server.Parser.Sync.{sync, sync_kept, on_wait_for_sync-sync}
use counter_drone_server.Parser.Rounds.{extend, step-append}
use counter_drone_server.Parser.Progress.{
  measure, step_progress, loop_fuel, measure-lt-enough_rounds,
}
use counter_drone_server.Parser.Stops.{Stops, step-Stops}

-- The loop with the fuel that `process_accumulated_data` gives it.
abbrev pub run : View → Machine → Outcome (View × Machine)
run v m = loop (enough_rounds (length v)) v m

pub loop-run : (f : ℕ) (v : View) (m : Machine) → measure v m < f → loop f v m ≡ run v m
loop-run f v m h = loop_fuel f (enough_rounds (length v)) v m h (measure-lt-enough_rounds v m)

pub run-nil : (m : Machine) → run [] m ≡ ok ([], m)
unfolding loop
run-nil m = refl

-- A run makes one round and goes on.
pub run-step :
    (x : ℕ) (v : View) (m : Machine) (fuel : ℕ)
    → measure (x ∷ v) m ≤ fuel
    → run (x ∷ v) m ≡ (step (x ∷ v) m >>= next_round (loop fuel))
run-step x v m fuel h =
    let one : loop (suc fuel) (x ∷ v) m ≡ (step (x ∷ v) m >>= next_round (loop fuel)) =
      unfold loop in refl in
    sym (loop-run (suc fuel) (x ∷ v) m (omega arith)) ∙ one

pub step-sync :
    (x : ℕ) (v : View) (m : Machine)
    → m.state ≡ wait_for_sync
    → step (x ∷ v) m ≡ ok (sync (x ∷ v) m)
unfolding step on_state
step-sync x v m e = ap (λ (s : ParserState). on_state s (x ∷ v) m) e ∙ on_wait_for_sync-sync x v m

run_nothing_left :
    (x : ℕ) (v : View) (m : Machine)
    → m.state ≡ wait_for_sync
    → sync (x ∷ v) m ≡ sync [] m
    → run (x ∷ v) m ≡ run [] m
run_nothing_left x v m e h =
    let round : step (x ∷ v) m ≡ ok (sync [] m) = step-sync x v m e ∙ ap ok h in
    run-step x v m (measure (x ∷ v) m) (omega arith)
    ∙ ap (λ (o : Outcome Turn). o >>= next_round (loop (measure (x ∷ v) m))) round
    ∙ (unfold sync next_round in sym (run-nil m))

-- In WAIT_FOR_SYNC, views on which the search comes to the same lead to the same end.
pub same_sync :
    (v w : View) (m : Machine) → m.state ≡ wait_for_sync → sync v m ≡ sync w m → run v m ≡ run w m
same_sync [] [] m e h = refl
same_sync [] (y ∷ w) m e h = sym (run_nothing_left y w m e (sym h))
same_sync (x ∷ v) [] m e h = run_nothing_left x v m e h
same_sync (x ∷ v) (y ∷ w) m e h =
    let fuel : ℕ = measure (x ∷ v) m + measure (y ∷ w) m in
    let left : step (x ∷ v) m ≡ ok (sync (y ∷ w) m) = step-sync x v m e ∙ ap ok h in
    run-step x v m fuel (omega arith)
    ∙ ap (λ (o : Outcome Turn). o >>= next_round (loop fuel)) (left ∙ sym (step-sync y w m e))
    ∙ sym (run-step y w m fuel (omega arith))

-- A run that has stopped goes on with more bytes as if they had been there from the start.
module _ (b : View) where
  after_round :
      (k : View → Machine → Outcome (View × Machine)) (x : ℕ) (v : View) (m : Machine) (t : Turn)
      (w : View) (n : Machine)
      → ((u : View) (l : Machine) → k u l ≡ ok (w, n) → run (u ++ b) l ≡ run (w ++ b) n)
      → step (x ∷ v) m ≡ ok t
      → next_round k t ≡ ok (w, n)
      → run (x ∷ v ++ b) m ≡ run (w ++ b) n
  unfolding next_round
  after_round k x v m t w n resumes e h = elim (Bool-cases t.state_changed) [
    | inl on ↦ going on (resumes t.view t.machine (rw on at h))
    | inr off ↦ stopping off (step-Stops x v m t e off) (rw off at h)
  ]
    where
      fuel : ℕ
      fuel = measure (x ∷ v ++ b) m

      going :
          t.state_changed ≡ true
          → run (t.view ++ b) t.machine ≡ run (w ++ b) n
          → run (x ∷ v ++ b) m ≡ run (w ++ b) n
      going on rest =
          let e' : step (x ∷ v ++ b) m ≡ ok (extend b t) = step-append x v b m t e on in
          let less : measure (t.view ++ b) t.machine < measure (x ∷ v ++ b) m =
            step_progress x (v ++ b) m (extend b t) e' on in
          let round : (step (x ∷ v ++ b) m >>= next_round (loop fuel))
              ≡ loop fuel (t.view ++ b) t.machine =
            rw (e', on) refl in
          run-step x (v ++ b) m fuel (omega arith)
          ∙ round
          ∙ loop-run fuel (t.view ++ b) t.machine less
          ∙ rest

      stopping :
          t.state_changed ≡ false
          → Stops (x ∷ v) m t
          → ◌≡◌ {A = Outcome (View × Machine)} (ok (t.view, t.machine)) (ok (w, n))
          → run (x ∷ v ++ b) m ≡ run (w ++ b) n
      stopping off (same, inl stays) h =
          let ew : x ∷ v ≡ w = cc in
          let en : m ≡ n = cc in ap₂ (λ (u : View) (l : Machine). run (u ++ b) l) ew en
      stopping off (same, inr (waits, synced)) h =
          let ew : (sync (x ∷ v) m).view ≡ w = ap (λ (u : Turn). u.view) synced ∙ cc in
          let en : m ≡ n = cc in
          let kept : sync (x ∷ v ++ b) m ≡ sync ((sync (x ∷ v) m).view ++ b) m =
            (sync_kept (x ∷ v) b m (rw synced off)).1 in
          same_sync (x ∷ v ++ b) ((sync (x ∷ v) m).view ++ b) m waits kept
          ∙ ap₂ (λ (u : View) (l : Machine). run (u ++ b) l) ew en

  pub loop_resumes :
      (f : ℕ) (v : View) (m : Machine) (w : View) (n : Machine)
      → loop f v m ≡ ok (w, n)
      → run (v ++ b) m ≡ run (w ++ b) n
  unfolding loop
  loop_resumes f [] m w n h =
      let ew : [] ≡ w = cc in
      let en : m ≡ n = cc in ap₂ (λ (u : View) (l : Machine). run (u ++ b) l) ew en
  loop_resumes zero (x ∷ v) m w n h = cc
  loop_resumes (suc f) (x ∷ v) m w n h =
      finish (λ u l k. loop_resumes f u l w n k)
        (>>=-eq-ok (step (x ∷ v) m) (next_round (loop f)) h)
    where
      finish :
          ((u : View) (l : Machine) → loop f u l ≡ ok (w, n) → run (u ++ b) l ≡ run (w ++ b) n)
          → ((t : Turn) × (step (x ∷ v) m ≡ ok t) × (next_round (loop f) t ≡ ok (w, n)))
          → run (x ∷ v ++ b) m ≡ run (w ++ b) n
      finish resumes (t, e, rest) = after_round (loop f) x v m t w n resumes e rest
