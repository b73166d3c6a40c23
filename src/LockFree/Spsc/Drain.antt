-- ===== src/LockFree/Spsc/Drain.antt =====
-- SPSCQueue: `pop_all` while the producer stands still.
use mathlib.Core.Path.{subst}
use native.Mathlib.Nat.{mod-add-mod, mod-lt}
use native.Mathlib.Decide.{dec_lt}
use counter_drone_server.Base.{
  ℕ, zero, suc, ◌+◌, ◌-◌, ◌%◌, ◌^◌, ◌≤◌, ◌<◌, ◌≡◌, inl, inr, refl, sym, ap, ap₂, ◌∙◌, arith, List,
  [], ◌++◌, append-nil, true, false, ◌==◌, ==_iff, ==_ne, Bool-cases, Outcome, ok, length,
  length-append,
}
use counter_drone_server.LockFree.Spsc.{
  SpscQueue, Producer, Consumer, all_loading_head, draining, drained, available_items,
  consumer_step, consumer_run, System, Reach,
}
use counter_drone_server.LockFree.Spsc.Cells.{one_turn, mod_ne, cells, length-cells}
use counter_drone_server.LockFree.Spsc.Valid.{IsValid}
use counter_drone_server.LockFree.Spsc.Consume.{drain_step, with_consumer}
use counter_drone_server.LockFree.Spsc.Sound.{IsSound, reach-IsSound}

-- The distance between two places of the ring, by the test of the code.
available_items_lem :
    (cap H S : ℕ)
    → 0 < cap
    → cap < 2 ^ 64
    → H ≤ S
    → S < H + cap
    → available_items cap (H % cap) (S % cap) ≡ S - H
available_items_lem cap H S positive small order room =
    elim (one_turn cap (H % cap) (S - H) (mod-lt H positive) (omega arith)) [
      | inl straight ↦ ground (arith, around, straight, mod-lt H positive)
      | inr turned ↦ ground (arith, around, turned, mod-lt H positive, mod-lt S positive)
    ]
  where
    around : S % cap ≡ (H % cap + (S - H)) % cap
    around =
        let e : S ≡ H + (S - H) = omega arith in
        ap (λ k. k % cap) e ∙ sym (mod-add-mod H cap (S - H))

module _ {ℓ} {T : Type ℓ} (value : T) (moved : T → T) (p : Producer T) (received sent : List T)
    (H S : ℕ) where
  abbrev Drains : Outcome (SpscQueue T × Consumer T) → Type ℓ
  Drains o =
      (q : SpscQueue T) × ((all : List T) × (o ≡ ok (q, drained all)) × (sent ≡ received ++ all))

  drain_run :
      (f : ℕ) (q : SpscQueue T) (C head tail : ℕ) (items : List T)
      → S - C < f
      → IsValid value q p (draining head tail items) received sent H C S S
      → Drains (consumer_run moved (suc f) (draining head tail items) q)
  unfolding consumer_run
  drain_run zero q C head tail items enough v = absurd (omega arith)
  drain_run (suc f) q C head tail items enough v = elim (dec_lt C S) [
    | yes less ↦
        let (at, stop, low, high, taken) = v.consumer_at in
        let more : (head == tail) ≡ false =
          ==_ne head tail
            (λ e. mod_ne q.capacity C S less (omega (arith, v.room, v.read)) (sym at ∙ e ∙ stop)) in
        let (q', (head', (items', e, valid))) =
          drain_step value moved q p received sent H C S S head tail items v more in
        rw e (drain_run f q' (C + 1) head' tail items' (omega arith) valid)
    | no past ↦
        let (at, stop, low, high, taken) = v.consumer_at in
        let met : C ≡ S = omega arith in
        let same : (head == tail) ≡ true =
          (==_iff head tail).1 (at ∙ ap (λ k. k % q.capacity) met ∙ sym stop) in
        let none_left : S - C ≡ 0 = omega arith in
        (
          record q { head = head },
          (
            items,
            unfold consumer_step in rw same refl,
            v.log
                ∙ ap (λ n. received ++ items ++ cells q.capacity value q.buffer C n) none_left
                ∙ append-nil (received ++ items),
          ),
        )
  ]

  pop_all_run :
      (f : ℕ) (q : SpscQueue T) (C E : ℕ)
      → S - H < f
      → IsValid value q p Consumer.outside received sent H C E S
      → Drains (consumer_run moved (suc (suc (suc f))) all_loading_head q)
  unfolding consumer_run consumer_step
  pop_all_run f q C E enough v = elim (Bool-cases (q.head == q.tail)) [
    | inl empty ↦
        let none_left : S - C ≡ 0 = elim (dec_lt H S) [
          | yes less ↦ absurd (
              mod_ne q.capacity H S less v.room
                (sym v.head_at ∙ (==_iff q.head q.tail).0 empty ∙ v.tail_at))
          | no past ↦ omega (arith, v.read)
        ] in
        (
          q,
          (
            [],
            rw empty refl,
            v.log
                ∙ ap (λ n. received ++ [] ++ cells q.capacity value q.buffer C n) none_left
                ∙ append-nil (received ++ []),
          ),
        )
    | inr more ↦
        let at : q.head ≡ C % q.capacity =
          v.head_at ∙ ap (λ k. k % q.capacity) (sym v.consumer_at) in
        rw more (
          drain_run f q C q.head q.tail [] (omega (arith, v.read)) (
            with_consumer value moved q p received sent H C E S S Consumer.outside
              (draining q.head q.tail []) v
              (at, v.tail_at, v.behind, omega arith, omega (arith, v.consumer_at)) refl))
  ]

-- `pop_all`, called while the producer stands still in whatever place, ends and hands out all that
-- is in the queue, in order; the room that it reserves is exactly what it needs. Four rounds more
-- than the capacity are enough.
pub pop_all_takes_all {ℓ} :
    {T : Type ℓ} {moved : T → T} {value : T} {capacity : ℕ} {items : List T} {s : System T}
    (fuel : ℕ)
    → capacity + 1 < 2 ^ 64
    → Reach moved value capacity items s
    → s.consumer ≡ Consumer.outside
    → capacity + 4 ≤ fuel
    → (q : SpscQueue T) × ((all : List T) × (consumer_run moved fuel all_loading_head s.queue
          ≡ ok (q, drained all))
        × (items ≡ s.received ++ all)
        × (length all ≡ available_items s.queue.capacity s.queue.head s.queue.tail))
pop_all_takes_all {T} {moved} {value} {capacity} {items} {s} fuel small steps idle enough =
    let k : IsSound moved value capacity items s = reach-IsSound moved value capacity small steps in
    let v : IsValid value s.queue s.producer Consumer.outside s.received items k.H k.C k.E k.S =
      subst
        (λ (c : Consumer T). IsValid value s.queue s.producer c s.received items k.H k.C k.E k.S)
        idle k.valid in
    let (q, (all, e, whole)) =
      pop_all_run value moved s.producer s.received items k.H k.S (fuel - 3) s.queue k.C k.E
        (omega (arith, v.room, k.places)) v in
    let cap : ℕ = s.queue.capacity in
    let room : List T = cells cap value s.queue.buffer k.C (k.S - k.C) in
    let reserved : available_items cap s.queue.head s.queue.tail ≡ k.S - k.H =
      ap₂ (available_items cap) v.head_at v.tail_at
      ∙ available_items_lem cap k.H k.S v.positive v.small (omega (arith, v.read, v.behind))
          v.room in
    let counted : length all ≡ k.S - k.H = omega (
      arith,
      ap length whole,
      ap length v.log,
      length-append s.received all,
      length-append (s.received ++ []) room,
      length-append s.received [],
      length-cells cap value s.queue.buffer k.C (k.S - k.C),
      v.consumer_at,
      v.read,
      v.behind,
    ) in
    let rounds : fuel ≡ suc (suc (suc (fuel - 3))) = omega arith in
    (
      q,
      (
        all,
        ap (λ f. consumer_run moved f all_loading_head s.queue) rounds ∙ e,
        whole,
        counted ∙ sym reserved,
      ),
    )
