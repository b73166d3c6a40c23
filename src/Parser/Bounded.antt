-- ===== src/Parser/Bounded.antt =====
-- How many bytes the parser holds back between two batches.
use mathlib.Core.Path.{subst, subst₂}
use native.Mathlib.Decide.{dec_lt}
use counter_drone_server.Base.{
  ℕ, zero, suc, ◌≤◌, ◌<◌, ◌≡◌, ◌⊎◌, inl, inr, refl, sym, ap, ◌∙◌, arith, List, [], ◌∷◌, false,
  Outcome, ok, >>=-eq-ok, Bool-cases, le→leb, length,
}
use counter_drone_server.Packet.{
  BytesArray, TelemetryData, TypeMsg, telemetry, heart_beat, command, unknow, other,
}
use counter_drone_server.SharedQueue.{SharedDataManager}
use counter_drone_server.Parser.{
  ParserState, wait_for_sync, read_type, read_length, read_payload, Machine, Turn, on_type,
  count_type, on_length, on_payload, on_wait_for_sync, total_packet_size, on_read_payload, on_state,
  step, next_round, loop, enough_rounds, SensorDataParser, new_parser, erase_processed,
  process_accumulated_data, process_loop, process_batch,
}
use counter_drone_server.Parser.Deserialize.{View}
use counter_drone_server.Parser.Closed.{on_read_type_long, on_read_length_long}
use counter_drone_server.Parser.Sync.{sync, starts_packet, on_wait_for_sync-sync}
use counter_drone_server.Parser.Stops.{Stops, telemetry_goes_on, step-Stops}
use counter_drone_server.Parser.Chunks.{run}
use counter_drone_server.Parser.Valid.{IsAccepted, Seen}
use counter_drone_server.Parser.Stream.{
  receive, bytes_of, process-ok, process_lem, process_batch_lem,
}
use counter_drone_server.Parser.Sound.{
  IsSoundParser, new_parser-IsSoundParser, process-IsSoundParser, receive-IsSoundParser,
}
use counter_drone_server.Parser.Stall.{IsIgnored, IsStuck}

-- Too few bytes for the state to go on, or a packet that has no handler.
abbrev Holds : ParserState → View → Machine → Type 0
Holds wait_for_sync v m = length v ≤ 1
Holds read_type v m = length v < 3
Holds read_length v m = length v < 5
Holds read_payload v m = (length v < total_packet_size m) ⊎ (IsAccepted m.type → IsIgnored m.type)

sync_holds :
    (v : View) (m : Machine) → (sync v m).state_changed ≡ false → length (sync v m).view ≤ 1
unfolding sync
sync_holds [] m h = omega arith
sync_holds (x ∷ []) m h = ground arith
sync_holds (x ∷ y ∷ v) m h = elim (Bool-cases (starts_packet x y)) [
  | inl e ↦ cc (rw e at h)
  | inr e ↦ rw e (sync_holds (y ∷ v) m (rw e at h))
]

not_telemetry : (ty : TypeMsg) → ((ty ≡ telemetry) → ⊥) → IsAccepted ty → IsIgnored ty
not_telemetry telemetry ne a = ne refl
not_telemetry heart_beat ne a = tt
not_telemetry command ne a = tt
not_telemetry unknow ne a = absurd a
not_telemetry (other n) ne a = absurd a

module _ (v : View) (m : Machine) {t : Turn} (stops : t.state_changed ≡ false) where
  type_goes_on : (ty : TypeMsg) → on_type ty v m ≡ ok t → ⊥
  unfolding on_type count_type
  type_goes_on ty h = ground arith

  length_goes_on : (n : ℕ) → on_length n v m ≡ ok t → ⊥
  unfolding on_length
  length_goes_on n h = ground arith

  payload_goes_on :
      (ty : TypeMsg)
      → ty ≡ telemetry
      → total_packet_size m ≤ length v
      → on_payload ty v m ≡ ok t
      → ⊥
  unfolding on_payload
  payload_goes_on telemetry e fits h =
      telemetry_goes_on v m stops (total_packet_size m) (omega arith) fits h
  payload_goes_on heart_beat e fits h = cc
  payload_goes_on command e fits h = cc
  payload_goes_on unknow e fits h = cc
  payload_goes_on (other n) e fits h = cc

  state-Holds :
      (s : ParserState)
      → 1 ≤ length v
      → on_state s v m ≡ ok t
      → (s ≡ wait_for_sync → ⊥)
      → Holds s v m
  unfolding on_state on_read_payload
  state-Holds wait_for_sync pos h ne = absurd (ne refl)
  state-Holds read_type pos h ne = elim (dec_lt (length v) 3) [
    | yes short ↦ short
    | no long ↦ absurd (type_goes_on _ (sym (on_read_type_long v m (omega arith)) ∙ h))
  ]
  state-Holds read_length pos h ne = elim (dec_lt (length v) 5) [
    | yes short ↦ short
    | no long ↦ absurd (length_goes_on _ (sym (on_read_length_long v m (omega arith)) ∙ h))
  ]
  state-Holds read_payload pos h ne = elim (dec_lt (length v) (total_packet_size m)) [
    | yes short ↦ inl short
    | no long ↦
        let fits : total_packet_size m ≤ length v = omega arith in
        let h' : on_payload m.type v m ≡ ok t =
          rw (le→leb (total_packet_size m) (length v) fits) at h in
        inr (not_telemetry m.type (λ e. payload_goes_on m.type e fits h'))
  ]

stop-Holds :
    (x : ℕ) (v : View) (m : Machine) (t : Turn)
    → step (x ∷ v) m ≡ ok t
    → t.state_changed ≡ false
    → Holds t.machine.state t.view t.machine
unfolding step
stop-Holds x v m t h stops = by_state m.state refl h (step-Stops x v m t h stops)
  where
    reading :
        (s : ParserState)
        → m.state ≡ s
        → (s ≡ wait_for_sync → ⊥)
        → on_state s (x ∷ v) m ≡ ok t
        → Stops (x ∷ v) m t
        → Holds t.machine.state t.view t.machine
    reading s e ne h (same, inl view) =
        let held : Holds m.state (x ∷ v) m =
          subst (λ st. Holds st (x ∷ v) m) (sym e)
            (state-Holds (x ∷ v) m stops s (omega arith) h ne) in
        subst₂ (λ (k : Machine) (w : View). Holds k.state w k) (sym same) (sym view) held
    reading s e ne h (same, inr (waits, synced)) = absurd (ne (sym e ∙ waits))

    waiting :
        m.state ≡ wait_for_sync
        → on_wait_for_sync (x ∷ v) m ≡ ok t
        → t.machine ≡ m
        → Holds t.machine.state t.view t.machine
    waiting e h same =
        let found : ok (sync (x ∷ v) m) ≡ ok t = sym (on_wait_for_sync-sync x v m) ∙ h in
        let synced : sync (x ∷ v) m ≡ t = cc in
        let short : length t.view ≤ 1 =
          subst (λ (u : Turn). length u.view ≤ 1) synced (sync_holds (x ∷ v) m (rw synced stops)) in
        let waits : t.machine.state ≡ wait_for_sync = ap (λ (k : Machine). k.state) same ∙ e in
        subst (λ st. Holds st t.view t.machine) (sym waits) short

    by_state :
        (s : ParserState)
        → m.state ≡ s
        → on_state s (x ∷ v) m ≡ ok t
        → Stops (x ∷ v) m t
        → Holds t.machine.state t.view t.machine
    by_state wait_for_sync e h stop = unfold on_state in waiting e h stop.0
    by_state read_type e h stop = reading read_type e (λ q. cc) h stop
    by_state read_length e h stop = reading read_length e (λ q. cc) h stop
    by_state read_payload e h stop = reading read_payload e (λ q. cc) h stop

nothing_held : (s : ParserState) (m : Machine) → Holds s [] m
nothing_held wait_for_sync m = omega arith
nothing_held read_type m = omega arith
nothing_held read_length m = omega arith
nothing_held read_payload m = inl (omega arith)

loop-Holds :
    (f : ℕ) (v : View) (m : Machine) (w : View) (n : Machine)
    → loop f v m ≡ ok (w, n)
    → Holds n.state w n
unfolding loop
loop-Holds f [] m w n h =
    let ew : [] ≡ w = cc in
    let en : m ≡ n = cc in
    subst₂ (λ (k : Machine) (u : View). Holds k.state u k) en ew (nothing_held m.state m)
loop-Holds zero (x ∷ v) m w n h = cc
loop-Holds (suc f) (x ∷ v) m w n h =
    finish (λ u l k. loop-Holds f u l w n k) (>>=-eq-ok (step (x ∷ v) m) (next_round (loop f)) h)
  where
    finish :
        ((u : View) (l : Machine) → loop f u l ≡ ok (w, n) → Holds n.state w n)
        → ((t : Turn) × (step (x ∷ v) m ≡ ok t) × (next_round (loop f) t ≡ ok (w, n)))
        → Holds n.state w n
    finish ih (t, e, rest) = elim (Bool-cases t.state_changed) [
      | inl on ↦ ih t.view t.machine (unfold next_round in rw on at rest)
      | inr off ↦
          let done : ◌≡◌ {A = Outcome (View × Machine)} (ok (t.view, t.machine)) (ok (w, n)) =
            unfold next_round in rw off at rest in
          let ew : t.view ≡ w = cc in
          let en : t.machine ≡ n = cc in
          subst₂ (λ (k : Machine) (u : View). Holds k.state u k) en ew (stop-Holds x v m t e off)
    ]

-- What is held back fits one packet, unless the machine is stuck.
bounded :
    (s : ParserState) (v : View) (m : Machine)
    → m.state ≡ s
    → Seen s v m
    → Holds s v m
    → (length v ≤ 86) ⊎ IsStuck m
bounded wait_for_sync v m e seen held = inl (omega arith)
bounded read_type v m e seen held = inl (omega arith)
bounded read_length v m e seen held = inl (omega arith)
bounded read_payload v m e (five, typed, stated, small, large) (inl short) = inl (omega arith)
bounded read_payload v m e (five, typed, stated, small, large) (inr ignored) =
    inr (e, ignored typed.3)

process_bounded :
    (p q : SensorDataParser)
    → process_accumulated_data p ≡ ok q
    → IsSoundParser q
    → (length q.accumulated_data ≤ 86) ⊎ IsStuck q.machine
process_bounded p q h sound = finish (
    >>=-eq-ok (run p.accumulated_data p.machine) (λ r. ok (erase_processed p.accumulated_data r))
      (sym (process_lem p) ∙ h))
  where
    finish :
        ((r : View × Machine) × (run p.accumulated_data p.machine ≡ ok r)
          × (ok (erase_processed p.accumulated_data r) ≡ ok q))
        → (length q.accumulated_data ≤ 86) ⊎ IsStuck q.machine
    finish ((w, n), ran, kept) =
        let left : SensorDataParser = record { accumulated_data = w; machine = n } in
        let e : left ≡ q = cc (process-ok p w n ran) in
        let held : Holds q.machine.state q.accumulated_data q.machine =
          subst (λ (r : SensorDataParser). Holds r.machine.state r.accumulated_data r.machine) e
            (loop-Holds (enough_rounds (length p.accumulated_data)) p.accumulated_data p.machine w n
              ran) in
        bounded q.machine.state q.accumulated_data q.machine refl sound.0 held

process_loop_bounded :
    (batches : List (List BytesArray)) (p q : SensorDataParser)
    → (length p.accumulated_data ≤ 86) ⊎ IsStuck p.machine
    → process_loop batches p ≡ ok q
    → IsSoundParser p
    → (length q.accumulated_data ≤ 86) ⊎ IsStuck q.machine
unfolding process_loop
process_loop_bounded [] p q start h sound =
    let e : p ≡ q = cc in
    subst (λ (r : SensorDataParser). (length r.accumulated_data ≤ 86) ⊎ IsStuck r.machine) e start
process_loop_bounded (batch ∷ batches) p q start h sound =
    let (r, first, rest) = >>=-eq-ok (process_batch batch p) (process_loop batches) h in
    let first' : process_accumulated_data (receive (bytes_of batch) p) ≡ ok r =
      sym (process_batch_lem batch p) ∙ first in
    let sound' : IsSoundParser r =
      process-IsSoundParser (receive (bytes_of batch) p) r first'
        (receive-IsSoundParser (bytes_of batch) p sound) in
    process_loop_bounded batches r q (process_bounded (receive (bytes_of batch) p) r first' sound')
      rest sound'

-- From a new parser, after any number of batches, at most 86 bytes are held back for the next one,
-- less than one packet of the largest size, unless the machine reads the payload of a heart-beat
-- or command packet.
pub buffer_bounded :
    (queue : SharedDataManager TelemetryData) (batches : List (List BytesArray))
    (q : SensorDataParser)
    → process_loop batches (new_parser queue) ≡ ok q
    → (length q.accumulated_data ≤ 86) ⊎ IsStuck q.machine
unfolding new_parser
buffer_bounded queue batches q h =
    process_loop_bounded batches (new_parser queue) q (inl (omega arith)) h
      (new_parser-IsSoundParser queue)
