-- ===== src/Parser/Progress.antt =====
-- The loop of `process_accumulated_data` ends: a measure falls in every round that goes on.
use native.Mathlib.Decide.{dec_lt}
use counter_drone_server.Base.{
  ℕ, zero, suc, ◌+◌, ◌-◌, ◌*◌, ◌≤◌, ◌<◌, ◌≡◌, inl, inr, refl, sym, ◌∙◌, arith, [], ◌∷◌, true,
  Outcome, ok, fault, out_of_fuel, >>=-eq-ok, ◌>>=◌, ◌==◌, Bool-cases, length, take, drop,
  length-drop,
}
use counter_drone_server.Packet.{
  BytesArray, TelemetryData, TypeMsg, telemetry, heart_beat, command, unknow, other,
}
use counter_drone_server.Packet.Crc.{calculate_crc16}
use counter_drone_server.Parser.{
  ParserState, wait_for_sync, read_type, read_length, read_payload, Machine, Turn, on_wait_for_sync,
  count_type, on_type, on_length, accept, reject, process_telemetry_payload, check_crc,
  back_to_sync, on_payload, process_heart_beat_payload, process_command_payload, total_packet_size,
  on_read_payload, on_state, step, next_round, loop, enough_rounds,
}
use counter_drone_server.Parser.Deserialize.{View, deserialize_payload}
use counter_drone_server.Parser.Closed.{
  carried_crc, on_read_type_long, on_read_type_short, on_read_length_long, on_read_length_short,
  process_telemetry_payload_long,
}
use counter_drone_server.Parser.Sync.{sync, on_wait_for_sync-sync}

-- Rounds to go before the state machine is back at WAIT_FOR_SYNC with a shorter view.
abbrev pub rank : ParserState → ℕ
rank wait_for_sync = 3
rank read_type = 2
rank read_length = 1
rank read_payload = 0

abbrev pub measure : View → Machine → ℕ
measure v m = 4 * length v + rank m.state

accept_shortens :
    (v : View) (m : Machine) (n : ℕ) (o : Outcome TelemetryData) (r : View × Machine)
    → deserialize_payload (drop 5 v) ≡ o
    → accept v m n ≡ ok r
    → length r.0 + n ≡ length v
unfolding accept
accept_shortens v m n (ok d) r e h = ground (arith, length-drop n v)
accept_shortens v m n fault r e h = ground arith
accept_shortens v m n out_of_fuel r e h = ground arith

check_crc_shortens :
    (v : View) (m : Machine) (bytes : BytesArray) (crc n : ℕ) (r : View × Machine)
    → 1 ≤ n
    → check_crc bytes crc v m n ≡ ok r
    → length r.0 < length v
unfolding check_crc reject
check_crc_shortens v m bytes crc n r pos h = elim (Bool-cases (calculate_crc16 bytes == crc)) [
  | inl e ↦ omega (arith, accept_shortens v m n (deserialize_payload (drop 5 v)) r refl (rw e at h))
  | inr e ↦ let h' : reject v m ≡ ok r = rw e at h in ground (arith, length-drop 1 v)
]

sync_progress :
    (v : View) (m : Machine)
    → (sync v m).state_changed ≡ true
    → measure (sync v m).view (sync v m).machine < 4 * length v + 3
unfolding sync
sync_progress [] m h = cc
sync_progress (x ∷ []) m h = cc
sync_progress (x ∷ y ∷ v) m h = ground (arith, sync_progress (y ∷ v) m)

wait_progress :
    (v : View) (m : Machine) (t : Turn)
    → t.state_changed ≡ true
    → 1 ≤ length v
    → on_wait_for_sync v m ≡ ok t
    → measure t.view t.machine < 4 * length v + 3
wait_progress [] m t goes_on pos h = absurd (omega arith)
wait_progress (x ∷ v) m t goes_on pos h =
    let e : ok (sync (x ∷ v) m) ≡ ok t = sym (on_wait_for_sync-sync x v m) ∙ h in
    let e' : sync (x ∷ v) m ≡ t = cc in rw e' at (sync_progress (x ∷ v) m (rw e' goes_on))

module _ (v : View) (m : Machine) {t : Turn} (goes_on : t.state_changed ≡ true) where
  telemetry_progress :
      (n : ℕ)
      → 2 ≤ n
      → n ≤ length v
      → process_telemetry_payload v m n ≡ ok t
      → measure t.view t.machine < 4 * length v
  unfolding back_to_sync
  telemetry_progress n two fits h =
      finish (>>=-eq-ok _ back_to_sync (sym (process_telemetry_payload_long v m n two fits) ∙ h))
    where
      bytes : BytesArray
      bytes = take (n - 2) v

      finish :
          ((r : View × Machine) × (check_crc bytes (carried_crc v n) v m n ≡ ok r)
            × (back_to_sync r ≡ ok t))
          → measure t.view t.machine < 4 * length v
      finish (r, checked, reset) =
          ground (arith, check_crc_shortens v m bytes (carried_crc v n) n r (omega arith) checked)

  payload_progress :
      (ty : TypeMsg)
      → total_packet_size m ≤ length v
      → on_payload ty v m ≡ ok t
      → measure t.view t.machine < 4 * length v
  unfolding on_payload process_heart_beat_payload process_command_payload
  payload_progress telemetry fits h = telemetry_progress (total_packet_size m) (omega arith) fits h
  payload_progress heart_beat fits h = ground arith
  payload_progress command fits h = ground arith
  payload_progress unknow fits h = ground arith
  payload_progress (other n) fits h = ground arith

  type_progress :
      (ty : TypeMsg)
      → 3 ≤ length v
      → on_type ty v m ≡ ok t
      → measure t.view t.machine < 4 * length v + 2
  unfolding on_type count_type
  type_progress ty long h = ground (arith, length-drop 2 v)

  length_progress :
      (n : ℕ) → 5 ≤ length v → on_length n v m ≡ ok t → measure t.view t.machine < 4 * length v + 1
  unfolding on_length
  length_progress n long h = ground (arith, length-drop 2 v)

  state_progress :
      (s : ParserState)
      → 1 ≤ length v
      → on_state s v m ≡ ok t
      → measure t.view t.machine < 4 * length v + rank s
  unfolding on_state
  state_progress wait_for_sync pos h = wait_progress v m t goes_on pos h
  state_progress read_type pos h = elim (dec_lt (length v) 3) [
    | yes short ↦ absurd (cc (on_read_type_short v m short))
    | no long ↦ type_progress _ (omega arith) (sym (on_read_type_long v m (omega arith)) ∙ h)
  ]
  state_progress read_length pos h = elim (dec_lt (length v) 5) [
    | yes short ↦ absurd (cc (on_read_length_short v m short))
    | no long ↦ length_progress _ (omega arith) (sym (on_read_length_long v m (omega arith)) ∙ h)
  ]
  state_progress read_payload pos h = elim (dec_lt (length v) (total_packet_size m)) [
    | yes short ↦ unfold on_read_payload in ground arith
    | no long ↦
        let fits : total_packet_size m ≤ length v = omega arith in
        unfold on_read_payload in ground (arith, payload_progress m.type fits)
  ]

-- A round that sets `state_changed` lowers the measure.
pub step_progress :
    (x : ℕ) (v : View) (m : Machine) (t : Turn)
    → step (x ∷ v) m ≡ ok t
    → t.state_changed ≡ true
    → measure t.view t.machine < measure (x ∷ v) m
unfolding step
step_progress x v m t h goes_on = state_progress (x ∷ v) m goes_on m.state (omega arith) h

-- Two ways to go on that agree below a measure agree after a round.
pub round_agrees :
    (k l : View → Machine → Outcome (View × Machine)) (x : ℕ) (v : View) (m : Machine)
    → ((w : View) (n : Machine) → measure w n < measure (x ∷ v) m → k w n ≡ l w n)
    → (step (x ∷ v) m >>= next_round k) ≡ (step (x ∷ v) m >>= next_round l)
round_agrees k l x v m agree = after (step (x ∷ v) m) refl
  where
    after : (o : Outcome Turn) → step (x ∷ v) m ≡ o → (o >>= next_round k) ≡ (o >>= next_round l)
    after fault e = refl
    after out_of_fuel e = refl
    after (ok t) e = elim (Bool-cases t.state_changed) [
      | inl on ↦ unfold next_round in rw on (agree t.view t.machine (step_progress x v m t e on))
      | inr off ↦ unfold next_round in rw off refl
    ]

-- The fuel given to the loop does not matter, as long as it is above the measure.
pub loop_fuel :
    (f g : ℕ) (v : View) (m : Machine) → measure v m < f → measure v m < g → loop f v m ≡ loop g v m
unfolding loop
loop_fuel f g [] m hf hg = refl
loop_fuel zero g (x ∷ v) m hf hg = absurd (omega arith)
loop_fuel (suc f) zero (x ∷ v) m hf hg = absurd (omega arith)
loop_fuel (suc f) (suc g) (x ∷ v) m hf hg =
    round_agrees (loop f) (loop g) x v m (λ w n h. loop_fuel f g w n (omega arith) (omega arith))

pub rank-lt : (s : ParserState) → rank s < 4
rank-lt wait_for_sync = omega arith
rank-lt read_type = omega arith
rank-lt read_length = omega arith
rank-lt read_payload = omega arith

-- The fuel of `process_accumulated_data` is above the measure.
pub measure-lt-enough_rounds : (v : View) (m : Machine) → measure v m < enough_rounds (length v)
measure-lt-enough_rounds v m = omega (arith, rank-lt m.state)
