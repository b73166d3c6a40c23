-- ===== src/Parser/Stops.antt =====
-- What a round leaves that stops the loop to wait for more bytes.
use native.Mathlib.Decide.{dec_lt}
use counter_drone_server.Base.{
  ℕ, ◌-◌, ◌≤◌, ◌≡◌, ◌≢◌, ◌⊎◌, inl, inr, refl, sym, ap, ◌∙◌, arith, [], ◌∷◌, false, ok, >>=-eq-ok,
  length, take,
}
use counter_drone_server.Packet.{TypeMsg, telemetry, heart_beat, command, unknow, other}
use counter_drone_server.Parser.{
  ParserState, wait_for_sync, read_type, read_length, read_payload, Machine, Turn, on_wait_for_sync,
  on_type, count_type, on_length, process_telemetry_payload, check_crc, back_to_sync, on_payload,
  process_heart_beat_payload, process_command_payload, total_packet_size, on_read_payload, on_state,
  step,
}
use counter_drone_server.Parser.Deserialize.{View}
use counter_drone_server.Parser.Closed.{
  carried_crc, on_read_type_long, on_read_type_short, on_read_length_long, on_read_length_short,
  process_telemetry_payload_long,
}
use counter_drone_server.Parser.Sync.{sync, sync_kept, on_wait_for_sync-sync}

-- What a round that stops the loop leaves.
abbrev pub Stops : View → Machine → Turn → Type 0
Stops v m t = (t.machine ≡ m) × ((t.view ≡ v) ⊎ ((m.state ≡ wait_for_sync) × (sync v m ≡ t)))

module _ (v : View) (m : Machine) {t : Turn} (stops : t.state_changed ≡ false) where
  pub telemetry_goes_on :
      (n : ℕ) → 2 ≤ n → n ≤ length v → process_telemetry_payload v m n ≡ ok t → ⊥
  telemetry_goes_on n two fits h =
      finish (>>=-eq-ok _ back_to_sync (sym (process_telemetry_payload_long v m n two fits) ∙ h))
    where
      finish :
          ((r : View × Machine) × (check_crc (take (n - 2) v) (carried_crc v n) v m n ≡ ok r)
            × (back_to_sync r ≡ ok t))
          → ⊥
      finish (r, checked, reset) = unfold back_to_sync in ground arith

  payload_stops :
      (ty : TypeMsg)
      → total_packet_size m ≤ length v
      → on_payload ty v m ≡ ok t
      → (t.machine ≡ m) × (t.view ≡ v)
  unfolding on_payload process_heart_beat_payload process_command_payload
  payload_stops telemetry fits h =
      absurd (telemetry_goes_on (total_packet_size m) (omega arith) fits h)
  payload_stops heart_beat fits h = ground arith
  payload_stops command fits h = ground arith
  payload_stops unknow fits h = ground arith
  payload_stops (other n) fits h = ground arith

  type_stops : (ty : TypeMsg) → on_type ty v m ≡ ok t → (t.machine ≡ m) × (t.view ≡ v)
  unfolding on_type count_type
  type_stops ty h = ground arith

  length_stops : (n : ℕ) → on_length n v m ≡ ok t → (t.machine ≡ m) × (t.view ≡ v)
  unfolding on_length
  length_stops n h = ground arith

  read_state_stops :
      (s : ParserState) → s ≢ wait_for_sync → on_state s v m ≡ ok t → (t.machine ≡ m) × (t.view ≡ v)
  unfolding on_state
  read_state_stops wait_for_sync ne h = absurd (ne refl)
  read_state_stops read_type ne h = elim (dec_lt (length v) 3) [
    | yes short ↦ ground (arith, on_read_type_short v m short)
    | no long ↦ type_stops _ (sym (on_read_type_long v m (omega arith)) ∙ h)
  ]
  read_state_stops read_length ne h = elim (dec_lt (length v) 5) [
    | yes short ↦ ground (arith, on_read_length_short v m short)
    | no long ↦ length_stops _ (sym (on_read_length_long v m (omega arith)) ∙ h)
  ]
  read_state_stops read_payload ne h = elim (dec_lt (length v) (total_packet_size m)) [
    | yes short ↦ unfold on_read_payload in ground arith
    | no long ↦
        let fits : total_packet_size m ≤ length v = omega arith in
        unfold on_read_payload in ground (arith, payload_stops m.type fits)
  ]

-- A round that does not set `state_changed` leaves the members alone, and the view too, except
-- for the garbage that WAIT_FOR_SYNC drops.
pub step-Stops :
    (x : ℕ) (v : View) (m : Machine) (t : Turn)
    → step (x ∷ v) m ≡ ok t
    → t.state_changed ≡ false
    → Stops (x ∷ v) m t
unfolding step
step-Stops x v m t h stops = by_state m.state refl h
  where
    reading :
        (s : ParserState) → s ≢ wait_for_sync → on_state s (x ∷ v) m ≡ ok t → Stops (x ∷ v) m t
    reading s ne h =
        let p : (t.machine ≡ m) × (t.view ≡ x ∷ v) = read_state_stops (x ∷ v) m stops s ne h in
        (p.0, inl p.1)

    waiting : on_wait_for_sync (x ∷ v) m ≡ ok t → m.state ≡ wait_for_sync → Stops (x ∷ v) m t
    waiting h e =
        let same : ok (sync (x ∷ v) m) ≡ ok t = sym (on_wait_for_sync-sync x v m) ∙ h in
        let same' : sync (x ∷ v) m ≡ t = cc in
        (
          ap (λ (u : Turn). u.machine) (sym same') ∙ (sync_kept (x ∷ v) [] m (rw same' stops)).0,
          inr (e, same'),
        )

    by_state : (s : ParserState) → m.state ≡ s → on_state s (x ∷ v) m ≡ ok t → Stops (x ∷ v) m t
    by_state wait_for_sync e h = unfold on_state in waiting h e
    by_state read_type e h = reading read_type (λ q. cc) h
    by_state read_length e h = reading read_length (λ q. cc) h
    by_state read_payload e h = reading read_payload (λ q. cc) h
