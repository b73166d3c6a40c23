-- ===== src/Parser/Kept.antt =====
-- The view that the loop leaves is the end of the one it was given.
use native.Mathlib.Decide.{dec_lt}
use counter_drone_server.Base.{
  ℕ, zero, suc, ◌+◌, ◌-◌, ◌≤◌, ◌≡◌, refl, sym, ap, ◌∙◌, arith, [], ◌∷◌, Outcome, ok, fault,
  out_of_fuel, >>=-eq-ok, ◌==◌, Bool-cases, inl, inr, length, take, drop, length-drop, drop-drop,
}
use counter_drone_server.Packet.{
  BytesArray, TelemetryData, TypeMsg, telemetry, heart_beat, command, unknow, other,
}
use counter_drone_server.Packet.Crc.{calculate_crc16}
use counter_drone_server.Parser.{
  ParserState, wait_for_sync, read_type, read_length, read_payload, Machine, Turn, on_wait_for_sync,
  on_type, count_type, on_length, accept, reject, process_telemetry_payload, check_crc,
  back_to_sync, on_payload, process_heart_beat_payload, process_command_payload, total_packet_size,
  on_read_payload, on_state, step, next_round, loop,
}
use counter_drone_server.Parser.Deserialize.{View, deserialize_payload}
use counter_drone_server.Parser.Closed.{
  carried_crc, on_read_type_long, on_read_type_short, on_read_length_long, on_read_length_short,
  process_telemetry_payload_long,
}
use counter_drone_server.Parser.Sync.{sync, starts_packet, on_wait_for_sync-sync}

-- `w` is what is left of `v` once the bytes before it are erased.
abbrev pub Kept : View → View → Type 0
Kept v w = drop (length v - length w) v ≡ w

Kept-self : (v : View) → Kept v v
Kept-self v = let e : length v - length v ≡ 0 = omega arith in rw e refl

Kept-drop : (n : ℕ) (v : View) → n ≤ length v → Kept v (drop n v)
Kept-drop n v h =
    let e : length v - length (drop n v) ≡ n = omega (arith, length-drop n v) in rw e refl

Kept-shorter : (v w : View) → Kept v w → length w ≤ length v
Kept-shorter v w h =
    omega (arith, ap (λ (u : View). length u) h, length-drop (length v - length w) v)

Kept-trans : (u v w : View) → Kept u v → Kept v w → Kept u w
Kept-trans u v w h k =
    let total : length u - length w ≡ length u - length v + (length v - length w) =
      omega (arith, Kept-shorter u v h, Kept-shorter v w k) in
    ap (λ n. drop n u) total
    ∙ sym (drop-drop (length v - length w) (length u - length v) u)
    ∙ ap (λ x. drop (length v - length w) x) h
    ∙ k

sync-Kept : (v : View) (m : Machine) → Kept v (sync v m).view
unfolding sync
sync-Kept [] m = refl
sync-Kept (x ∷ []) m = ground arith
sync-Kept (x ∷ y ∷ v) m = elim (Bool-cases (starts_packet x y)) [
  | inl e ↦ rw e (Kept-self (x ∷ y ∷ v))
  | inr e ↦ rw e (
      Kept-trans (x ∷ y ∷ v) (y ∷ v) (sync (y ∷ v) m).view (Kept-drop 1 (x ∷ y ∷ v) (omega arith))
        (sync-Kept (y ∷ v) m))
]

accept-Kept :
    (v : View) (m : Machine) (n : ℕ) (o : Outcome TelemetryData) (r : View × Machine)
    → deserialize_payload (drop 5 v) ≡ o
    → accept v m n ≡ ok r
    → Kept v r.0
unfolding accept
accept-Kept v m n (ok d) r e h = ground (arith, Kept-drop n v)
accept-Kept v m n fault r e h = ground arith
accept-Kept v m n out_of_fuel r e h = ground arith

check_crc-Kept :
    (v : View) (m : Machine) (bytes : BytesArray) (crc n : ℕ) (r : View × Machine)
    → check_crc bytes crc v m n ≡ ok r
    → Kept v r.0
unfolding check_crc reject
check_crc-Kept v m bytes crc n r h = elim (Bool-cases (calculate_crc16 bytes == crc)) [
  | inl e ↦ accept-Kept v m n (deserialize_payload (drop 5 v)) r refl (rw e at h)
  | inr e ↦ let h' : reject v m ≡ ok r = rw e at h in ground (arith, Kept-drop 1 v)
]

module _ (v : View) (m : Machine) {t : Turn} where
  telemetry-Kept :
      (n : ℕ) → 2 ≤ n → n ≤ length v → process_telemetry_payload v m n ≡ ok t → Kept v t.view
  telemetry-Kept n two fits h =
      finish (>>=-eq-ok _ back_to_sync (sym (process_telemetry_payload_long v m n two fits) ∙ h))
    where
      finish :
          ((r : View × Machine) × (check_crc (take (n - 2) v) (carried_crc v n) v m n ≡ ok r)
            × (back_to_sync r ≡ ok t))
          → Kept v t.view
      finish (r, checked, reset) =
          unfold back_to_sync in
          ground (arith, check_crc-Kept v m (take (n - 2) v) (carried_crc v n) n r checked)

  payload-Kept :
      (ty : TypeMsg) → total_packet_size m ≤ length v → on_payload ty v m ≡ ok t → Kept v t.view
  unfolding on_payload process_heart_beat_payload process_command_payload
  payload-Kept telemetry fits h = telemetry-Kept (total_packet_size m) (omega arith) fits h
  payload-Kept heart_beat fits h = ground (arith, Kept-self v)
  payload-Kept command fits h = ground (arith, Kept-self v)
  payload-Kept unknow fits h = ground (arith, Kept-self v)
  payload-Kept (other n) fits h = ground (arith, Kept-self v)

  type-Kept : (ty : TypeMsg) → on_type ty v m ≡ ok t → Kept v t.view
  unfolding on_type count_type
  type-Kept ty h = ground (arith, Kept-self v, Kept-drop 2 v)

  length-Kept : (n : ℕ) → on_length n v m ≡ ok t → Kept v t.view
  unfolding on_length
  length-Kept n h = ground (arith, Kept-self v, Kept-drop 2 v)

waiting-Kept :
    (v : View) (m : Machine) {t : Turn} → 1 ≤ length v → on_wait_for_sync v m ≡ ok t → Kept v t.view
waiting-Kept [] m pos h = absurd (omega arith)
waiting-Kept (x ∷ v) m {t} pos h =
    let same : ok (sync (x ∷ v) m) ≡ ok t = sym (on_wait_for_sync-sync x v m) ∙ h in
    let same' : sync (x ∷ v) m ≡ t = cc in rw same' at (sync-Kept (x ∷ v) m)

state-Kept :
    (s : ParserState) (v : View) (m : Machine) {t : Turn}
    → 1 ≤ length v
    → on_state s v m ≡ ok t
    → Kept v t.view
unfolding on_state
state-Kept wait_for_sync v m pos h = waiting-Kept v m pos h
state-Kept read_type v m pos h = elim (dec_lt (length v) 3) [
  | yes short ↦ ground (arith, on_read_type_short v m short, Kept-self v)
  | no long ↦ type-Kept v m _ (sym (on_read_type_long v m (omega arith)) ∙ h)
]
state-Kept read_length v m pos h = elim (dec_lt (length v) 5) [
  | yes short ↦ ground (arith, on_read_length_short v m short, Kept-self v)
  | no long ↦ length-Kept v m _ (sym (on_read_length_long v m (omega arith)) ∙ h)
]
state-Kept read_payload v m {t} pos h = elim (dec_lt (length v) (total_packet_size m)) [
  | yes short ↦ unfold on_read_payload in ground (arith, Kept-self v)
  | no long ↦
      let fits : total_packet_size m ≤ length v = omega arith in
      unfold on_read_payload in ground (arith, payload-Kept v m {t = t} m.type fits)
]

-- Erasing the bytes that the view has passed leaves exactly the view.
pub loop-Kept :
    (f : ℕ) (v : View) (m : Machine) (w : View) (n : Machine) → loop f v m ≡ ok (w, n) → Kept v w
unfolding loop
loop-Kept f [] m w n h = ground arith
loop-Kept zero (x ∷ v) m w n h = cc
loop-Kept (suc f) (x ∷ v) m w n h =
    finish (λ u l k. loop-Kept f u l w n k) (>>=-eq-ok (step (x ∷ v) m) (next_round (loop f)) h)
  where
    finish :
        ((u : View) (l : Machine) → loop f u l ≡ ok (w, n) → Kept u w)
        → ((t : Turn) × (step (x ∷ v) m ≡ ok t) × (next_round (loop f) t ≡ ok (w, n)))
        → Kept (x ∷ v) w
    finish ih (t, e, rest) =
        let first : Kept (x ∷ v) t.view =
          unfold step in state-Kept m.state (x ∷ v) m (omega arith) e in
        elim (Bool-cases t.state_changed) [
          | inl on ↦
              Kept-trans (x ∷ v) t.view w first
                (ih t.view t.machine (unfold next_round in rw on at rest))
          | inr off ↦ unfold next_round in ground arith
        ]
