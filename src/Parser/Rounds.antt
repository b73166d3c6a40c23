-- ===== src/Parser/Rounds.antt =====
-- One round of the state machine on a view, and on the same view with more bytes behind it.
use native.Mathlib.Decide.{dec_lt}
use counter_drone_server.Base.{
  ℕ, ◌-◌, ◌≤◌, ◌≡◌, inl, inr, refl, sym, ap, ◌∙◌, arith, ◌∷◌, ◌++◌, true, Outcome, ok, fault,
  out_of_fuel, >>=-eq-ok, ◌>>=◌, ◌==◌, Bool-cases, get_or-append, length, take, drop, take-append,
  drop-append, length-append,
}
use counter_drone_server.Packet.{
  BytesArray, TelemetryData, TypeMsg, telemetry, heart_beat, command, unknow, other,
}
use counter_drone_server.Packet.Crc.{calculate_crc16}
use counter_drone_server.Parser.{
  ParserState, wait_for_sync, read_type, read_length, read_payload, Machine, Turn, on_wait_for_sync,
  on_type, on_read_type, on_length, on_read_length, accept, reject, process_telemetry_payload,
  check_crc, back_to_sync, on_payload, process_heart_beat_payload, process_command_payload,
  total_packet_size, on_read_payload, on_state, step, big_endian,
}
use counter_drone_server.Parser.Deserialize.{View, deserialize_payload}
use counter_drone_server.Parser.Closed.{
  byte_at, on_read_type_long, on_read_type_short, on_read_length_long, on_read_length_short,
  process_telemetry_payload_long,
}
use counter_drone_server.Parser.Sync.{sync, sync-append, on_wait_for_sync-sync}
use counter_drone_server.Parser.Payload.{deserialize_payload-append}

abbrev pub extend : View → Turn → Turn
extend b t = record t { view = t.view ++ b }

accept_at :
    (v b : View) (m : Machine) (n : ℕ) (o : Outcome TelemetryData) {r : View × Machine}
    → deserialize_payload (drop 5 v) ≡ o
    → 5 ≤ length v
    → n ≤ length v
    → accept v m n ≡ ok r
    → accept (v ++ b) m n ≡ ok (r.0 ++ b, r.1)
unfolding accept
accept_at v b m n (ok d) e five fits h = ground (
  arith,
  length-append v b,
  take-append n v b,
  drop-append n v b,
  drop-append 5 v b,
  deserialize_payload-append (drop 5 v) b e,
)
accept_at v b m n fault e five fits h = ground arith
accept_at v b m n out_of_fuel e five fits h = ground arith

reject_at :
    (v b : View) (m : Machine) {r : View × Machine}
    → reject v m ≡ ok r
    → reject (v ++ b) m ≡ ok (r.0 ++ b, r.1)
unfolding reject
reject_at v b m h = ground (arith, length-append v b, drop-append 1 v b)

check_crc_at :
    (v b : View) (m : Machine) (bytes : BytesArray) (crc n : ℕ) (r : View × Machine)
    → 5 ≤ length v
    → n ≤ length v
    → check_crc bytes crc v m n ≡ ok r
    → check_crc bytes crc (v ++ b) m n ≡ ok (r.0 ++ b, r.1)
unfolding check_crc
check_crc_at v b m bytes crc n r five fits h = elim (Bool-cases (calculate_crc16 bytes == crc)) [
  | inl e ↦ rw e (accept_at v b m n (deserialize_payload (drop 5 v)) refl five fits (rw e at h))
  | inr e ↦ rw e (reject_at v b m (rw e at h))
]

process_telemetry_payload_at :
    (v b : View) (m : Machine) (n : ℕ) (t : Turn)
    → 5 ≤ length v
    → 2 ≤ n
    → n ≤ length v
    → process_telemetry_payload v m n ≡ ok t
    → process_telemetry_payload (v ++ b) m n ≡ ok (extend b t)
unfolding back_to_sync
process_telemetry_payload_at v b m n t five two fits h =
    process_telemetry_payload_long (v ++ b) m n two (omega (arith, length-append v b))
    ∙ rw
        (
          take-append (n - 2) v b (omega arith),
          get_or-append v b (n - 2) 0 (omega arith),
          get_or-append v b (n - 1) 0 (omega arith),
        )
        (finish
          (>>=-eq-ok _ back_to_sync (sym (process_telemetry_payload_long v m n two fits) ∙ h)))
  where
    bytes : BytesArray
    bytes = take (n - 2) v

    crc : ℕ
    crc = big_endian (byte_at v (n - 2)) (byte_at v (n - 1))

    finish :
        ((r : View × Machine) × (check_crc bytes crc v m n ≡ ok r) × (back_to_sync r ≡ ok t))
        → (check_crc bytes crc (v ++ b) m n >>= back_to_sync) ≡ ok (extend b t)
    finish (r, checked, reset) =
        rw (check_crc_at v b m bytes crc n r five fits checked) (ground arith)

wait_for_sync_at :
    (x : ℕ) (v b : View) (m : Machine) (t : Turn)
    → t.state_changed ≡ true
    → on_wait_for_sync (x ∷ v) m ≡ ok t
    → on_wait_for_sync (x ∷ v ++ b) m ≡ ok (extend b t)
wait_for_sync_at x v b m t goes_on h =
    let e : ok (sync (x ∷ v) m) ≡ ok t = sym (on_wait_for_sync-sync x v m) ∙ h in
    let e' : sync (x ∷ v) m ≡ t = cc in
    on_wait_for_sync-sync x (v ++ b) m
    ∙ ap ok (sync-append (x ∷ v) b m (rw e' goes_on) ∙ ap (extend b) e')

-- A round that goes on does the same when more bytes follow.
module _ (v b : View) (m : Machine) {t : Turn} (goes_on : t.state_changed ≡ true) where
  type_at :
      (ty : TypeMsg)
      → 2 ≤ length v
      → on_type ty v m ≡ ok t
      → on_type ty (v ++ b) m ≡ ok (extend b t)
  unfolding on_type
  type_at ty two h = ground (arith, length-append v b, drop-append 2 v b)

  read_type_at : on_read_type v m ≡ ok t → on_read_type (v ++ b) m ≡ ok (extend b t)
  read_type_at h = elim (dec_lt (length v) 3) [
    | yes short ↦ absurd (cc (on_read_type_short v m short))
    | no long ↦
        on_read_type_long (v ++ b) m (omega (arith, length-append v b))
        ∙ rw (get_or-append v b 2 0 (omega arith))
            (type_at _ (omega arith) (sym (on_read_type_long v m (omega arith)) ∙ h))
  ]

  length_at :
      (n : ℕ) → 2 ≤ length v → on_length n v m ≡ ok t → on_length n (v ++ b) m ≡ ok (extend b t)
  unfolding on_length
  length_at n two h = ground (arith, length-append v b, drop-append 2 v b)

  read_length_at : on_read_length v m ≡ ok t → on_read_length (v ++ b) m ≡ ok (extend b t)
  read_length_at h = elim (dec_lt (length v) 5) [
    | yes short ↦ absurd (cc (on_read_length_short v m short))
    | no long ↦
        on_read_length_long (v ++ b) m (omega (arith, length-append v b))
        ∙ rw (get_or-append v b 3 0 (omega arith), get_or-append v b 4 0 (omega arith))
            (length_at _ (omega arith) (sym (on_read_length_long v m (omega arith)) ∙ h))
  ]

  payload_at :
      (ty : TypeMsg)
      → 2 ≤ length v
      → total_packet_size m ≤ length v
      → on_payload ty v m ≡ ok t
      → on_payload ty (v ++ b) m ≡ ok (extend b t)
  unfolding on_payload process_heart_beat_payload process_command_payload
  payload_at telemetry two fits h =
      process_telemetry_payload_at v b m (total_packet_size m) t (omega arith) (omega arith) fits h
  payload_at heart_beat two fits h = cc
  payload_at command two fits h = cc
  payload_at unknow two fits h = cc
  payload_at (other n) two fits h = cc

  read_payload_at : on_read_payload v m ≡ ok t → on_read_payload (v ++ b) m ≡ ok (extend b t)
  unfolding on_read_payload
  read_payload_at h = ground (arith, length-append v b, payload_at m.type)

-- A round that sets `state_changed` does the same when more bytes follow, which it leaves behind
-- its view.
pub step-append :
    (x : ℕ) (v b : View) (m : Machine) (t : Turn)
    → step (x ∷ v) m ≡ ok t
    → t.state_changed ≡ true
    → step (x ∷ v ++ b) m ≡ ok (extend b t)
unfolding step
step-append x v b m t h goes_on = by_state m.state h
  where
    by_state :
        (s : ParserState)
        → on_state s (x ∷ v) m ≡ ok t
        → on_state s (x ∷ v ++ b) m ≡ ok (extend b t)
    by_state wait_for_sync h = unfold on_state in wait_for_sync_at x v b m t goes_on h
    by_state read_type h = unfold on_state in read_type_at (x ∷ v) b m goes_on h
    by_state read_length h = unfold on_state in read_length_at (x ∷ v) b m goes_on h
    by_state read_payload h = unfold on_state in read_payload_at (x ∷ v) b m goes_on h
