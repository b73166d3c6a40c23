-- ===== src/Parser/Faults.antt =====
-- Where the state machine meets undefined behaviour, and that it always ends.
use native.Mathlib.Decide.{dec_lt}
use counter_drone_server.Base.{
  ℕ, zero, suc, ◌+◌, ◌-◌, ◌≤◌, ◌<◌, ◌≡◌, ◌≢◌, ◌⊎◌, inl, inr, refl, sym, ◌∙◌, arith, [], ◌∷◌, ◌++◌,
  true, ◌||◌, ltb, leb, leb→le, le→leb, Outcome, ok, fault, out_of_fuel, ◌>>=◌, ◌==◌, ==_iff,
  Bool-cases, length, take, drop,
}
use counter_drone_server.Packet.{
  TelemetryData, TypeMsg, telemetry, heart_beat, command, unknow, other, type_msg_of,
}
use counter_drone_server.SharedQueue.{push_data}
use counter_drone_server.Packet.Crc.{calculate_crc16}
use counter_drone_server.Parser.{
  ParserState, wait_for_sync, read_type, read_length, read_payload, Machine, Turn, on_type,
  count_type, on_length, accept, reject, process_telemetry_payload, check_crc, back_to_sync,
  on_payload, process_heart_beat_payload, process_command_payload, total_packet_size,
  on_read_payload, on_state, step, next_round, loop, enough_rounds, SensorDataParser,
  erase_processed, process_accumulated_data, big_endian,
}
use counter_drone_server.Parser.Deserialize.{View, deserialize_payload}
use counter_drone_server.Parser.Closed.{
  byte_at, carried_crc, on_read_type_long, on_read_type_short, on_read_length_long,
  on_read_length_short, process_telemetry_payload_long,
}
use counter_drone_server.Parser.Payload.{
  deserialize_payload_complete, deserialize_payload_short, fields_from,
}
use counter_drone_server.Parser.Sync.{on_wait_for_sync-sync}
use counter_drone_server.Parser.Progress.{measure, step_progress, measure-lt-enough_rounds}

-- A packet at the front of the view whose checksum is right, when the view ends before the forty
-- bytes that `deserialize_payload` takes behind the identifier.
pub record Overruns (v : View) (m : Machine) : Type 0 where
  pub reading : m.state ≡ read_payload
  pub type : m.type ≡ telemetry
  pub fits : total_packet_size m ≤ length v
  pub crc : calculate_crc16 (take (total_packet_size m - 2) v) ≡ carried_crc v (total_packet_size m)
  pub overrun : length v < byte_at v 5 + 46

-- `deserialize_payload` at five bytes into a view of at least six.
deserialize_cases :
    (v : View)
    → 6 ≤ length v
    → ((byte_at v 5 + 46 ≤ length v)
        × ((d : TelemetryData) × (deserialize_payload (drop 5 v) ≡ ok d)))
      ⊎ ((length v < byte_at v 5 + 46) × (deserialize_payload (drop 5 v) ≡ fault))
deserialize_cases (a ∷ b ∷ c ∷ d ∷ e ∷ id_len ∷ v) h = elim (dec_lt (length v) (id_len + 40)) [
  | yes short ↦ inr (omega arith, deserialize_payload_short id_len v short)
  | no long ↦ inl (
    omega arith,
    (
      fields_from (take id_len v) (drop id_len v),
      deserialize_payload_complete id_len v (omega arith),
    ),
  )
]
deserialize_cases v h = absurd (omega arith)

-- An outcome that is undefined behaviour in the case `P`, and else a value.
abbrev pub FaultsIf {ℓ} : {A : Type ℓ} → Type 0 → Outcome A → Type ℓ
FaultsIf {A} P o = (P × (o ≡ fault)) ⊎ ((¬ P) × ((a : A) × (o ≡ ok a)))

-- What `accept` leaves when the payload has been read.
abbrev taken : View → Machine → ℕ → TelemetryData → View × Machine
taken v m n item = (
  drop n v,
  record m {
    received_valid_packets = m.received_valid_packets ++ take n v ∷ [];
    telemetry_packets_manager = push_data m.telemetry_packets_manager item;
  },
)

accept_long :
    (v : View) (m : Machine) (n : ℕ)
    → 5 ≤ length v
    → n ≤ length v
    → accept v m n ≡ (deserialize_payload (drop 5 v) >>= λ item. ok (taken v m n item))
unfolding accept
accept_long v m n five fits = rw (le→leb 5 (length v) five, le→leb n (length v) fits) refl

accept_cases :
    (v : View) (m : Machine) (n : ℕ)
    → 7 ≤ n
    → n ≤ length v
    → FaultsIf (length v < byte_at v 5 + 46) (accept v m n)
accept_cases v m n seven fits = elim (deserialize_cases v (omega arith)) [
  | inl (long, (d, e)) ↦
      inr (λ short. omega arith, (taken v m n d, accept_long v m n (omega arith) fits ∙ rw e refl))
  | inr (short, e) ↦ inl (short, accept_long v m n (omega arith) fits ∙ rw e refl)
]

payload_cases :
    (v : View) (m : Machine)
    → m.state ≡ read_payload
    → m.type ≡ telemetry
    → total_packet_size m ≤ length v
    → FaultsIf (Overruns v m) (process_telemetry_payload v m (total_packet_size m))
unfolding check_crc
payload_cases v m s ty fits =
    elim (Bool-cases (calculate_crc16 (take (n - 2) v) == carried_crc v n)) [
      | inl e ↦ elim (accept_cases v m n (omega arith) fits) [
        | inl (short, faults) ↦ inl (
          record { reading = s; type = ty; fits = fits; crc = (==_iff _ _).0 e; overrun = short },
          closed ∙ rw (e, faults) refl,
        )
        | inr (long, (r, goes)) ↦
            inr
              (λ o. long o.overrun, (reset r, closed ∙ rw (e, goes) (unfold back_to_sync in refl)))
      ]
      | inr e ↦ inr (
        λ o. absurd (cc ((==_iff _ _).1 o.crc)),
        (
          reset (drop 1 v, record m { crc_errors_count = m.crc_errors_count + 1 }),
          closed ∙ rw e (unfold reject back_to_sync in rw (le→leb 1 (length v) (omega arith)) refl),
        ),
      )
    ]
  where
    n : ℕ
    n = total_packet_size m

    closed :
        process_telemetry_payload v m n
        ≡ (check_crc (take (n - 2) v) (carried_crc v n) v m n >>= back_to_sync)
    closed = process_telemetry_payload_long v m n (omega arith) fits

    reset : View × Machine → Turn
    reset (w, k) = record {
      state_changed = true;
      view = w;
      machine = record k { state = wait_for_sync };
    }

abbrev IsOk {ℓ} : {A : Type ℓ} → Outcome A → Type 0
IsOk (ok a) = Unit
IsOk fault = ⊥
IsOk out_of_fuel = ⊥

IsOk-value {ℓ} : {A : Type ℓ} (o : Outcome A) → IsOk o → (a : A) × (o ≡ ok a)
IsOk-value (ok a) h = (a, refl)
IsOk-value fault h = absurd h
IsOk-value out_of_fuel h = absurd h

type-IsOk : (ty : TypeMsg) (v : View) (m : Machine) → 2 ≤ length v → IsOk (on_type ty v m)
unfolding on_type count_type
type-IsOk telemetry v m two = tt
type-IsOk heart_beat v m two = tt
type-IsOk command v m two = tt
type-IsOk unknow v m two = rw (le→leb 2 (length v) two) tt
type-IsOk (other n) v m two = rw (le→leb 2 (length v) two) tt

length-IsOk : (n : ℕ) (v : View) (m : Machine) → 2 ≤ length v → IsOk (on_length n v m)
unfolding on_length
length-IsOk n v m two = elim (Bool-cases (ltb n 40 || ltb 80 n)) [
  | inl e ↦ rw (e, le→leb 2 (length v) two) tt
  | inr e ↦ rw e tt
]

-- Outside READ_PAYLOAD no round reads past the view.
read-IsOk :
    (s : ParserState) (x : ℕ) (v : View) (m : Machine)
    → s ≢ read_payload
    → IsOk (on_state s (x ∷ v) m)
unfolding on_state
read-IsOk wait_for_sync x v m ne = rw (on_wait_for_sync-sync x v m) tt
read-IsOk read_type x v m ne = elim (dec_lt (length (x ∷ v)) 3) [
  | yes short ↦ rw (on_read_type_short (x ∷ v) m short) tt
  | no long ↦
      rw (on_read_type_long (x ∷ v) m (omega arith))
        (type-IsOk (type_msg_of (byte_at (x ∷ v) 2)) (x ∷ v) m (omega arith))
]
read-IsOk read_length x v m ne = elim (dec_lt (length (x ∷ v)) 5) [
  | yes short ↦ rw (on_read_length_short (x ∷ v) m short) tt
  | no long ↦
      rw (on_read_length_long (x ∷ v) m (omega arith))
        (length-IsOk (big_endian (byte_at (x ∷ v) 3) (byte_at (x ∷ v) 4)) (x ∷ v) m (omega arith))
]
read-IsOk read_payload x v m ne = absurd (ne refl)

ok_unless_overrun {ℓ} : {A : Type ℓ} {P : Type 0} {o : Outcome A} → ¬ P → IsOk o → FaultsIf P o
ok_unless_overrun never fine = inr (never, IsOk-value _ fine)

payload_state_cases :
    (x : ℕ) (v : View) (m : Machine) (ty : TypeMsg)
    → m.state ≡ read_payload
    → m.type ≡ ty
    → total_packet_size m ≤ length (x ∷ v)
    → FaultsIf (Overruns (x ∷ v) m) (on_payload ty (x ∷ v) m)
unfolding on_payload process_heart_beat_payload process_command_payload
payload_state_cases x v m telemetry s e fits = payload_cases (x ∷ v) m s e fits
payload_state_cases x v m heart_beat s e fits = ok_unless_overrun (λ o. cc (o.type)) tt
payload_state_cases x v m command s e fits = ok_unless_overrun (λ o. cc (o.type)) tt
payload_state_cases x v m unknow s e fits = ok_unless_overrun (λ o. cc (o.type)) tt
payload_state_cases x v m (other n) s e fits = ok_unless_overrun (λ o. cc (o.type)) tt

-- A round on a view that is not empty reads outside of it exactly in that case; else it has a result.
pub step_faults : (x : ℕ) (v : View) (m : Machine) → FaultsIf (Overruns (x ∷ v) m) (step (x ∷ v) m)
unfolding step
step_faults x v m = by_state m.state refl
  where
    elsewhere :
        (s : ParserState)
        → m.state ≡ s
        → s ≢ read_payload
        → FaultsIf (Overruns (x ∷ v) m) (on_state s (x ∷ v) m)
    elsewhere s e ne = ok_unless_overrun (λ o. ne (sym e ∙ o.reading)) (read-IsOk s x v m ne)

    by_state :
        (s : ParserState) → m.state ≡ s → FaultsIf (Overruns (x ∷ v) m) (on_state s (x ∷ v) m)
    by_state wait_for_sync e = elsewhere wait_for_sync e (λ q. cc)
    by_state read_type e = elsewhere read_type e (λ q. cc)
    by_state read_length e = elsewhere read_length e (λ q. cc)
    by_state read_payload e = elim (Bool-cases (leb (total_packet_size m) (length (x ∷ v)))) [
      | inl fits ↦
          unfold on_state on_read_payload in
          rw fits (
            payload_state_cases x v m m.type e refl
              (leb→le (total_packet_size m) (length (x ∷ v)) fits))
      | inr short ↦
          unfold on_state on_read_payload in
          rw short (ok_unless_overrun (λ o. cc (le→leb _ _ o.fits)) tt)
    ]

-- One round more leaves the loop with a result, undefined behaviour, or a smaller measure.
round_ends :
    (k : View → Machine → Outcome (View × Machine)) (x : ℕ) (v : View) (m : Machine)
    → ((w : View) (n : Machine) → measure w n < measure (x ∷ v) m → k w n ≢ out_of_fuel)
    → (step (x ∷ v) m >>= next_round k) ≢ out_of_fuel
unfolding next_round
round_ends k x v m ends q = elim (step_faults x v m) [
  | inl (overruns, e) ↦ cc (rw e at q)
  | inr (fine, (t, e)) ↦ elim (Bool-cases t.state_changed) [
    | inl on ↦ ends t.view t.machine (step_progress x v m t e on) (rw (e, on) at q)
    | inr off ↦ cc (rw (e, off) at q)
  ]
]

loop_ends : (f : ℕ) (v : View) (m : Machine) → measure v m < f → loop f v m ≢ out_of_fuel
unfolding loop
loop_ends f [] m h q = cc
loop_ends zero (x ∷ v) m h q = omega arith
loop_ends (suc f) (x ∷ v) m h q =
    round_ends (loop f) x v m (λ w n less. loop_ends f w n (omega arith)) q

-- The loop always ends: with `enough_rounds` for the bytes that are there, the fuel of the model
-- never runs out.
pub process_accumulated_data_ends :
    (p : SensorDataParser) → process_accumulated_data p ≢ out_of_fuel
unfolding process_accumulated_data
process_accumulated_data_ends p q =
    by_outcome (loop (enough_rounds (length p.accumulated_data)) p.accumulated_data p.machine) refl
      q
  where
    by_outcome :
        (o : Outcome (View × Machine))
        → loop (enough_rounds (length p.accumulated_data)) p.accumulated_data p.machine ≡ o
        → (o >>= λ r. ok (erase_processed p.accumulated_data r)) ≡ out_of_fuel
        → ⊥
    by_outcome (ok r) e q = cc
    by_outcome fault e q = cc
    by_outcome out_of_fuel e q =
        loop_ends _ p.accumulated_data p.machine
          (measure-lt-enough_rounds p.accumulated_data p.machine) e
